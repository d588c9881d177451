-- ===== src/Examples.antt =====
-- An adapter in memory, a table of two columns, a node with answers given beforehand, the files of a
-- server, and the theorems at them.
mod Opened
mod Memory
mod Transactions
mod Written
mod Served
mod Records
mod Codecs
mod Contracts
mod Lookups
mod Node
mod Chain
mod Replies
mod Settled
mod Failures
mod Locks
mod Statements
