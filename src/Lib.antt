-- ===== src/Lib.antt =====
-- blockchainDB is a storage engine for MySQL that keeps each table on a blockchain. The engine
-- (engine/) turns the server's calls into the statements of a transaction; an adapter (adapter/)
-- puts keys and values on a blockchain. `external_lock` begins a transaction and reads a table into
-- it, the row operations work on that copy and note statements, scans read the copy, `bc_commit`
-- sends the statements to the adapters in batches, and `bc_rollback` drops them.
--
-- The files, and the code that they model:
-- - Prelude: Boolean tests, lists, integers, the results of C++ calls (a value, an exception or
--   undefined behaviour), and what `std::map` asks of a key.
-- - Bytes: `BYTES` and its operators
--   (adapter/interface/include/adapter_interface/adapter_interface.h).
-- - Text, Map: `std::string` and `std::map` as far as the code uses them.
-- - Transaction: `Transaction`, `STATEMENT`, addTable, addWrite, addRemove
--   (engine/include/transaction.h, engine/src/transaction.cc).
-- - Adapter: the class `BcAdapter` of adapter_interface.h as a record of operations that the engine
--   takes as a parameter, and of which no law is asked.
-- - Commit: `bc_commit`, `bc_rollback` (engine/src/ha_blockchain.cc). Commit/Meaning says what
--   statements mean without batches, Commit/Calls has the calls of adapters, how they run and what
--   they mean for a table that takes them, Commit/Planned the calls that a commit makes of its
--   statements, Commit/Effects what these mean, and Commit/Correct and Commit/Lost compare.
-- - Table: what the engine reads of the server's TABLE, and its copies between buffers.
-- - Rows: `get_primary_key`, `write_row`, `update_row`, `delete_row` of ha_blockchain.cc, with the
--   branches (Rows/Branches, Rows/Updates) and the invariant of the copies (Rows/Coherent,
--   Rows/Invariant).
-- - Lock: `external_lock`. Lock/Copies, Lock/Reads and Lock/Branches are about any adapter, and
--   Lock/Node about the adapter of Ethereum and its contract.
-- - Session: the calls between two ends of transactions as a step relation. Session/Reads is about
--   the copies and what the locks have read, and Session/Ends about whole transactions.
-- - Scan: `rnd_init`, `rnd_next`, `rnd_pos`, `position`, `rnd_end`, `find_row`.
-- - Index: `index_read` and the other index operations.
-- - Encoding: the hexadecimal encodings (adapter/utils/src/encoding_helpers.cpp).
-- - Response: `split` of adapter/ethereum/adapter/src/adapter_ethereum.cpp, which takes apart what
--   the contract's tableScan answers. Response/Clear is about the values that come back.
-- - Contract: the contract `SimpleStorage`
--   (adapter/ethereum/contract/truffle/contracts/TableStorage.sol), its operations and the calls in
--   blocks. Contract/Counts and Contract/Listed are about its list of keys, Contract/Meaning says
--   what calls mean for the rows, Contract/Scanned and Contract/Collected follow a scan to the map
--   of its reader, Contract/Sent and the files below it are about the call data that the adapter
--   writes, and Contract/Batches about the calls that write a batch.
-- - Assifunc: the earlier encodings of adapter/utils/src/assifunc.cpp and the earlier `exec` of
--   assifunc_ethereum.cpp, compared with those that are used.
-- - Word: `convert_to_32byte` of adapter_ethereum.cpp.
-- - Platform: libcurl, processes, the clock and the JSON library as parameters, and `exec` of
--   adapter/utils/src/shell_helpers.cpp.
-- - Ethereum: `EthereumAdapter` of adapter/ethereum/adapter/src/adapter_ethereum.cpp: its state,
--   the calls of its node and the wait for a transaction. Ethereum/Params is `RpcParams` and its
--   text, Ethereum/Reads has update_nonce, check_connection, get and get_all, Ethereum/Writes has
--   put, put_batch and remove, Ethereum/Tables has init, shutdown, create_table, load_table and
--   drop_table with the settings of config_ethereum.h, and makes a `BcAdapter` of the class.
--   Ethereum/Params/Object says what members the text of a transaction carries, and
--   Ethereum/Receipt what a good receipt is. Ethereum/Mining is about the wait, Ethereum/Settled about a whole transaction,
--   Ethereum/Requests about single calls, and Ethereum/Params/Decimal about the digits of the
--   transaction ids. Ethereum/Kept, with Reads/Kept, Writes/Kept and Tables/Kept, is about the part
--   of the state that no call touches, and Tables/Served about the calls between init and shutdown
--   as a step relation. The other files below Ethereum/Reads are about the nonces and
--   the values. Below Ethereum/Writes, Nonces and Failures are about the numbers of a batch and what
--   put does to the batch; Made, Numbered, Sent, Awaited and Succeeded follow a pair
--   through the four loops of put to its receipt, and Removed and Completed follow a key through
--   remove.
--   Tables/Networked, Tables/Connected and Tables/Ready are about what init leaves.
-- - Tables: `create`, `open` and `close` of ha_blockchain.cc. Tables/Metadata is the file with a
--   table's metadata, and Tables/Factory is adapter/factory/src/adapter_factory.cpp. Tables/Loaded
--   and Tables/Opened are about the adapter that an open leaves.
-- - Plugin: what `blockchain_init_func` registers, the test for system tables, and the methods of the
--   handler that do not look at the table (ha_blockchain.cc).
-- - Examples: an adapter in memory, a node with answers given beforehand, the files of a server,
--   and the theorems at concrete inputs.
--
-- State is passed explicitly: `Thd` is the part of THD that the engine touches, with the slot that
-- holds the transaction, and `Adapters` is `bc_adapter_map`. A row operation takes the slot to the
-- next slot. Lengths and positions are numbers; `initial_pos` and `key_pos` wrap at 2 ^ 16,
-- `lock_count` and `current_position` at 2 ^ 64. A read or a write past a buffer, a null pointer
-- and an iterator at the end are the fault `undefined`. `scan` runs on fuel, one more than the
-- rows; `split_values` on one more than the characters, of which each turn takes at least eight;
-- and `hex_digits` on 16, the digits of 64 bits. `mining_loop` runs on one more than the waiting
-- time over 200 ms, and each turn counts 200 ms; `decimal` on 20, the digits of 64 bits. A count of
-- pairs (`batch_elem_id`, an int) and the length of a buffer that is encoded (an unsigned) do not
-- wrap here: the model is right for fewer than 2 ^ 31 pairs and fewer than 2 ^ 32 bytes. The offset of
-- a field is a constant of the table: it is right for the buffers that fields point into.
--
-- SHA-256 (OpenSSL) and the server's `my_store_ptr` and `my_get_ptr` are parameters: all that is
-- asked is that a digest is not empty and that a stored pointer is read again. The outside world of
-- the Ethereum adapter (`Platform`) and the files of the server (`Server`) are parameters too. The
-- two regular expressions of the adapter are written as searches, and the one for the name of a
-- metadata file as a test, for table names of letters, digits and `_`.
--
-- A call of the contract is executed as a whole, in a block whose number is given; a call that
-- reverts leaves the contract as it was, and gas is not counted. How arguments and answers are laid
-- out in words is written down apart from the code, as the Solidity ABI documents it (`returned` of
-- Contract/Scanned, `IsPutOf` of Contract/Sent, `IsPutBatchOf` of Contract/Sent/Batch).
--
-- Not modelled: the scripts that compile and deploy the contract, the vendored JSON library, the
-- declaration of the plugin with its system variable, the making of handler objects, the limits that
-- ha_blockchain.h names, the debug prints, and the release of memory.
pub mod Prelude
pub mod Bytes
pub mod Text
pub mod Map
pub mod Transaction
pub mod Adapter
pub mod Commit
pub mod Table
pub mod Rows
pub mod Lock
pub mod Session
pub mod Scan
pub mod Index
pub mod Encoding
pub mod Response
pub mod Word
pub mod Assifunc
pub mod Plugin
pub mod Platform
pub mod Contract
pub mod Ethereum
pub mod Tables
pub mod Examples
