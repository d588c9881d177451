-- ===== src/Commit.antt =====
-- engine/src/ha_blockchain.cc: `bc_commit` and `bc_rollback`. `bc_adapter_map` holds the adapter of
-- each open table; `ha_ptr` is the transaction that the server keeps for the connection.
pub mod Meaning
pub mod Calls
pub mod Planned
pub mod Effects
pub mod Loop
pub mod Correct
pub mod Lost
use blockchain_db.Prelude.{
  ℕ, zero, suc, Bool, not, Option, none, some, List, [], ◌∷◌, length, ◌&&◌, if◌then◌else◌, Result,
  ok, fault, undefined, ◌>>=◌,
}
use blockchain_db.Bytes.{Bytes}
use blockchain_db.Bytes.Order.{bytes_ord}
use blockchain_db.Text.{Text, substr}
use blockchain_db.Text.Order.{text_ord}
use blockchain_db.Map.{Map, find, emplace, assign}
use blockchain_db.Transaction.{Statement, StatementType, Transaction, write, remove}
use blockchain_db.Adapter.{BcAdapter, Batch}

-- The part of `THD` that the engine reads and writes: the options OPTION_NOT_AUTOCOMMIT or
-- OPTION_BEGIN, the engine's slot of `ha_data`, and the calls of `trans_register_ha` (their second
-- argument).
pub record Thd : Type 0 where
  pub in_transaction : Bool
  pub ha_ptr : Option Transaction
  pub registered : List Bool

abbrev pub or_empty : Option Batch → Batch
or_empty none = []
or_empty (some batch) = batch

module _ (B : BcAdapter) where
  abbrev pub Adapters : Type 0
  Adapters = Map Text B.State

  -- `std::map<std::string, std::map<const BYTES, const BYTES>>`.
  abbrev pub WriteBatches : Type 0
  WriteBatches = Map Text Batch

  -- `if (batch.size() != 0) adapter->put(batch);` The status code is not read.
  unfoldable pub flush_batch : Batch → B.State → Result B.State
  flush_batch [] adapter = ok adapter
  flush_batch (e ∷ batch) adapter = do (_, _, adapter') ← B.put adapter (e ∷ batch); ok adapter'

  -- The batch of a table, after `write_batch_map.emplace` has made sure that there is one.
  abbrev pub batch_of : Text → WriteBatches → Batch
  batch_of table batches = or_empty (find table batches)

  pub run_statement :
      StatementType
      → Statement
      → B.State
      → Adapters
      → WriteBatches
      → Result (Adapters × WriteBatches)
  run_statement write s adapter adapters batches =
      ok (
        adapters,
        assign s.tablename (emplace s.key s.value (batch_of s.tablename batches)) batches,
      )
  run_statement remove s adapter adapters batches = do
    flushed ← flush_batch (batch_of s.tablename batches) adapter
    (_, removed) ← B.remove flushed s.key
    ok (assign s.tablename removed adapters, assign s.tablename [] batches)

  -- The loop over the statements; the code 1 is its early return.
  pub commit_loop : List Statement → Adapters → WriteBatches → Result (ℕ × Adapters × WriteBatches)
  unfolding run_statement
  commit_loop [] adapters batches = ok (0, adapters, batches)
  commit_loop (s ∷ rest) adapters batches = do
    database_name ← substr s.tablename 2 (length s.tablename)
    elim (find s.tablename adapters) [
      | none ↦ ok (1, adapters, batches)
      | some adapter ↦ do
        (adapters', batches') ← run_statement s.type s adapter adapters batches
        commit_loop rest adapters' batches'
    ]

  -- The loop over `write_batch_map`; `it->second` at the end of the map is undefined.
  pub flush_all : WriteBatches → Adapters → Result Adapters
  flush_all [] adapters = ok adapters
  flush_all ((table, []) ∷ batches) adapters = flush_all batches adapters
  flush_all ((table, e ∷ batch) ∷ batches) adapters = elim (find table adapters) [
    | none ↦ fault undefined
    | some adapter ↦ do
      flushed ← flush_batch (e ∷ batch) adapter
      flush_all batches (assign table flushed adapters)
  ]

  finish : Thd → ℕ × Adapters × WriteBatches → Result (ℕ × Thd × Adapters)
  finish thd (zero, adapters, batches) = do
    flushed ← flush_all batches adapters
    ok (0, record thd { ha_ptr = none }, flushed)
  finish thd (suc code, adapters, batches) = ok (suc code, thd, adapters)

  pub bc_commit : Thd → Bool → Adapters → Result (ℕ × Thd × Adapters)
  unfolding finish
  bc_commit thd commit_trx adapters =
      if not commit_trx && thd.in_transaction then ok (0, thd, adapters) else elim thd.ha_ptr [
        | none ↦ ok (0, thd, adapters)
        | some txn ↦ do loop ← commit_loop txn.statements adapters []; finish thd loop
      ]

unfoldable pub bc_rollback : Thd → Bool → ℕ × Thd
bc_rollback thd all =
    if not all && thd.in_transaction then (0, thd) else (0, record thd { ha_ptr = none })
