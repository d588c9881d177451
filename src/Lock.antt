-- ===== src/Lock.antt =====
-- engine/src/ha_blockchain.cc: `external_lock`, where a transaction begins and a table is read from
-- its blockchain into the transaction.
pub mod Reads
pub mod Branches
pub mod Copies
pub mod Node
use blockchain_db.Prelude.{
  ℕ, zero, ◌+◌, ◌^◌, ◌%◌, Bool, true, false, not, Option, none, some, List, [], ◌∷◌, ◌++◌, ◌==◌,
  if◌then◌else◌, ℤ, pos, negsuc, Result, ok, ◌>>=◌,
}
use blockchain_db.Bytes.{Bytes}
use blockchain_db.Bytes.Order.{bytes_ord}
use blockchain_db.Text.{Text}
use blockchain_db.Text.Order.{text_ord}
use blockchain_db.Map.{Map, find, contains, emplace, assign}
use blockchain_db.Transaction.{Transaction, TableMap, new_transaction, add_table}
use blockchain_db.Adapter.{BcAdapter, Batch}
use blockchain_db.Commit.{Thd, Adapters}
use blockchain_db.Table.{Table, full_table_name}
use blockchain_db.Rows.{Status, success, failed}

-- The value of F_UNLCK.
abbrev pub f_unlck : ℕ
f_unlck = 2

-- The loop that copies what `get_all` read into a map of the other type.
pub copy_entries : Batch → TableMap → TableMap
copy_entries [] table_map_final = table_map_final
copy_entries ((k, v) ∷ table_map) table_map_final =
    copy_entries table_map (emplace k v table_map_final)

abbrev pub is_minus_one : ℤ → Bool
is_minus_one (negsuc zero) = true
is_minus_one _ = false

-- The transaction of the slot, or a new one; `lock_count` is an unsigned long.
unfoldable pub counted : Option Transaction → Transaction
counted none = record new_transaction { lock_count = 1 }
counted (some txn) = record txn { lock_count = (txn.lock_count + 1) % 2 ^ 64 }

-- `addTable` and the calls of `trans_register_ha`.
pub enter : Thd → Text → TableMap → Transaction → Thd
enter thd name table_map txn = record thd {
  ha_ptr = some (add_table name table_map txn).1;
  registered = thd.registered ++ false ∷ (if thd.in_transaction then true ∷ [] else []);
}

module _ (B : BcAdapter) where
  read_table :
      Thd → Text → Transaction → Adapters B → Option B.State → Result (Status × Thd × Adapters B)
  unfolding enter copy_entries
  read_table thd name txn adapters none = ok (success, enter thd name [] txn, adapters)
  read_table thd name txn adapters (some adapter) = do
    (code, table_map, adapter') ← B.get_all adapter
    let adapters' = assign name adapter' adapters
    if is_minus_one code
        then ok (failed, record thd { ha_ptr = some txn }, adapters')
        else ok (success, enter thd name (copy_entries table_map []) txn, adapters')

  unfoldable pub external_lock : Thd → ℕ → Table → Adapters B → Result (Status × Thd × Adapters B)
  unfolding read_table counted
  external_lock thd lock_type table adapters =
      if lock_type == f_unlck
      then ok (success, thd, adapters)
      else let txn = counted thd.ha_ptr in
        let name = full_table_name table in
        if contains name txn.table_cache
        then ok (success, record thd { ha_ptr = some txn }, adapters)
        else read_table thd name txn adapters (find name adapters)
