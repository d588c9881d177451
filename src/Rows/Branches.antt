-- ===== src/Rows/Branches.antt =====
-- What the row operations do on every branch, and that they keep the copy of the table coherent with
-- the statements.
use blockchain_db.Prelude.{
  ◌≡◌, ◌≢◌, refl, false, some, arith, if◌then◌else◌, ok, Bool-cases, inl, inr, >>=-eq-ok,
}
use blockchain_db.Prelude.Order.{same, same_iff, same_refl}
use blockchain_db.Bytes.{Bytes, size}
use blockchain_db.Bytes.Order.{bytes_ord}
use blockchain_db.Text.Order.{text_ord}
use blockchain_db.Map.{find, assign, erase, contains}
use blockchain_db.Map.Lookup.{find-assign}
use blockchain_db.Transaction.{Statement, Transaction, TableMap}
use blockchain_db.Table.{Table, full_table_name, Buffer}
use blockchain_db.Rows.{
  success, wrong_command, row_value, key_data, get_primary_key, write_row, delete_row,
  overwrite_row,
}
use blockchain_db.Rows.Coherent.{recorded, write_of, remove_of, add_write_lem, add_remove_lem}

module _ (sha256 : Buffer → Bytes) (digest : (d : Buffer) → size (sha256 d) ≢ 0) where
  pub key_long :
      (table : Table) (buf : Buffer) {key : Bytes}
      → get_primary_key sha256 table buf ≡ ok key
      → size key ≢ 0
  unfolding get_primary_key
  key_long table buf {key} h =
      let (d, _, e) = >>=-eq-ok (key_data sha256 table buf table.key_info) (λ d. ok (sha256 d)) h in
      λ z. digest d (ground arith)

  pub find-recorded :
      (txn : Transaction) (s : Statement) (m : TableMap)
      → find s.tablename (recorded txn s m).table_cache ≡ some m
  find-recorded txn s m = rw (find-assign, same_refl s.tablename) refl

  pub not_same : (a b : Bytes) → a ≢ b → same a b ≡ false
  not_same a b h = elim (Bool-cases (same a b)) [
    | inl e ↦ absurd (h ((same_iff a b).0 e))
    | inr e ↦ e
  ]

  -- `write_row` on a row whose key and value can be read, in a transaction that has a copy of the
  -- table: a key that the copy has is refused with HA_ERR_WRONG_COMMAND and changes nothing; any
  -- other answers success, with one write added to the statements and the row put into the copy.
  pub write_row-branches :
      (table : Table) (buf : Buffer) (txn : Transaction) {key : Bytes} {value : Buffer}
      {m : TableMap}
      → get_primary_key sha256 table buf ≡ ok key
      → row_value table buf ≡ ok value
      → find (full_table_name table) txn.table_cache ≡ some m
      → write_row sha256 table buf (some txn) ≡ (
          if contains key m
          then ok (wrong_command, some txn)
          else ok (
            success,
            some (
                recorded txn
                  (write_of (full_table_name table) key (record { value = value }))
                  (assign key (record { value = value }) m)),
          ))
  unfolding write_row
  write_row-branches table buf txn {key} {value} k v here = rw (
    k,
    v,
    here,
    add_write_lem (full_table_name table) key (record { value = value }) txn refl
        (key_long table buf k),
  )

  -- `delete_row` on a row whose key can be read, in a transaction that has a copy of the table,
  -- answers success, with one removal added to the statements and the key gone from the copy,
  -- whether the copy had it or not.
  pub delete_row_lem :
      (table : Table) (buf : Buffer) (txn : Transaction) {key : Bytes} {m : TableMap}
      → get_primary_key sha256 table buf ≡ ok key
      → find (full_table_name table) txn.table_cache ≡ some m
      → delete_row sha256 table buf (some txn)
        ≡ ok (success, some (recorded txn (remove_of (full_table_name table) key) (erase key m)))
  unfolding delete_row
  delete_row_lem table buf txn {key} k here =
      rw (k, add_remove_lem (full_table_name table) key txn refl (key_long table buf k), here)

  pub overwrite_row_lem :
      (table : Table) (restored : Buffer) (key value : Bytes) (txn : Transaction) {m : TableMap}
      → size key ≢ 0
      → find (full_table_name table) txn.table_cache ≡ some m
      → overwrite_row sha256 table restored key value (some txn)
        ≡ ok (
          success,
          restored,
          some (recorded txn (write_of (full_table_name table) key value) (assign key value m)),
        )
  unfolding overwrite_row
  overwrite_row_lem table restored key value txn long here =
      rw (add_write_lem (full_table_name table) key value txn refl long, here)
