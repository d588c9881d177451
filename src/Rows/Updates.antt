-- ===== src/Rows/Updates.antt =====
-- What `update_row` does when the key stays, when it changes, and when the new one is taken.
use blockchain_db.Prelude.{
  ◌≡◌, ◌≢◌, refl, ap, ◌∙◌, false, none, some, if◌then◌else◌, ok, Bool-cases, inl, inr,
}
use blockchain_db.Prelude.Order.{same_refl}
use blockchain_db.Bytes.{Bytes, size, bytes_eq}
use blockchain_db.Bytes.Order.{bytes_ord, bytes_eq_iff}
use blockchain_db.Text.Order.{text_ord}
use blockchain_db.Map.{find, assign, erase, contains}
use blockchain_db.Map.Lookup.{find-erase}
use blockchain_db.Transaction.{Transaction, TableMap}
use blockchain_db.Table.{Table, full_table_name, Buffer, memcpy}
use blockchain_db.Rows.{success, get_primary_key, move_row, update_row}
use blockchain_db.Rows.Buffers.{
  IsRow, payload, with_payload, row_value_lem, memcpy-payload, length-payload, with_payload-IsRow,
  with_payload_again,
}
use blockchain_db.Rows.Coherent.{recorded, write_of, remove_of}
use blockchain_db.Rows.Branches.{
  key_long, find-recorded, not_same, write_row-branches, delete_row_lem, overwrite_row_lem,
}

module _ (sha256 : Buffer → Bytes) (digest : (d : Buffer) → size (sha256 d) ≢ 0) where
  -- What `update_row` is given: two rows, the new one with a key, and the old payload behind the new
  -- null bytes with a key too.
  pub record IsUpdate (table : Table) (old_data new_data : Buffer) : Type 0 where
    pub key_new : Bytes
    pub key_old : Bytes
    pub old_row : IsRow table old_data
    pub new_row : IsRow table new_data
    pub has_key_new : get_primary_key sha256 table new_data ≡ ok key_new
    pub has_key_old :
        get_primary_key sha256 table (with_payload table new_data (payload table old_data))
        ≡ ok key_old

  module _ (table : Table) (old_data new_data : Buffer) (u : IsUpdate table old_data new_data) where
    restored : Buffer
    restored = with_payload table new_data (payload table old_data)

    restores : memcpy new_data table.null_bytes (payload table old_data) ≡ ok restored
    unfolding restored
    restores =
        memcpy-payload table new_data (payload table old_data) u.new_row
          (length-payload table old_data u.old_row)

    goes_again : memcpy restored table.null_bytes (payload table new_data) ≡ ok new_data
    unfolding restored
    goes_again =
        memcpy-payload table restored (payload table new_data)
          (with_payload-IsRow table new_data (payload table old_data) u.new_row
            (length-payload table old_data u.old_row))
          (length-payload table new_data u.new_row)
        ∙ ap ok (with_payload_again table new_data (payload table old_data) u.new_row)

    has_key_restored : get_primary_key sha256 table restored ≡ ok u.key_old
    unfolding restored
    has_key_restored = u.has_key_old

  different : (a b : Bytes) → a ≢ b → bytes_eq a b ≡ false
  different a b h = elim (Bool-cases (bytes_eq a b)) [
    | inl e ↦ absurd (h ((bytes_eq_iff a b).0 e))
    | inr e ↦ e
  ]

  -- `update_row` of a row to one with the same key, in a transaction that has a copy of the table,
  -- answers success, adds one write of the new payload and puts it into the copy. The buffer of the
  -- new row is left with the payload of the old one.
  pub update_row-same_key :
      (table : Table) (old_data new_data : Buffer) (txn : Transaction) {m : TableMap}
      (u : IsUpdate table old_data new_data)
      → find (full_table_name table) txn.table_cache ≡ some m
      → u.key_old ≡ u.key_new
      → update_row sha256 table old_data new_data (some txn)
        ≡ ok (
          success,
          with_payload table new_data (payload table old_data),
          some (
              recorded txn
                (write_of
                  (full_table_name table)
                  u.key_new
                  (record { value = payload table new_data }))
                (assign u.key_new (record { value = payload table new_data }) m)),
        )
  unfolding update_row restored
  update_row-same_key table old_data new_data txn u here keys = rw (
    u.has_key_new,
    row_value_lem table new_data u.new_row,
    row_value_lem table old_data u.old_row,
    restores table old_data new_data u,
    u.has_key_old,
    (bytes_eq_iff u.key_old u.key_new).1 keys,
    overwrite_row_lem sha256 digest table (restored table old_data new_data u) u.key_new
        (record { value = payload table new_data }) txn
        (key_long sha256 digest table new_data u.has_key_new) here,
  )

  -- `update_row` of a row to one with another key, in a transaction that has a copy of the table,
  -- answers success, removes the old key, and then adds the write of the new row unless the copy
  -- has the new key already. The buffer of the new row is as it was.
  pub update_row-new_key :
      (table : Table) (old_data new_data : Buffer) (txn : Transaction) {m : TableMap}
      (u : IsUpdate table old_data new_data)
      → find (full_table_name table) txn.table_cache ≡ some m
      → u.key_old ≢ u.key_new
      → update_row sha256 table old_data new_data (some txn) ≡ (
          let deleted =
            recorded txn (remove_of (full_table_name table) u.key_old) (erase u.key_old m) in
          ok (
            success,
            new_data,
            if contains u.key_new (erase u.key_old m)
                then some deleted
                else some (
                    recorded deleted
                      (write_of
                        (full_table_name table)
                        u.key_new
                        (record { value = payload table new_data }))
                      (assign u.key_new
                        (record { value = payload table new_data })
                        (erase u.key_old m))),
          ))
  unfolding update_row move_row
  update_row-new_key table old_data new_data txn {m} u here keys =
      rw
        (
          u.has_key_new,
          row_value_lem table new_data u.new_row,
          row_value_lem table old_data u.old_row,
          restores table old_data new_data u,
          has_key_restored table old_data new_data u,
          different u.key_old u.key_new keys,
          delete_row_lem sha256 digest table (restored table old_data new_data u) txn
              (has_key_restored table old_data new_data u) here,
          goes_again table old_data new_data u,
        )
        (rw
          (write_row-branches sha256 digest table new_data
            (recorded txn (remove_of (full_table_name table) u.key_old) (erase u.key_old m))
            u.has_key_new (row_value_lem table new_data u.new_row)
            (find-recorded sha256 digest txn (remove_of (full_table_name table) u.key_old)
              (erase u.key_old m)))
          (elim (Bool-cases (contains u.key_new (erase u.key_old m))) [
            | inl e ↦ rw e refl
            | inr e ↦ rw e refl
          ]))

  -- `update_row` of a row to one whose key another row of the copy has answers success, and then the
  -- copy has no row under the old key and the other row, unchanged, under the new one.
  pub update_row_taken :
      (table : Table) (old_data new_data : Buffer) (txn : Transaction) {m : TableMap}
      {other : Bytes} (u : IsUpdate table old_data new_data)
      → find (full_table_name table) txn.table_cache ≡ some m
      → u.key_old ≢ u.key_new
      → find u.key_new m ≡ some other
      → (txn' : Transaction) × (m' : TableMap) × (update_row sha256 table old_data new_data
            (some txn)
          ≡ ok (success, new_data, some txn'))
        × (find (full_table_name table) txn'.table_cache ≡ some m')
        × (find u.key_old m' ≡ none)
        × (find u.key_new m' ≡ some other)
  update_row_taken table old_data new_data txn {m} {other} u here keys taken =
      let kept : find u.key_new (erase u.key_old m) ≡ some other =
        rw (find-erase, not_same sha256 digest u.key_old u.key_new keys) taken in
      (
        recorded txn (remove_of (full_table_name table) u.key_old) (erase u.key_old m),
        erase u.key_old m,
        rw (update_row-new_key table old_data new_data txn u here keys, kept) refl,
        find-recorded sha256 digest txn (remove_of (full_table_name table) u.key_old)
            (erase u.key_old m),
        rw (find-erase, same_refl u.key_old) refl,
        kept,
      )
