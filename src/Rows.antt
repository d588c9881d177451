-- ===== src/Rows.antt =====
-- engine/src/ha_blockchain.cc: `get_primary_key`, `write_row`, `update_row` and `delete_row`.
-- SHA-256 is OpenSSL's: a parameter. A row operation works on the transaction of the connection and
-- on its copy of the table; the chain is not touched before the commit.
pub mod Buffers
pub mod Coherent
pub mod Branches
pub mod Updates
pub mod Invariant
use blockchain_db.Prelude.{
  ℕ, ◌+◌, ◌-◌, ◌*◌, ◌%◌, ◌≤◌, Bool, true, false, not, Option, none, some, List, [], ◌∷◌, ◌++◌,
  length, replicate, get_elem?, ltb, if◌then◌else◌, Result, ok, fault, out_of_range, undefined,
  ◌>>=◌,
}
use blockchain_db.Bytes.{Bytes, bytes_eq}
use blockchain_db.Bytes.Order.{bytes_ord}
use blockchain_db.Text.{Text}
use blockchain_db.Text.Order.{text_ord}
use blockchain_db.Map.{Map, find, contains, assign, erase}
use blockchain_db.Transaction.{Transaction, TableMap, add_write, add_remove}
use blockchain_db.Table.{Field, Key, Table, full_table_name, Buffer, read, memcpy}

-- The codes 0, 1, HA_ERR_WRONG_COMMAND and HA_ERR_END_OF_FILE.
pub data Status : Type 0 where
  success failed wrong_command end_of_file : Status

-- The loop over the key parts; `initial_pos` and `key_pos` are uint16.
pub copy_key_parts : List Field → Buffer → Buffer → ℕ → Result (Buffer × ℕ)
copy_key_parts [] buf key_adj initial_pos = ok (key_adj, initial_pos)
copy_key_parts (f ∷ parts) buf key_adj initial_pos = do
  bytes ← read buf (f.offset % 65536) f.pack_length
  key_adj' ← memcpy key_adj initial_pos bytes
  copy_key_parts parts buf key_adj' ((initial_pos + f.pack_length) % 65536)

-- The array access `key_info[primary_key]`, and `*(table->field)`.
abbrev pub defined {ℓ} : {A : Type ℓ} → Option A → Result A
defined none = fault undefined
defined (some a) = ok a

-- `table_cache.at(name)`.
abbrev pub at {ℓ} : {A : Type ℓ} → Option A → Result A
at none = fault out_of_range
at (some a) = ok a

-- The bytes of a row behind the null bytes: `BYTES(buf + null_bytes, reclength - null_bytes)`.
unfoldable pub row_value : Table → Buffer → Result Buffer
row_value table buf =
    if ltb table.reclength table.null_bytes
    then fault undefined
    else read buf table.null_bytes (table.reclength - table.null_bytes)

module _ (sha256 : Buffer → Bytes) where
  -- The bytes that are hashed to the key. Without keys they are those of the first field, behind the null
  -- bytes; the offsets of fields are constants here, and so right for buffers that fields point into.
  key_data : Table → Buffer → Option (List Key) → Result Buffer
  key_data table buf none = do
    key_field ← defined (get_elem? table.field 0)
    read buf table.null_bytes key_field.pack_length
  key_data table buf (some keys) = do
    key ← defined (get_elem? keys table.primary_key)
    (key_adj, key_size) ← copy_key_parts key.key_parts buf (replicate (8 * key.key_length) 0) 0
    read key_adj 0 key_size

  unfoldable pub get_primary_key : Table → Buffer → Result Bytes
  unfolding key_data copy_key_parts
  get_primary_key table buf = do key_adj ← key_data table buf table.key_info; ok (sha256 key_adj)

  unfoldable pub write_row :
      Table → Buffer → Option Transaction → Result (Status × Option Transaction)
  unfolding row_value
  write_row table buf ha_ptr = do
    key ← get_primary_key table buf
    value ← row_value table buf
    txn ← defined ha_ptr
    cache ← at (find (full_table_name table) txn.table_cache)
    if contains key cache then ok (wrong_command, some txn) else (do
      let value_bytes : Bytes = record { value = value }
      let (code, written) = add_write (full_table_name table) key value_bytes txn
      ok (
        success,
        some (record written {
          table_cache =
              assign (full_table_name table) (assign key value_bytes cache) written.table_cache;
        }),
      ))

  unfoldable pub delete_row :
      Table → Buffer → Option Transaction → Result (Status × Option Transaction)
  delete_row table buf ha_ptr = do
    key ← get_primary_key table buf
    txn ← defined ha_ptr
    let (code, removed) = add_remove (full_table_name table) key txn
    cache ← at (find (full_table_name table) removed.table_cache)
    ok (
      success,
      some (record removed {
        table_cache = assign (full_table_name table) (erase key cache) removed.table_cache;
      }),
    )

  -- A row whose key changes. The codes of `delete_row` and `write_row` are not read.
  pub move_row :
      Table → Buffer → Buffer → Option Transaction → Result (Status × Buffer × Option Transaction)
  move_row table restored new_value ha_ptr = do
    (_, deleted) ← delete_row table restored ha_ptr
    again ← memcpy restored table.null_bytes new_value
    (_, written) ← write_row table again deleted
    ok (success, again, written)

  -- A row whose key stays: the write is added though the key is there.
  pub overwrite_row :
      Table
      → Buffer
      → Bytes
      → Bytes
      → Option Transaction
      → Result (Status × Buffer × Option Transaction)
  overwrite_row table restored key value ha_ptr = do
    txn ← defined ha_ptr
    let (code, written) = add_write (full_table_name table) key value txn
    cache ← at (find (full_table_name table) written.table_cache)
    ok (
      success,
      restored,
      some (record written {
        table_cache = assign (full_table_name table) (assign key value cache) written.table_cache;
      }),
    )

  -- The second part of the answer is what `new_data` holds afterwards.
  unfoldable pub update_row :
      Table → Buffer → Buffer → Option Transaction → Result (Status × Buffer × Option Transaction)
  update_row table old_data new_data ha_ptr = do
    key_new ← get_primary_key table new_data
    new_value ← row_value table new_data
    value ← row_value table old_data
    restored ← memcpy new_data table.null_bytes value
    key_old ← get_primary_key table restored
    if not (bytes_eq key_old key_new)
        then move_row table restored new_value ha_ptr
        else overwrite_row table restored key_new (record { value = new_value }) ha_ptr
