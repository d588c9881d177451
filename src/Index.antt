-- ===== src/Index.antt =====
-- engine/src/ha_blockchain.cc: `index_read`, the lookup of a row by its key, and the other index
-- operations, which the engine refuses. SHA-256 is a parameter.
pub mod Lookup
use blockchain_db.Prelude.{
  ℕ, ◌+◌, ◌-◌, ◌*◌, ◌%◌, Bool, true, not, Option, none, some, List, [], ◌∷◌, replicate, get_elem?,
  ltb, ◌==◌, ◌&&◌, if◌then◌else◌, Result, ok, fault, undefined, ◌>>=◌,
}
use blockchain_db.Bytes.{Bytes}
use blockchain_db.Bytes.Order.{bytes_ord}
use blockchain_db.Text.Order.{text_ord}
use blockchain_db.Map.{find}
use blockchain_db.Transaction.{Transaction}
use blockchain_db.Table.{Field, Key, Table, full_table_name, Buffer, read, memcpy}
use blockchain_db.Rows.{Status, success, wrong_command, defined, at}
use blockchain_db.Scan.{clear}

-- A VARCHAR part with one byte of length loses the second of the two that the server's key has. The
-- bytes behind it move to the front by one, which is taken to go from the front to the back: the
-- ranges of that `memcpy` overlap.
pub shift_part : Field → Buffer → ℕ → ℕ → Result Buffer
shift_part f key_adj initial_pos key_length =
    if f.is_varchar && ((f.pack_length % 4) == 1)
    then if ltb key_length (initial_pos + 2) then fault undefined else (do
      behind ← read key_adj (initial_pos + 2) (key_length - (initial_pos + 2))
      memcpy key_adj (initial_pos + 1) behind)
    else ok key_adj

-- The loop over the key parts; `initial_pos` is a uint16.
pub shift_parts : List Field → Buffer → ℕ → ℕ → Result (Buffer × ℕ)
unfolding shift_part
shift_parts [] key_adj initial_pos key_length = ok (key_adj, initial_pos)
shift_parts (f ∷ parts) key_adj initial_pos key_length = do
  key_adj' ← shift_part f key_adj initial_pos key_length
  shift_parts parts key_adj' ((initial_pos + f.pack_length) % 65536) key_length

-- The field of the first part of a key.
abbrev pub first_field : Key → Result Field
first_field key = defined (get_elem? key.key_parts 0)

abbrev pub same_field : Field → Field → Bool
same_field f g = f.field_index == g.field_index

-- Whether the index is on the first field of the primary key or of the table.
unfoldable pub is_usable : Table → Key → Key → Result Bool
is_usable table key_used primary = do
  used ← first_field key_used
  primary_field ← first_field primary
  if same_field used primary_field
      then ok true
      else (do table_field ← defined (get_elem? table.field 0); ok (same_field used table_field))

pub copy_found : Table → Buffer → Option Bytes → Result Buffer
copy_found table buf none = ok buf
copy_found table buf (some value) = memcpy buf table.null_bytes value.value

module _ (sha256 : Buffer → Bytes) where
  -- The lookup in the copy of the table, once the key is adjusted.
  pub read_found : Table → Buffer → Buffer → Option Transaction → Result (Status × Buffer)
  unfolding copy_found
  read_found table key_data buf ha_ptr = do
    cleared ← clear buf table.reclength
    txn ← defined ha_ptr
    table_cache ← at (find (full_table_name table) txn.table_cache)
    found ← copy_found table cleared (find (sha256 key_data) table_cache)
    ok (success, found)

  -- `is_exact` says whether `key_func` is HA_READ_KEY_EXACT.
  pub index_read :
      Table → Buffer → Buffer → Bool → ℕ → Option Transaction → Result (Status × Buffer)
  unfolding read_found shift_parts is_usable
  index_read table buf key is_exact active_index ha_ptr = do
    keys ← defined table.key_info
    primary ← defined (get_elem? keys table.primary_key)
    bytes ← read key 0 primary.key_length
    key_adj ← memcpy (replicate (8 * primary.key_length) 0) 0 bytes
    (adjusted, key_size) ← shift_parts primary.key_parts key_adj 0 primary.key_length
    if not is_exact then ok (wrong_command, buf) else (do
      key_used ← defined (get_elem? keys active_index)
      usable ← is_usable table key_used primary
      if not usable
          then ok (wrong_command, buf)
          else (do key_data ← read adjusted 0 key_size; read_found table key_data buf ha_ptr))

  abbrev pub index_read_map :
      Table → Buffer → Buffer → Bool → ℕ → Option Transaction → Result (Status × Buffer)
  index_read_map = index_read

abbrev pub index_next : Status
index_next = wrong_command

abbrev pub index_prev : Status
index_prev = wrong_command

abbrev pub index_first : Status
index_first = wrong_command

abbrev pub index_last : Status
index_last = wrong_command
