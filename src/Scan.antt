-- ===== src/Scan.antt =====
-- engine/src/ha_blockchain.cc: the table scan (`rnd_init`, `rnd_next`, `rnd_pos`, `position`,
-- `rnd_end`, `find_row`). A scan reads the transaction's copy of the table, not the blockchain.
pub mod Whole
use blockchain_db.Prelude.{
  ℕ, ◌+◌, ◌-◌, ◌%◌, ◌^◌, Option, none, some, List, [], ◌++◌, replicate, get_elem?, Result, ok,
  ◌>>=◌,
}
use blockchain_db.Bytes.{Bytes}
use blockchain_db.Text.{Text}
use blockchain_db.Text.Order.{text_ord}
use blockchain_db.Map.{find}
use blockchain_db.Transaction.{Transaction}
use blockchain_db.Table.{Table, full_table_name, Buffer, memcpy}
use blockchain_db.Rows.{Status, success, end_of_file, defined, at}

-- The handler's `current_position`, a `my_off_t` of 64 bits, and `all_items`.
pub record Cursor : Type 0 where
  pub current_position : ℕ
  pub all_items : List (Bytes × Bytes)

-- -1 as a `my_off_t`.
abbrev pub before_first : ℕ
before_first = 2 ^ 64 - 1

pub rnd_init : Table → Option Transaction → Cursor → Result (Status × Cursor)
rnd_init table ha_ptr cursor = do
  txn ← defined ha_ptr
  table_cache ← at (find (full_table_name table) txn.table_cache)
  ok (
    success,
    record { current_position = before_first; all_items = cursor.all_items ++ table_cache },
  )

abbrev pub rnd_end : Cursor → Status × Cursor
rnd_end cursor = (success, record cursor { all_items = [] })

-- `memset(buf, 0, len)`.
pub clear : Buffer → ℕ → Result Buffer
clear buf len = memcpy buf 0 (replicate len 0)

-- The bytes of the value go behind the null bytes, and the rest of the record is zero.
pub fill : Table → Buffer → Option (Bytes × Bytes) → Result (Status × Buffer)
fill table buf none = ok (end_of_file, buf)
fill table buf (some (key, value)) = do
  buf' ← memcpy buf table.null_bytes value.value
  ok (success, buf')

unfoldable pub find_row : Table → Cursor → ℕ → Buffer → Result (Status × Buffer)
unfolding clear fill
find_row table cursor index buf = do
  cleared ← clear buf table.reclength
  fill table cleared (get_elem? cursor.all_items index)

abbrev find_current_row : Table → Cursor → Buffer → Result (Status × Buffer)
find_current_row table cursor buf = find_row table cursor cursor.current_position buf

unfoldable pub rnd_next : Table → Cursor → Buffer → Result (Status × Buffer × Cursor)
rnd_next table cursor buf = do
  let next : Cursor = record cursor { current_position = (cursor.current_position + 1) % 2 ^ 64 }
  (status, buf') ← find_current_row table next buf
  ok (status, buf', next)

-- The server's `my_store_ptr` and `my_get_ptr` at the handler's `ref_length`.
module _ (my_store_ptr : ℕ → Buffer) (my_get_ptr : Buffer → ℕ) where
  abbrev pub position : Cursor → Buffer
  position cursor = my_store_ptr cursor.current_position

  abbrev pub rnd_pos : Table → Cursor → Buffer → Buffer → Result (Status × Buffer)
  rnd_pos table cursor buf pos = find_row table cursor (my_get_ptr pos) buf
