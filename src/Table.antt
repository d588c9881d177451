-- ===== src/Table.antt =====
-- What the engine reads of the server's `TABLE`, `TABLE_SHARE`, `KEY` and `Field`, and the copies
-- between buffers of bytes. A read or a write past the end of a buffer is undefined.
use blockchain_db.Prelude.{
  ℕ, ◌+◌, ◌≤◌, ◌≡◌, Bool, Option, List, ◌++◌, length, take, drop, ltb, if◌then◌else◌, Result, ok,
  fault, undefined, arith, length-append, length-take, length-drop,
}
use blockchain_db.Text.{Text, codes}

-- Two fields are one object if they have one `field_index`. `offset` counts from the start of the record, `pack_length` is the bytes of the field in it.
pub record Field : Type 0 where
  pub field_index : ℕ
  pub offset : ℕ
  pub pack_length : ℕ
  pub is_varchar : Bool

pub record Key : Type 0 where
  pub key_parts : List Field
  pub key_length : ℕ

-- `key_info` is null for a table with no key. `reclength` is the length of a record, of which the
-- first `null_bytes` say what is NULL.
pub record Table : Type 0 where
  pub db : Text
  pub table_name : Text
  pub null_bytes : ℕ
  pub reclength : ℕ
  pub field : List Field
  pub key_info : Option (List Key)
  pub primary_key : ℕ

-- "./" << db << "/" << table_name
abbrev pub full_table_name : Table → Text
full_table_name table = codes "./" ++ (table.db ++ (codes "/" ++ table.table_name))

abbrev pub Buffer : Type 0
Buffer = List ℕ

unfoldable pub read : Buffer → ℕ → ℕ → Result Buffer
read buf pos len =
    if ltb (length buf) (pos + len) then fault undefined else ok (take len (drop pos buf))

-- `memcpy(dst + pos, bytes, bytes.size())`.
unfoldable pub memcpy : Buffer → ℕ → Buffer → Result Buffer
memcpy dst pos bytes =
    if ltb (length dst) (pos + length bytes)
    then fault undefined
    else ok (take pos dst ++ (bytes ++ drop (pos + length bytes) dst))

pub length-read :
    (buf : Buffer) (pos len : ℕ) {out : Buffer} → read buf pos len ≡ ok out → length out ≡ len
unfolding read
length-read buf pos len h = ground (arith, length-take len (drop pos buf), length-drop pos buf)

pub length-memcpy :
    (dst : Buffer) (pos : ℕ) (bytes : Buffer) {out : Buffer}
    → memcpy dst pos bytes ≡ ok out
    → length out ≡ length dst
unfolding memcpy
length-memcpy dst pos bytes h = ground (
  arith,
  length-append (take pos dst) (bytes ++ drop (pos + length bytes) dst),
  length-append bytes (drop (pos + length bytes) dst),
  length-take pos dst,
  length-drop (pos + length bytes) dst,
)

pub read_within :
    (buf : Buffer) (pos len : ℕ)
    → pos + len ≤ length buf
    → read buf pos len ≡ ok (take len (drop pos buf))
unfolding read
read_within buf pos len h = ground arith

pub memcpy_within :
    (dst : Buffer) (pos : ℕ) (bytes : Buffer)
    → pos + length bytes ≤ length dst
    → memcpy dst pos bytes ≡ ok (take pos dst ++ (bytes ++ drop (pos + length bytes) dst))
unfolding memcpy
memcpy_within dst pos bytes h = ground arith
