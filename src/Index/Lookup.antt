-- ===== src/Index/Lookup.antt =====
-- `index_read` by a key of parts of fixed length finds what the copy of the table has.
use blockchain_db.Prelude.{
  ℕ, ◌+◌, ◌*◌, ◌%◌, ◌≤◌, ◌<◌, ◌≡◌, ◌≢◌, refl, ◌∙◌, ap, true, false, Option, none, some, List, [],
  ◌∷◌, ◌++◌, length, drop, get_elem?, All, arith, Bool-cases, inl, inr, ok, take_of_length-le,
  take-append_left, length-append,
}
use mathlib.Core.Option.{some-injective}
use blockchain_db.Prelude.Order.{same, same_refl}
use blockchain_db.Bytes.{Bytes, size}
use blockchain_db.Bytes.Order.{bytes_ord}
use blockchain_db.Text.Order.{text_ord}
use blockchain_db.Map.{find, assign, contains}
use blockchain_db.Transaction.{Transaction, TableMap}
use blockchain_db.Table.{
  Field, Key, Table, full_table_name, Buffer, read, memcpy, read_within, memcpy_within,
}
use blockchain_db.Rows.{success}
use blockchain_db.Rows.{get_primary_key, write_row}
use blockchain_db.Rows.Buffers.{IsRow, payload, row_value_lem, length-payload}
use blockchain_db.Rows.Coherent.{recorded, write_of}
use blockchain_db.Rows.Branches.{write_row-branches}
use blockchain_db.Map.Lookup.{find-assign}
use blockchain_db.Scan.Whole.{zeros, length-zeros, image, Fits, clear_lem}
use blockchain_db.Index.{shift_part, shift_parts, is_usable, copy_found, read_found, index_read}

abbrev pub IsFixed : Field → Type 0
IsFixed f = f.is_varchar ≡ false

abbrev pub parts_length : List Field → ℕ
parts_length [] = 0
parts_length (f ∷ parts) = f.pack_length + parts_length parts

shift_parts-IsFixed :
    (parts : List Field) (key_adj : Buffer) (p key_length : ℕ)
    → All IsFixed parts
    → p + parts_length parts < 65536
    → shift_parts parts key_adj p key_length ≡ ok (key_adj, p + parts_length parts)
unfolding shift_parts shift_part
shift_parts-IsFixed [] key_adj p key_length fixed small = ap (λ n. ok (key_adj, n)) (omega arith)
shift_parts-IsFixed (f ∷ parts) key_adj p key_length (here, fixed) small =
    let stays : (p + f.pack_length) % 65536 ≡ p + f.pack_length = omega arith in
    rw (here, stays)
      (shift_parts-IsFixed parts key_adj (p + f.pack_length) key_length fixed (omega arith)
        ∙ ap (λ n. ok (key_adj, n)) (omega arith))

-- The record that a lookup gives: the row's, or zeros for a key that is not there.
abbrev pub looked_up : Table → Option Bytes → Buffer
looked_up table none = zeros table.reclength
looked_up table (some value) = image table value

find-Fits :
    (table : Table) (k : Bytes) (m : TableMap) {v : Bytes}
    → All (Fits table) m
    → find k m ≡ some v
    → table.null_bytes + size v ≤ table.reclength
unfolding find
find-Fits table k [] fits found = cc
find-Fits table k ((j, w) ∷ m) {v} (fit, fits) found = elim (Bool-cases (same j k)) [
  | inl e ↦ rw (some-injective w v (rw e at found)) at fit
  | inr e ↦ find-Fits table k m fits (rw e at found)
]

copy_found_fits :
    (table : Table) (v : Bytes)
    → table.null_bytes + size v ≤ table.reclength
    → copy_found table (zeros table.reclength) (some v) ≡ ok (image table v)
unfolding copy_found
copy_found_fits table v fits =
    memcpy_within (zeros table.reclength) table.null_bytes v.value
      (omega (arith, length-zeros table.reclength))

copy_found_lem :
    (table : Table) (k : Bytes) (m : TableMap) (found : Option Bytes)
    → All (Fits table) m
    → find k m ≡ found
    → copy_found table (zeros table.reclength) found ≡ ok (looked_up table found)
unfolding copy_found
copy_found_lem table k m none fits here = refl
copy_found_lem table k m (some v) fits here =
    copy_found_fits table v (find-Fits table k m fits here)

-- A lookup by the primary key of a table, whose parts are no VARCHAR, through a usable index.
pub record IsLookup (table : Table) (key : Buffer) (active_index : ℕ) : Type 0 where
  pub keys : List Key
  pub primary : Key
  pub key_used : Key
  pub has_keys : table.key_info ≡ some keys
  pub has_primary : get_elem? keys table.primary_key ≡ some primary
  pub has_used : get_elem? keys active_index ≡ some key_used
  pub usable : is_usable table key_used primary ≡ ok true
  pub fixed : All IsFixed primary.key_parts
  pub adds_up : parts_length primary.key_parts ≡ primary.key_length
  pub short : primary.key_length < 65536
  pub full : length key ≡ primary.key_length

reads_key : (key : Buffer) (n : ℕ) → length key ≡ n → read key 0 n ≡ ok key
reads_key key n full =
    read_within key 0 n (omega arith) ∙ ap ok (take_of_length-le n key (omega arith))

copies_key :
    (key : Buffer) (n : ℕ)
    → length key ≡ n
    → memcpy (zeros (8 * n)) 0 key ≡ ok (key ++ drop (0 + length key) (zeros (8 * n)))
copies_key key n full = memcpy_within (zeros (8 * n)) 0 key (omega (arith, length-zeros (8 * n)))

reads_adjusted :
    (key rest : Buffer) (n : ℕ) → length key ≡ n → read (key ++ rest) 0 (0 + n) ≡ ok key
reads_adjusted key rest n full =
    read_within (key ++ rest) 0 (0 + n) (omega (arith, length-append key rest))
    ∙ ap ok (take-append_left (0 + n) key rest (omega arith))

module _ (sha256 : Buffer → Bytes) where
  read_found_lem :
      (table : Table) (key buf found : Buffer) (txn : Transaction) (m : TableMap)
      → length buf ≡ table.reclength
      → find (full_table_name table) txn.table_cache ≡ some m
      → copy_found table (zeros table.reclength) (find (sha256 key) m) ≡ ok found
      → read_found sha256 table key buf (some txn) ≡ ok (success, found)
  unfolding read_found
  read_found_lem table key buf found txn m full here copied =
      rw (clear_lem table buf full, here, copied) refl

  index_read_lem :
      (table : Table) (key buf found : Buffer) (active_index : ℕ) (txn : Transaction) (m : TableMap)
      → IsLookup table key active_index
      → length buf ≡ table.reclength
      → find (full_table_name table) txn.table_cache ≡ some m
      → copy_found table (zeros table.reclength) (find (sha256 key) m) ≡ ok found
      → index_read sha256 table buf key true active_index (some txn) ≡ ok (success, found)
  unfolding index_read
  index_read_lem table key buf found active_index txn m lookup full here copied =
      let n = lookup.primary.key_length in
      let behind = drop (0 + length key) (zeros (8 * n)) in
      let shifted =
        shift_parts-IsFixed lookup.primary.key_parts (key ++ behind) 0 n lookup.fixed
          (omega (arith, lookup.adds_up, lookup.short)) in
      rw
        (
          lookup.has_keys,
          lookup.has_primary,
          reads_key key n lookup.full,
          copies_key key n lookup.full,
          shifted,
        )
        (rw
          (lookup.has_used, lookup.usable, lookup.adds_up, reads_adjusted key behind n lookup.full)
          (read_found_lem table key buf found txn m full here copied))

  -- For a table whose key has no VARCHAR part, and through a usable index: a lookup of an exact key, the
  -- values of the copy fitting the record, answers success with the record of the row that the copy has
  -- under the digest of the key, or with a record of zeros where it has none.
  pub index_read-looked_up :
      (table : Table) (key buf : Buffer) (active_index : ℕ) (txn : Transaction) (m : TableMap)
      → IsLookup table key active_index
      → length buf ≡ table.reclength
      → find (full_table_name table) txn.table_cache ≡ some m
      → All (Fits table) m
      → index_read sha256 table buf key true active_index (some txn)
        ≡ ok (success, looked_up table (find (sha256 key) m))
  index_read-looked_up table key buf active_index txn m lookup full here fits =
      index_read_lem table key buf (looked_up table (find (sha256 key) m)) active_index txn m lookup
        full here (copy_found_lem table (sha256 key) m (find (sha256 key) m) fits refl)

  module _ (digest : (d : Buffer) → size (sha256 d) ≢ 0) where
    -- For a table whose key has no VARCHAR part, and through a usable index: a row that `write_row` has
    -- added, its key not in the copy before, is found by a lookup of the exact key: `write_row` answers success, and then `index_read` answers success with a record
    -- that has the bytes of the row behind its null bytes, which are zero.
    pub index_read-write_row :
        (table : Table) (key row buf : Buffer) (active_index : ℕ) (txn : Transaction) (m : TableMap)
        → IsLookup table key active_index
        → IsRow table row
        → get_primary_key sha256 table row ≡ ok (sha256 key)
        → length buf ≡ table.reclength
        → find (full_table_name table) txn.table_cache ≡ some m
        → contains (sha256 key) m ≡ false
        → (txn' : Transaction) × (write_row sha256 table row (some txn) ≡ ok (success, some txn'))
          × (index_read sha256 table buf key true active_index (some txn')
              ≡ ok (success, image table (record { value = payload table row })))
    index_read-write_row table key row buf active_index txn m lookup is_row has_key full here
          absent =
        let value : Bytes = record { value = payload table row } in
        let copy = assign (sha256 key) value m in
        let txn' = recorded txn (write_of (full_table_name table) (sha256 key) value) copy in
        let found : find (sha256 key) copy ≡ some value =
          rw (find-assign, same_refl (sha256 key)) refl in
        (
          txn',
          write_row-branches sha256 digest table row txn has_key (row_value_lem table row is_row)
                here
              ∙ rw absent refl,
          index_read_lem table key buf (image table value) active_index txn' copy lookup full
              (rw (find-assign, same_refl (full_table_name table)) refl)
              (rw found (
                copy_found_fits table value
                  (omega (arith, length-payload table row is_row, is_row.nulls)))),
        )
