-- ===== src/Rows/Buffers.antt =====
-- The copies that `write_row` and `update_row` make between buffers of a row's length.
use blockchain_db.Prelude.{
  ◌+◌, ◌-◌, ◌≤◌, ◌≡◌, refl, ◌∙◌, ◌++◌, length, take, drop, arith, ok, length-append, length-take,
  length-drop, take_of_length-le, drop_of_length-le, take-append-drop, append-nil, take-append_left,
}
use blockchain_db.Table.{Table, Buffer, memcpy, memcpy_within, read_within}
use blockchain_db.Rows.{row_value}

-- A buffer that holds a record of the table.
pub record IsRow (table : Table) (buf : Buffer) : Type 0 where
  pub full : length buf ≡ table.reclength
  pub nulls : table.null_bytes ≤ table.reclength

-- A row without its null bytes.
abbrev pub payload : Table → Buffer → Buffer
payload table buf = drop table.null_bytes buf

-- The null bytes of one row before the payload of another.
abbrev pub with_payload : Table → Buffer → Buffer → Buffer
with_payload table buf bytes = take table.null_bytes buf ++ bytes

module _ (table : Table) where
  pub row_value_lem :
      (buf : Buffer) → IsRow table buf → row_value table buf ≡ ok (payload table buf)
  unfolding row_value
  row_value_lem buf row = ground (
    arith,
    read_within buf table.null_bytes (table.reclength - table.null_bytes),
    length-drop table.null_bytes buf,
    take_of_length-le (table.reclength - table.null_bytes) (drop table.null_bytes buf),
  )

  pub memcpy-payload :
      (dst : Buffer) (bytes : Buffer)
      → IsRow table dst
      → length bytes ≡ table.reclength - table.null_bytes
      → memcpy dst table.null_bytes bytes ≡ ok (with_payload table dst bytes)
  memcpy-payload dst bytes row len =
      memcpy_within dst table.null_bytes bytes (omega arith)
      ∙ rw (drop_of_length-le (table.null_bytes + length bytes) dst (omega arith), append-nil) refl

  pub length-payload :
      (buf : Buffer)
      → IsRow table buf
      → length (payload table buf) ≡ table.reclength - table.null_bytes
  length-payload buf row = ground (arith, length-drop table.null_bytes buf)

  pub with_payload-IsRow :
      (buf bytes : Buffer)
      → IsRow table buf
      → length bytes ≡ table.reclength - table.null_bytes
      → IsRow table (with_payload table buf bytes)
  with_payload-IsRow buf bytes row len = record {
    full =
        ground (
          arith,
          length-append (take table.null_bytes buf) bytes,
          length-take table.null_bytes buf,
        );
    nulls = row.nulls;
  }

  -- The new row comes back when its payload is copied again over the old one's.
  pub with_payload_again :
      (buf bytes : Buffer)
      → IsRow table buf
      → with_payload table (with_payload table buf bytes) (payload table buf) ≡ buf
  with_payload_again buf bytes row =
      rw
        (take-append_left table.null_bytes (take table.null_bytes buf) bytes
          (ground (arith, length-take table.null_bytes buf)))
        (take-append-drop table.null_bytes buf)
