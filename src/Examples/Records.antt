-- ===== src/Examples/Records.antt =====
-- Row operations and scans at a transaction with two rows.
use blockchain_db.Prelude.{◌≡◌, ◌≢◌, refl, true, none, some, [], ◌∷◌, ok, arith, All}
use blockchain_db.Prelude.Order.{same}
use blockchain_db.Bytes.{bytes_eq, bytes_lt}
use blockchain_db.Bytes.Order.{bytes_ord, bytes_eq_iff}
use blockchain_db.Text.{text_lt}
use blockchain_db.Text.Order.{text_ord}
use blockchain_db.Map.{find, assign, erase}
use blockchain_db.Transaction.{Transaction, TableMap}
use blockchain_db.Table.{read, memcpy}
use blockchain_db.Rows.{
  success, wrong_command, end_of_file, row_value, write_row, update_row, get_primary_key,
}
use blockchain_db.Rows.Coherent.{recorded, write_of, remove_of}
use blockchain_db.Rows.Branches.{write_row-branches}
use blockchain_db.Rows.Updates.{IsUpdate, update_row_taken, update_row-new_key, update_row-same_key}
use blockchain_db.Scan.{Cursor, rnd_init, rnd_end}
use blockchain_db.Scan.Whole.{Fits, scan, scan-lists_copy, rnd_init-twice}
use blockchain_db.Examples.Memory.{stock, bytes, hash, hash_long, stock_table}

abbrev two_rows : TableMap
two_rows = (bytes (7 ∷ 5 ∷ []), bytes (5 ∷ 6 ∷ [])) ∷ (bytes (7 ∷ 9 ∷ []), bytes (9 ∷ 9 ∷ [])) ∷ []

abbrev two_txn : Transaction
two_txn = record { statements = []; table_cache = (stock, two_rows) ∷ []; lock_count = 1 }

two_here : find stock two_txn.table_cache ≡ some two_rows
unfolding find same text_ord text_lt
two_here = refl

-- The row 5 is moved to the key 9, which is taken.
taken_IsUpdate : IsUpdate hash hash_long stock_table (0 ∷ 5 ∷ 6 ∷ []) (0 ∷ 9 ∷ 1 ∷ [])
unfolding get_primary_key read memcpy
taken_IsUpdate = record {
  key_new = bytes (7 ∷ 9 ∷ []);
  key_old = bytes (7 ∷ 5 ∷ []);
  old_row = record { full = refl; nulls = omega arith };
  new_row = record { full = refl; nulls = omega arith };
  has_key_new = refl;
  has_key_old = refl;
}

stays_IsUpdate : IsUpdate hash hash_long stock_table (0 ∷ 5 ∷ 6 ∷ []) (0 ∷ 5 ∷ 8 ∷ [])
unfolding get_primary_key read memcpy
stays_IsUpdate = record {
  key_new = bytes (7 ∷ 5 ∷ []);
  key_old = bytes (7 ∷ 5 ∷ []);
  old_row = record { full = refl; nulls = omega arith };
  new_row = record { full = refl; nulls = omega arith };
  has_key_new = refl;
  has_key_old = refl;
}

other_key : bytes (7 ∷ 5 ∷ []) ≢ bytes (7 ∷ 9 ∷ [])
unfolding bytes_eq
other_key h = five_nine ((bytes_eq_iff (bytes (7 ∷ 5 ∷ [])) (bytes (7 ∷ 9 ∷ []))).1 h)
  where
    five_nine : bytes_eq (bytes (7 ∷ 5 ∷ [])) (bytes (7 ∷ 9 ∷ [])) ≡ true → ⊥
    five_nine e = cc

nine_taken : find (bytes (7 ∷ 9 ∷ [])) two_rows ≡ some (bytes (9 ∷ 9 ∷ []))
unfolding find same bytes_ord bytes_lt
nine_taken = refl

update_row_taken_example :
    (txn' : Transaction) × (m' : TableMap) × (update_row hash stock_table
        (0 ∷ 5 ∷ 6 ∷ [])
        (0 ∷ 9 ∷ 1 ∷ [])
        (some two_txn)
      ≡ ok (success, 0 ∷ 9 ∷ 1 ∷ [], some txn'))
    × (find stock txn'.table_cache ≡ some m')
    × (find (bytes (7 ∷ 5 ∷ [])) m' ≡ none)
    × (find (bytes (7 ∷ 9 ∷ [])) m' ≡ some (bytes (9 ∷ 9 ∷ [])))
unfolding taken_IsUpdate
update_row_taken_example =
    update_row_taken hash hash_long stock_table (0 ∷ 5 ∷ 6 ∷ []) (0 ∷ 9 ∷ 1 ∷ []) two_txn
      taken_IsUpdate two_here other_key nine_taken

update_row-new_key_example :
    update_row hash stock_table (0 ∷ 5 ∷ 6 ∷ []) (0 ∷ 9 ∷ 1 ∷ []) (some two_txn)
    ≡ ok (
      success,
      0 ∷ 9 ∷ 1 ∷ [],
      some (
          recorded two_txn
            (remove_of stock (bytes (7 ∷ 5 ∷ [])))
            (erase (bytes (7 ∷ 5 ∷ [])) two_rows)),
    )
unfolding taken_IsUpdate erase find same bytes_ord bytes_lt
update_row-new_key_example =
    update_row-new_key hash hash_long stock_table (0 ∷ 5 ∷ 6 ∷ []) (0 ∷ 9 ∷ 1 ∷ []) two_txn
      taken_IsUpdate two_here other_key

update_row-same_key_example :
    update_row hash stock_table (0 ∷ 5 ∷ 6 ∷ []) (0 ∷ 5 ∷ 8 ∷ []) (some two_txn)
    ≡ ok (
      success,
      0 ∷ 5 ∷ 6 ∷ [],
      some (
          recorded two_txn
            (write_of stock (bytes (7 ∷ 5 ∷ [])) (bytes (5 ∷ 8 ∷ [])))
            (assign (bytes (7 ∷ 5 ∷ [])) (bytes (5 ∷ 8 ∷ [])) two_rows)),
    )
unfolding stays_IsUpdate
update_row-same_key_example =
    update_row-same_key hash hash_long stock_table (0 ∷ 5 ∷ 6 ∷ []) (0 ∷ 5 ∷ 8 ∷ []) two_txn
      stays_IsUpdate two_here refl

key_nine : get_primary_key hash stock_table (0 ∷ 9 ∷ 1 ∷ []) ≡ ok (bytes (7 ∷ 9 ∷ []))
unfolding get_primary_key read memcpy
key_nine = refl

value_nine : row_value stock_table (0 ∷ 9 ∷ 1 ∷ []) ≡ ok (9 ∷ 1 ∷ [])
unfolding row_value read
value_nine = refl

write_row-branches_example :
    write_row hash stock_table (0 ∷ 9 ∷ 1 ∷ []) (some two_txn) ≡ ok (wrong_command, some two_txn)
unfolding find same bytes_ord bytes_lt
write_row-branches_example =
    write_row-branches hash hash_long stock_table (0 ∷ 9 ∷ 1 ∷ []) two_txn key_nine value_nine
      two_here

abbrev idle : Cursor
idle = record { current_position = 0; all_items = [] }

both_fit : All (Fits stock_table) two_rows
both_fit = (omega arith, (omega arith, tt))

scan-lists_copy_example :
    (cursor : Cursor) × (rnd_init stock_table (some two_txn) idle ≡ ok (success, cursor))
    × (scan 3 stock_table cursor (1 ∷ 1 ∷ 1 ∷ [])
        ≡ ok ((0 ∷ 5 ∷ 6 ∷ []) ∷ (0 ∷ 9 ∷ 9 ∷ []) ∷ [], end_of_file))
    × ((rnd_end cursor).1.all_items ≡ [])
scan-lists_copy_example =
    scan-lists_copy stock_table two_txn two_rows idle (1 ∷ 1 ∷ 1 ∷ []) two_here refl (omega arith)
      refl both_fit

rnd_init-twice_example :
    (first second : Cursor) × (rnd_init stock_table (some two_txn) idle ≡ ok (success, first))
    × (rnd_init stock_table (some two_txn) first ≡ ok (success, second))
    × (scan 5 stock_table second (1 ∷ 1 ∷ 1 ∷ [])
        ≡ ok (
          (0 ∷ 5 ∷ 6 ∷ []) ∷ (0 ∷ 9 ∷ 9 ∷ []) ∷ (0 ∷ 5 ∷ 6 ∷ []) ∷ (0 ∷ 9 ∷ 9 ∷ []) ∷ [],
          end_of_file,
        ))
rnd_init-twice_example =
    rnd_init-twice stock_table two_txn two_rows idle (1 ∷ 1 ∷ 1 ∷ []) two_here refl (omega arith)
      refl both_fit
