-- ===== src/Examples/Lookups.antt =====
-- Lookups by the key 5 in a transaction with one row, and of a row that is inserted.
use blockchain_db.Prelude.{ℕ, ◌≡◌, refl, true, some, [], ◌∷◌, ok, arith}
use blockchain_db.Prelude.Order.{same}
use blockchain_db.Bytes.{bytes_lt}
use blockchain_db.Bytes.Order.{bytes_ord}
use blockchain_db.Text.{text_lt}
use blockchain_db.Text.Order.{text_ord}
use blockchain_db.Map.{find}
use blockchain_db.Transaction.{Transaction, TableMap}
use blockchain_db.Table.{read, memcpy}
use blockchain_db.Rows.{success, write_row, get_primary_key}
use blockchain_db.Rows.Buffers.{IsRow}
use blockchain_db.Index.{index_read, is_usable}
use blockchain_db.Index.Lookup.{IsLookup, index_read-looked_up, index_read-write_row}
use blockchain_db.Examples.Memory.{stock, bytes, hash, hash_long, stock_table, id_field}

abbrev one_row : TableMap
one_row = (bytes (7 ∷ 9 ∷ []), bytes (9 ∷ 9 ∷ [])) ∷ []

abbrev one_txn : Transaction
one_txn = record { statements = []; table_cache = (stock, one_row) ∷ []; lock_count = 1 }

one_here : find stock one_txn.table_cache ≡ some one_row
unfolding find same text_ord text_lt
one_here = refl

by_key-IsLookup : (key : ℕ) → IsLookup stock_table (key ∷ []) 0
unfolding is_usable
by_key-IsLookup key = record {
  keys = record { key_parts = id_field ∷ []; key_length = 1 } ∷ [];
  primary = record { key_parts = id_field ∷ []; key_length = 1 };
  key_used = record { key_parts = id_field ∷ []; key_length = 1 };
  has_keys = refl;
  has_primary = refl;
  has_used = refl;
  usable = refl;
  fixed = (refl, tt);
  adds_up = refl;
  short = omega arith;
  full = refl;
}

index_read-looked_up_example :
    index_read hash stock_table (1 ∷ 1 ∷ 1 ∷ []) (9 ∷ []) true 0 (some one_txn)
    ≡ ok (success, 0 ∷ 9 ∷ 9 ∷ [])
unfolding find same bytes_ord bytes_lt
index_read-looked_up_example =
    index_read-looked_up hash stock_table (9 ∷ []) (1 ∷ 1 ∷ 1 ∷ []) 0 one_txn one_row
      (by_key-IsLookup 9) refl one_here (omega arith, tt)

five-IsRow : IsRow stock_table (0 ∷ 5 ∷ 6 ∷ [])
five-IsRow = record { full = refl; nulls = omega arith }

five_key : get_primary_key hash stock_table (0 ∷ 5 ∷ 6 ∷ []) ≡ ok (hash (5 ∷ []))
unfolding get_primary_key read memcpy
five_key = refl

index_read-write_row_example :
    (txn' : Transaction) × (write_row hash stock_table (0 ∷ 5 ∷ 6 ∷ []) (some one_txn)
      ≡ ok (success, some txn'))
    × (index_read hash stock_table (1 ∷ 1 ∷ 1 ∷ []) (5 ∷ []) true 0 (some txn')
        ≡ ok (success, 0 ∷ 5 ∷ 6 ∷ []))
unfolding find same bytes_ord bytes_lt
index_read-write_row_example =
    index_read-write_row hash hash_long stock_table (5 ∷ []) (0 ∷ 5 ∷ 6 ∷ []) (1 ∷ 1 ∷ 1 ∷ []) 0
      one_txn one_row (by_key-IsLookup 5) five-IsRow five_key refl one_here refl
