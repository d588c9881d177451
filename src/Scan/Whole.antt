-- ===== src/Scan/Whole.antt =====
-- A scan from its start to its end, and a row found again by its position.
use blockchain_db.Prelude.{
  ℕ, zero, suc, ◌+◌, ◌%◌, ◌^◌, ◌≤◌, ◌<◌, ◌≡◌, refl, sym, ◌∙◌, none, some, List, [], ◌∷◌, ◌++◌, map,
  length, take, drop, replicate, get_elem?, All, All-append, arith, append-nil, append_assoc,
  Result, ok, ◌>>=◌, Ensures-bind, Ensures-eq_ok, length-replicate, length-append, length-take,
  length-drop, drop_of_length-le,
}
use blockchain_db.Bytes.{Bytes, size}
use blockchain_db.Bytes.Order.{bytes_ord}
use blockchain_db.Text.Order.{text_ord}
use blockchain_db.Map.{find}
use blockchain_db.Transaction.{Transaction, TableMap}
use blockchain_db.Table.{Table, full_table_name, Buffer, memcpy_within}
use blockchain_db.Rows.{Status, success, failed, wrong_command, end_of_file}
use blockchain_db.Scan.{
  Cursor, before_first, rnd_init, rnd_end, clear, fill, find_row, rnd_next, position, rnd_pos,
}

-- A record of zeros.
abbrev pub zeros : ℕ → Buffer
zeros n = replicate n 0

pub length-zeros : (n : ℕ) → length (zeros n) ≡ n
length-zeros n = length-replicate {A = ℕ} n 0

-- The record of a value: zero but for the value behind the null bytes.
abbrev pub image : Table → Bytes → Buffer
image table value =
    take table.null_bytes (zeros table.reclength)
    ++ (value.value ++ drop (table.null_bytes + size value) (zeros table.reclength))

-- The value fits into a record of the table.
abbrev pub Fits : Table → Bytes × Bytes → Type 0
Fits table (key, value) = table.null_bytes + size value ≤ table.reclength

-- The server's loop: `rnd_next` until it does not answer success, at most so many times.
unfoldable pub scan : ℕ → Table → Cursor → Buffer → Result (List Buffer × Status)
scan zero table cursor buf = ok ([], success)
scan (suc fuel) table cursor buf = do
  (status, buf', cursor') ← rnd_next table cursor buf
  elim status [
    | success ↦ do (rows, last) ← scan fuel table cursor' buf'; ok (buf' ∷ rows, last)
    | failed ↦ ok ([], failed)
    | wrong_command ↦ ok ([], wrong_command)
    | end_of_file ↦ ok ([], end_of_file)
  ]

get_elem?-middle {ℓ} :
    {A : Type ℓ} (front : List A) (x : A) (rest : List A)
    → get_elem? (front ++ x ∷ rest) (length front) ≡ some x
get_elem?-middle [] x rest = refl
get_elem?-middle (y ∷ front) x rest = get_elem?-middle front x rest

get_elem?-end {ℓ} : {A : Type ℓ} (xs : List A) → get_elem? xs (length xs) ≡ none
get_elem?-end [] = refl
get_elem?-end (x ∷ xs) = get_elem?-end xs

module _ (table : Table) where
  pub clear_lem :
      (buf : Buffer)
      → length buf ≡ table.reclength
      → clear buf table.reclength ≡ ok (zeros table.reclength)
  unfolding clear
  clear_lem buf full =
      memcpy_within buf 0 (zeros table.reclength) (omega (arith, length-zeros table.reclength))
      ∙ rw
          (
            drop_of_length-le (0 + length (zeros table.reclength)) buf
                (omega (arith, length-zeros table.reclength)),
            append-nil,
          )
          refl

  length-image : (e : Bytes × Bytes) → Fits table e → length (image table e.1) ≡ table.reclength
  length-image (key, value) fits = omega (
    arith,
    length-append (take table.null_bytes (zeros table.reclength))
        (value.value ++ drop (table.null_bytes + size value) (zeros table.reclength)),
    length-append value.value (drop (table.null_bytes + size value) (zeros table.reclength)),
    length-take table.null_bytes (zeros table.reclength),
    length-drop (table.null_bytes + size value) (zeros table.reclength),
    length-zeros table.reclength,
  )

  fill_lem :
      (e : Bytes × Bytes)
      → Fits table e
      → fill table (zeros table.reclength) (some e) ≡ ok (success, image table e.1)
  unfolding fill
  fill_lem (key, value) fits =
      rw
        (memcpy_within (zeros table.reclength) table.null_bytes value.value
          (omega (arith, length-zeros table.reclength)))
        refl

  find_row_at :
      (cursor : Cursor) (index : ℕ) (buf : Buffer) (e : Bytes × Bytes)
      → length buf ≡ table.reclength
      → get_elem? cursor.all_items index ≡ some e
      → Fits table e
      → find_row table cursor index buf ≡ ok (success, image table e.1)
  unfolding find_row
  find_row_at cursor index buf e full here fits = rw (clear_lem buf full, here) (fill_lem e fits)

  find_row_end :
      (cursor : Cursor) (index : ℕ) (buf : Buffer)
      → length buf ≡ table.reclength
      → get_elem? cursor.all_items index ≡ none
      → find_row table cursor index buf ≡ ok (end_of_file, replicate table.reclength 0)
  unfolding find_row fill
  find_row_end cursor index buf full here = rw (clear_lem buf full, here) refl

  same_row :
      (cursor : Cursor) (index : ℕ) (buf other : Buffer)
      → length buf ≡ table.reclength
      → length other ≡ table.reclength
      → find_row table cursor index other ≡ find_row table cursor index buf
  unfolding find_row
  same_row cursor index buf other full full' = rw (clear_lem buf full, clear_lem other full') refl

  abbrev at_item : ℕ → List (Bytes × Bytes) → Cursor
  at_item n items = record { current_position = n; all_items = items }

  scan_from :
      (items front rest : List (Bytes × Bytes)) (n : ℕ) (buf : Buffer)
      → items ≡ front ++ rest
      → (n + 1) % 2 ^ 64 ≡ length front
      → length front + length rest < 2 ^ 64
      → length buf ≡ table.reclength
      → All (Fits table) rest
      → scan (suc (length rest)) table (at_item n items) buf
        ≡ ok (map (λ e. image table e.1) rest, end_of_file)
  unfolding scan rnd_next
  scan_from items front [] n buf split pos few full fits =
      let here : get_elem? items (length front) ≡ none =
        rw (split, append-nil) (get_elem?-end front) in
      rw pos (rw (find_row_end (at_item (length front) items) (length front) buf full here) refl)
  scan_from items front (e ∷ rest) n buf split pos few full (fit, fits) =
      let here : get_elem? items (length front) ≡ some e =
        rw split (get_elem?-middle front e rest) in
      let split' : items ≡ (front ++ e ∷ []) ++ rest =
        split ∙ sym (append_assoc front (e ∷ []) rest) in
      let more : length (front ++ e ∷ []) ≡ length front + 1 = length-append front (e ∷ []) in
      let later =
        scan_from items (front ++ e ∷ []) rest (length front) (image table e.1) split'
          (ground (arith, more)) (omega (arith, more)) (length-image e fit) fits in
      rw pos (
        rw (find_row_at (at_item (length front) items) (length front) buf e full here fit)
          (rw later refl))

  -- A scan that starts with no items left from an earlier one, over a copy whose values fit into a
  -- record and number less than 2 ^ 64: `rnd_init` answers success, `rnd_next` gives the record of
  -- each row of the copy once, in the order of the keys, and then answers HA_ERR_END_OF_FILE, and
  -- `rnd_end` leaves no items.
  pub scan-lists_copy :
      (txn : Transaction) (m : TableMap) (old : Cursor) (buf : Buffer)
      → find (full_table_name table) txn.table_cache ≡ some m
      → old.all_items ≡ []
      → length m < 2 ^ 64
      → length buf ≡ table.reclength
      → All (Fits table) m
      → (cursor : Cursor) × (rnd_init table (some txn) old ≡ ok (success, cursor))
        × (scan (suc (length m)) table cursor buf ≡ ok (map (λ e. image table e.1) m, end_of_file))
        × ((rnd_end cursor).1.all_items ≡ [])
  unfolding rnd_init
  scan-lists_copy txn m old buf here fresh few full fits = (
    at_item before_first m,
    rw (here, fresh) refl,
    scan_from m [] m before_first buf refl refl (omega arith) full fits,
    refl,
  )

  -- A second `rnd_init` with no `rnd_end` in between appends the copy once more, so that the scan
  -- gives each row twice.
  pub rnd_init-twice :
      (txn : Transaction) (m : TableMap) (old : Cursor) (buf : Buffer)
      → find (full_table_name table) txn.table_cache ≡ some m
      → old.all_items ≡ []
      → length (m ++ m) < 2 ^ 64
      → length buf ≡ table.reclength
      → All (Fits table) m
      → (first second : Cursor) × (rnd_init table (some txn) old ≡ ok (success, first))
        × (rnd_init table (some txn) first ≡ ok (success, second))
        × (scan (suc (length (m ++ m))) table second buf
            ≡ ok (map (λ e. image table e.1) (m ++ m), end_of_file))
  unfolding rnd_init
  rnd_init-twice txn m old buf here fresh few full fits = (
    at_item before_first m,
    at_item before_first (m ++ m),
    rw (here, fresh) refl,
    rw here refl,
    scan_from (m ++ m) [] (m ++ m) before_first buf refl refl (omega arith) full
        (All-append (Fits table) m m fits fits),
  )

  module _ (my_store_ptr : ℕ → Buffer) (my_get_ptr : Buffer → ℕ)
      (stored : (n : ℕ) → n < 2 ^ 64 → my_get_ptr (my_store_ptr n) ≡ n) where
    -- For any answer of an `rnd_next`, `rnd_pos` at the position that `position` stores after it
    -- gives the same code and the same record, whatever its buffer held.
    rnd_pos-position :
        (cursor next : Cursor) (status : Status) (buf row other : Buffer)
        → rnd_next table cursor buf ≡ ok (status, row, next)
        → length buf ≡ table.reclength
        → length other ≡ table.reclength
        → rnd_pos my_store_ptr my_get_ptr table next other (position my_store_ptr my_get_ptr next)
          ≡ ok (status, row)
    unfolding rnd_next
    rnd_pos-position cursor next status buf row other run full full' =
        Ensures-eq_ok Same (rnd_next table cursor buf)
          (Ensures-bind Same (find_row table moved moved.current_position buf) _ λ r found.
            rw (stored moved.current_position (omega arith))
              (same_row moved moved.current_position buf other full full' ∙ found))
          run
      where
        moved : Cursor
        moved = record cursor { current_position = (cursor.current_position + 1) % 2 ^ 64 }

        Same : Status × Buffer × Cursor → Type 0
        Same (code, found, after) =
            rnd_pos my_store_ptr my_get_ptr table after other
              (position my_store_ptr my_get_ptr after)
            ≡ ok (code, found)
