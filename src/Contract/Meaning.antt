-- ===== src/Contract/Meaning.antt =====
-- What the calls of the contract mean for the rows of its table, with no list of keys.
use blockchain_db.Prelude.{
  ℕ, ◌<◌, ◌≡◌, refl, ◌∙◌, sym, ap, true, false, Option, none, some, List, [], ◌∷◌, length, All,
  arith, if◌then◌else◌, Bool-cases, inl, inr, ltb, ◌==◌,
}
use blockchain_db.Prelude.Order.{same, same_iff}
use blockchain_db.Bytes.{Bytes}
use blockchain_db.Bytes.Order.{bytes_ord}
use blockchain_db.Table.{Buffer}
use blockchain_db.Contract.{
  Contract, deployed, is_written, put, get, remove, put_batch, Call, put_call, remove_call,
  put_batch_call, or_reverted, executed, run,
}
use blockchain_db.Contract.Listed.{
  IsListed, IsMined, deployed-IsListed, remove_written, remove_unwritten, executed-IsListed,
}

-- The rows of a table: what each key has.
abbrev pub Rows : Type 0
Rows = Bytes → Option Buffer

abbrev pub no_rows : Rows
no_rows = λ j. none

abbrev pub replaced : Bytes → Option Buffer → Rows → Rows
replaced key value rows = λ j. if same key j then value else rows j

abbrev pub all_replaced : List Bytes → List Buffer → Rows → Rows
all_replaced [] values rows = rows
all_replaced (k ∷ keys) [] rows = rows
all_replaced (k ∷ keys) (v ∷ values) rows = all_replaced keys values (replaced k (some v) rows)

-- A batch with a key that has no value does nothing.
abbrev pub called : Call → Rows → Rows
called (put_call key value) rows = replaced key (some value) rows
called (remove_call key) rows = replaced key none rows
called (put_batch_call keys values) rows =
    if ltb (length values) (length keys) then rows else all_replaced keys values rows

unfoldable pub all_called : List (ℕ × Call) → Rows → Rows
all_called [] rows = rows
all_called ((block, call) ∷ calls) rows = all_called calls (called call rows)

-- The rows that `get` reads.
abbrev pub rows_of : Contract → Rows
rows_of c = λ j. get j c

positive_not_zero : (block : ℕ) → 0 < block → (block == 0) ≡ false
positive_not_zero block positive = ground arith

get-put :
    (block : ℕ) (key j : Bytes) (value : Buffer) (c : Contract)
    → 0 < block
    → get j (put block key value c) ≡ replaced key (some value) (rows_of c) j
unfolding get put
get-put block key j value c positive = elim (Bool-cases (same key j)) [
  | inl e ↦ rw (e, positive_not_zero block positive) refl
  | inr e ↦ rw e refl
]

-- A batch that does not revert.
get-put_batch :
    (block : ℕ) (keys : List Bytes) (values : List Buffer) (c : Contract)
    → 0 < block
    → ltb (length values) (length keys) ≡ false
    → (after : Contract) × (put_batch block keys values c ≡ some after)
      × (rows_of after ≡ all_replaced keys values (rows_of c))
unfolding put_batch
get-put_batch block [] values c positive enough = (c, refl, refl)
get-put_batch block (k ∷ keys) [] c positive enough = absurd (ground arith)
get-put_batch block (k ∷ keys) (v ∷ values) c positive enough =
    let (after, written, reads) =
      get-put_batch block keys values (put block k v c) positive (ground arith) in
    (
      after,
      written,
      reads ∙ ap (all_replaced keys values) (λ i j. get-put block k j v c positive i),
    )

put_batch_short :
    (block : ℕ) (keys : List Bytes) (values : List Buffer) (c : Contract)
    → ltb (length values) (length keys) ≡ true
    → put_batch block keys values c ≡ none
unfolding put_batch
put_batch_short block [] values c short = absurd (ground arith)
put_batch_short block (k ∷ keys) [] c short = refl
put_batch_short block (k ∷ keys) (v ∷ values) c short =
    put_batch_short block keys values (put block k v c) (ground arith)

get_unwritten : (key : Bytes) (c : Contract) → is_written c key ≡ false → get key c ≡ none
unfolding get
get_unwritten key c w = rw w refl

get-remove :
    (key j : Bytes) (c : Contract)
    → IsListed c
    → get j (or_reverted c (remove key c)) ≡ replaced key none (rows_of c) j
unfolding get
get-remove key j c listed = elim (Bool-cases (is_written c key)) [
  | inl w ↦
      let (left, removed, counted) = remove_written key c listed w in
      rw removed (elim (Bool-cases (same key j)) [ inl e ↦ rw e refl | inr e ↦ rw e refl ])
  | inr w ↦ rw (remove_unwritten key c w) (elim (Bool-cases (same key j)) [
    | inl e ↦ rw e (ap (λ k. get k c) (sym ((same_iff key j).0 e)) ∙ get_unwritten key c w)
    | inr e ↦ rw e refl
  ])
]

pub executed-called :
    (block : ℕ) (call : Call) (c : Contract)
    → 0 < block
    → IsListed c
    → rows_of (executed block call c) ≡ called call (rows_of c)
unfolding executed
executed-called block (put_call key value) c positive listed =
    λ i j. get-put block key j value c positive i
executed-called block (remove_call key) c positive listed = λ i j. get-remove key j c listed i
executed-called block (put_batch_call keys values) c positive listed =
    elim (Bool-cases (ltb (length values) (length keys))) [
      | inl e ↦ rw (e, put_batch_short block keys values c e) refl
      | inr e ↦
          let (after, written, reads) = get-put_batch block keys values c positive e in
          rw (e, written) reads
    ]

pub run_on-all_called :
    (calls : List (ℕ × Call)) (c : Contract)
    → All IsMined calls
    → IsListed c
    → rows_of (run calls c) ≡ all_called calls (rows_of c)
unfolding run all_called
run_on-all_called [] c mined listed = refl
run_on-all_called ((block, call) ∷ calls) c (positive, mined) listed =
    run_on-all_called calls (executed block call c) mined
      (executed-IsListed block call c positive listed)
    ∙ ap (all_called calls) (executed-called block call c positive listed)

-- After any calls on a deployed contract, in blocks with a positive number and with the calls that
-- revert among them, `get` reads for each key what the calls mean for the rows of the table: `put`
-- gives the key its value, `remove` takes the key away, `putBatch` gives its keys their values in
-- their order and nothing if a key has no value.
pub run-all_called :
    (calls : List (ℕ × Call)) (j : Bytes)
    → All IsMined calls
    → get j (run calls deployed) ≡ all_called calls no_rows j
unfolding get
run-all_called calls j mined =
    ap (λ rows. rows j) (run_on-all_called calls deployed mined deployed-IsListed)
