-- ===== src/Contract/Collected.antt =====
-- The map that a reader of a scan makes of the rows has the contract's values.
use blockchain_db.Prelude.{
  ℕ, ◌+◌, ◌≡◌, refl, ◌∙◌, ap, true, false, Option, none, some, List, [], ◌∷◌, length, ◌<◌, ◌^◌, All,
  ok, arith, if◌then◌else◌, ◌==◌, Bool-cases, inl, inr,
}
use blockchain_db.Prelude.Order.{same, same_iff}
use blockchain_db.Bytes.{Bytes}
use blockchain_db.Bytes.Order.{bytes_ord}
use blockchain_db.Map.{find, emplace}
use blockchain_db.Map.Lookup.{or_else, find-emplace, find-nil}
use blockchain_db.Adapter.{Batch}
use blockchain_db.Table.{Buffer}
use blockchain_db.Response.{split}
use blockchain_db.Response.Whole.{IsStored, collected, split-answer}
use blockchain_db.Contract.{Contract, is_written, get, table_scan}
use blockchain_db.Contract.Counts.{one_if_same, count}
use blockchain_db.Contract.Listed.{IsListed}
use blockchain_db.Contract.Scanned.{returned, rows_at, length-rows_at, returned-table_scan}

abbrev pub as_bytes : Option Buffer → Option Bytes
as_bytes none = none
as_bytes (some v) = some (record { value = v })

-- The first row of a key.
row_of : Contract → Bytes → List Bytes → Option Bytes
row_of c j keys = if count j keys == 0 then none else as_bytes (some (c.data_of j).value)

or_else-row_of :
    (c : Contract) (j k : Bytes) (keys : List Bytes) (o : Option Bytes)
    → same k j ≡ true
    → or_else (or_else o (as_bytes (some (c.data_of k).value))) (row_of c j keys)
      ≡ or_else o (row_of c j (k ∷ keys))
unfolding row_of count
or_else-row_of c j k keys none e =
    let positive : ((one_if_same k j + count j keys) == 0) ≡ false = rw e (ground arith) in
    rw positive (ap (λ i. as_bytes (some (c.data_of i).value)) ((same_iff k j).0 e))
or_else-row_of c j k keys (some b) e = refl

or_else-row_of_nil : (c : Contract) (j : Bytes) (o : Option Bytes) → o ≡ or_else o (row_of c j [])
unfolding row_of count
or_else-row_of_nil c j none = refl
or_else-row_of_nil c j (some b) = refl

row_of_other :
    (c : Contract) (j k : Bytes) (keys : List Bytes)
    → same k j ≡ false
    → row_of c j (k ∷ keys) ≡ row_of c j keys
unfolding row_of count
row_of_other c j k keys e = rw e (
    ap (λ n. if n == 0 then none else as_bytes (some (c.data_of j).value))
      (zero_add (count j keys)))
  where
    zero_add : (n : ℕ) → 0 + n ≡ n
    zero_add n = omega arith

find-collected :
    (c : Contract) (j : Bytes) (keys : List Bytes) (ret : Batch)
    → find j (collected (rows_at c keys) ret) ≡ or_else (find j ret) (row_of c j keys)
unfolding collected
find-collected c j [] ret = or_else-row_of_nil c j (find j ret)
find-collected c j (k ∷ keys) ret =
    find-collected c j keys (emplace k (record { value = (c.data_of k).value }) ret)
    ∙ rw (find-emplace k j (record { value = (c.data_of k).value }) ret)
        (elim (Bool-cases (same k j)) [
          | inl e ↦ rw e (
              ap
                (λ i.
                  or_else (or_else (find i ret) (as_bytes (some (c.data_of k).value)))
                    (row_of c j keys))
                ((same_iff k j).0 e)
              ∙ or_else-row_of c j k keys (find j ret) e)
          | inr e ↦ rw (e, row_of_other c j k keys e) refl
        ])

-- For a contract whose list has each key that is written once, the map of its rows has at each key what
-- `get` reads.
pub find-collected_contents :
    (c : Contract) (j : Bytes)
    → IsListed c
    → find j (collected (rows_at c c.key_list) []) ≡ as_bytes (get j c)
unfolding get row_of
find-collected_contents c j listed =
    find-collected c j c.key_list []
    ∙ rw (find-nil j, listed j)
        (elim (Bool-cases (is_written c j)) [ inl w ↦ rw w refl | inr w ↦ rw w refl ])

pub rows_at_few :
    (c : Contract) → length c.key_list < 2 ^ 31 → length (rows_at c c.key_list) < 2 ^ 31
rows_at_few c few = omega (arith, length-rows_at c c.key_list)

-- `split` at the answer of tableScan, for a contract whose list has each key that is written once,
-- fewer than 2 ^ 31 of them, with keys of 32 bytes and values that do not run into their tokens,
-- returns a map that has at each key what the contract's `get` reads.
pub split-table_scan :
    (c : Contract)
    → IsListed c
    → length c.key_list < 2 ^ 31
    → All IsStored (rows_at c c.key_list)
    → (rows : Batch) × (split (returned (table_scan c)) 64 ≡ ok rows)
      × ((j : Bytes) → find j rows ≡ as_bytes (get j c))
split-table_scan c listed few stored =
    let (w0, w1, w2, behind, answers, l0, l1, l2, ends) = returned-table_scan c in
    (
      collected (rows_at c c.key_list) [],
      ap (λ t. split t 64) answers
          ∙ split-answer w0 w1 w2 (rows_at c c.key_list) behind l0 l1 l2 (rows_at_few c few) stored
              ends,
      λ j. find-collected_contents c j listed,
    )
