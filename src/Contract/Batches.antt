-- ===== src/Contract/Batches.antt =====
-- The calls that write a batch, and what the table has after them.
use blockchain_db.Prelude.{
  ℕ, ◌<◌, ◌≡◌, refl, sym, ◌∙◌, ap, false, none, some, List, [], ◌∷◌, length, replicate, All, arith,
  Bool-cases, inl, inr, take-append_left, ltb,
}
use blockchain_db.Prelude.Order.{same, same_iff}
use blockchain_db.Bytes.{Bytes, size}
use blockchain_db.Bytes.Order.{bytes_ord}
use blockchain_db.Map.{find}
use blockchain_db.Map.Lookup.{or_else}
use blockchain_db.Map.Sorted.{IsSorted, find-Above}
use blockchain_db.Adapter.{Batch, overlaid}
use blockchain_db.Contract.{Contract, get, Call, put_call, put_batch_call, executed, run}
use blockchain_db.Contract.Listed.{IsListed, IsMined}
use blockchain_db.Contract.Meaning.{
  Rows, rows_of, replaced, all_replaced, called, all_called, executed-called, run_on-all_called,
}
use blockchain_db.Contract.Collected.{as_bytes}
use blockchain_db.Contract.Sent.{as_bytes32}
use blockchain_db.Contract.Sent.Batch.{batch_keys, batch_values}

-- The calls that write the pairs of a batch one by one, each in the block of its key.
unfoldable pub puts : (Bytes → ℕ) → Batch → List (ℕ × Call)
puts block_of [] = []
puts block_of ((k, v) ∷ batch) = (block_of k, put_call (as_bytes32 k) v.value) ∷ puts block_of batch

abbrev pub HasWord : Bytes × Bytes → Type 0
HasWord e = size e.0 ≡ 32

as_bytes32_whole : (key : Bytes) → size key ≡ 32 → as_bytes32 key ≡ key
as_bytes32_whole key word =
    λ i. record { value = take-append_left 32 key.value (replicate 32 0) (sym word) i }

all_replaced-overlaid :
    (batch : Batch) (rows : Rows) (j : Bytes)
    → IsSorted batch
    → All HasWord batch
    → as_bytes (all_replaced (batch_keys batch) (batch_values batch) rows j)
      ≡ overlaid batch (λ k. as_bytes (rows k)) j
unfolding find
all_replaced-overlaid [] rows j sorted wide = refl
all_replaced-overlaid ((k, v) ∷ batch) rows j (above, sorted) (word, wide) =
    all_replaced-overlaid batch (replaced (as_bytes32 k) (some v.value) rows) j sorted wide
    ∙ ap (λ i. or_else (find j batch) (as_bytes (replaced i (some v.value) rows j)))
        (as_bytes32_whole k word)
    ∙ elim (Bool-cases (same k j)) [
      | inl e ↦
          let missing : find j batch ≡ none =
            ap (λ i. find i batch) (sym ((same_iff k j).0 e)) ∙ find-Above k batch above in
          rw (e, missing) refl
      | inr e ↦ rw e refl
    ]

all_called-puts :
    (block_of : Bytes → ℕ) (batch : Batch) (rows : Rows)
    → all_called (puts block_of batch) rows
      ≡ all_replaced (batch_keys batch) (batch_values batch) rows
unfolding puts all_called
all_called-puts block_of [] rows = refl
all_called-puts block_of ((k, v) ∷ batch) rows =
    all_called-puts block_of batch (replaced (as_bytes32 k) (some v.value) rows)

puts-IsMined :
    (block_of : Bytes → ℕ) (batch : Batch)
    → ((k : Bytes) → 0 < block_of k)
    → All IsMined (puts block_of batch)
unfolding puts
puts-IsMined block_of [] positive = tt
puts-IsMined block_of ((k, v) ∷ batch) positive = (positive k, puts-IsMined block_of batch positive)

-- The calls of put for the pairs of a batch, whose keys ascend and have 32 bytes, in blocks with
-- positive numbers on a contract whose list has each key that is written once, overlay the table with
-- the batch.
pub run-puts :
    (block_of : Bytes → ℕ) (batch : Batch) (c : Contract) (j : Bytes)
    → ((k : Bytes) → 0 < block_of k)
    → IsListed c
    → IsSorted batch
    → All HasWord batch
    → as_bytes (get j (run (puts block_of batch) c)) ≡ overlaid batch (λ k. as_bytes (get k c)) j
run-puts block_of batch c j positive listed sorted wide =
    ap (λ rows. as_bytes (rows j))
      (run_on-all_called (puts block_of batch) c (puts-IsMined block_of batch positive) listed
        ∙ all_called-puts block_of batch (rows_of c))
    ∙ all_replaced-overlaid batch (rows_of c) j sorted wide

not_fewer : (batch : Batch) → ltb (length (batch_values batch)) (length (batch_keys batch)) ≡ false
not_fewer [] = refl
not_fewer (e ∷ batch) = let rest = not_fewer batch in ground arith

called_batch :
    (batch : Batch) (rows : Rows)
    → called (put_batch_call (batch_keys batch) (batch_values batch)) rows
      ≡ all_replaced (batch_keys batch) (batch_values batch) rows
called_batch batch rows = rw (not_fewer batch) refl

-- One call of putBatch for the pairs of a batch, whose keys ascend and have 32 bytes, in a block with a
-- positive number on a contract whose list has each key that is written once, overlays the table with
-- the batch.
executed-put_batch_call :
    (block : ℕ) (batch : Batch) (c : Contract) (j : Bytes)
    → 0 < block
    → IsListed c
    → IsSorted batch
    → All HasWord batch
    → as_bytes (get j (executed block (put_batch_call (batch_keys batch) (batch_values batch)) c))
      ≡ overlaid batch (λ k. as_bytes (get k c)) j
executed-put_batch_call block batch c j positive listed sorted wide =
    ap (λ rows. as_bytes (rows j))
      (executed-called block (put_batch_call (batch_keys batch) (batch_values batch)) c positive
          listed
        ∙ called_batch batch (rows_of c))
    ∙ all_replaced-overlaid batch (rows_of c) j sorted wide
