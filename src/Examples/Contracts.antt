-- ===== src/Examples/Contracts.antt =====
-- A contract after three calls, and the calls that the adapter sends to it.
use blockchain_db.Prelude.{
  ℕ, ◌<◌, ◌^◌, ◌≡◌, refl, List, [], ◌∷◌, length, replicate, All, ok, arith, if◌then◌else◌, some,
}
use blockchain_db.Prelude.Order.{same}
use blockchain_db.Bytes.{Bytes, bytes_lt}
use blockchain_db.Bytes.Order.{bytes_ord}
use blockchain_db.Text.{Text}
use blockchain_db.Contract.{
  Call, remove_call, put_batch_call, deployed, run, executed, put, remove, put_batch, is_written,
  get, index_of, swap_out, assign_at, pop, table_scan,
}
use blockchain_db.Contract.Counts.{count}
use blockchain_db.Contract.Listed.{IsMined, run-IsListed}
use blockchain_db.Contract.Meaning.{all_called, run-all_called}
use blockchain_db.Contract.Scanned.{rows_at, returned}
use blockchain_db.Contract.Collected.{as_bytes, split-table_scan}
use blockchain_db.Contract.Sent.Batch.{IsPutBatchOf}
use blockchain_db.Contract.Sent.Whole.{put_batch_data-IsPutBatchOf}
use blockchain_db.Contract.Batches.{puts, run-puts}
use blockchain_db.Ethereum.Writes.{put_batch_data}
use blockchain_db.Map.{find}
use blockchain_db.Map.Sorted.{IsSorted}
use blockchain_db.Adapter.{Batch, overlaid}
use blockchain_db.Response.{split}
use blockchain_db.Examples.Memory.{bytes}
use blockchain_db.Examples.Codecs.{five-IsStored}
use blockchain_db.Response.Whole.{IsStored}

abbrev pub key_of : ℕ → Bytes
key_of n = bytes (n ∷ replicate 31 0)

-- The second key is written and removed again.
abbrev pub three_calls : List (ℕ × Call)
three_calls =
    (1, put_batch_call (key_of 7 ∷ key_of 5 ∷ []) ((9 ∷ []) ∷ (5 ∷ 6 ∷ []) ∷ []))
    ∷ (2, remove_call (key_of 7))
    ∷ (2, remove_call (key_of 8))
    ∷ []

three_listed : (run three_calls deployed).key_list ≡ key_of 5 ∷ []
unfolding run executed put remove put_batch index_of swap_out assign_at pop same bytes_ord bytes_lt
three_listed = refl

abbrev pub three_mined : All IsMined three_calls
three_mined = (omega arith, (omega arith, (omega arith, tt)))

run-IsListed_example :
    count (key_of 5) (key_of 5 ∷ [])
    ≡ (if is_written (run three_calls deployed) (key_of 5) then 1 else 0)
unfolding run executed put remove put_batch index_of swap_out assign_at pop same bytes_ord bytes_lt
run-IsListed_example = run-IsListed three_calls three_mined (key_of 5)

run-all_called_example : get (key_of 5) (run three_calls deployed) ≡ some (5 ∷ 6 ∷ [])
unfolding all_called same bytes_ord bytes_lt
run-all_called_example = run-all_called three_calls (key_of 5) three_mined

pub three-IsStored :
    All IsStored (rows_at (run three_calls deployed) (run three_calls deployed).key_list)
unfolding run executed put remove put_batch index_of swap_out assign_at pop same bytes_ord bytes_lt
three-IsStored = (five-IsStored, tt)

pub three_few : length (run three_calls deployed).key_list < 2 ^ 31
three_few = rw three_listed (omega arith)

split-table_scan_example :
    (rows : Batch) × (split (returned (table_scan (run three_calls deployed))) 64 ≡ ok rows)
    × ((j : Bytes) → find j rows ≡ as_bytes (get j (run three_calls deployed)))
split-table_scan_example =
    split-table_scan (run three_calls deployed) (run-IsListed three_calls three_mined) three_few
      three-IsStored

abbrev two_pairs : Batch
two_pairs = (key_of 5, bytes (1 ∷ 2 ∷ [])) ∷ (key_of 7, bytes []) ∷ []

put_batch_data-IsPutBatchOf_example :
    (arguments : Text) × (put_batch_data two_pairs ≡ ok arguments)
    × IsPutBatchOf arguments (key_of 5 ∷ key_of 7 ∷ []) ((1 ∷ 2 ∷ []) ∷ [] ∷ [])
put_batch_data-IsPutBatchOf_example =
    put_batch_data-IsPutBatchOf two_pairs (omega arith, (omega arith, tt))

two_pairs-IsSorted : IsSorted two_pairs
unfolding bytes_ord bytes_lt
two_pairs-IsSorted = ((refl, tt), (tt, tt))

run-puts_example :
    as_bytes (get (key_of 7) (run (puts (λ k. 3) two_pairs) (run three_calls deployed)))
    ≡ overlaid two_pairs (λ k. as_bytes (get k (run three_calls deployed))) (key_of 7)
run-puts_example =
    run-puts (λ k. 3) two_pairs (run three_calls deployed) (key_of 7) (λ k. omega arith)
      (run-IsListed three_calls three_mined) two_pairs-IsSorted (refl, (refl, tt))
