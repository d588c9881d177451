-- ===== src/Contract/Listed.antt =====
-- The list of the keys has each key that is written, once, and no other.
use blockchain_db.Prelude.{
  ap, ℕ, suc, ◌+◌, ◌<◌, ◌≡◌, refl, ◌∙◌, true, false, none, some, List, [], ◌∷◌, length, get_elem?,
  ◌-◌, arith, if◌then◌else◌, Bool-cases, inl, inr, All,
}
use blockchain_db.Prelude.Order.{same, same_iff}
use blockchain_db.Bytes.{Bytes}
use blockchain_db.Bytes.Order.{bytes_ord}
use blockchain_db.Table.{Buffer}
use blockchain_db.Contract.{
  Contract, deployed, stored, no_value, is_written, with_keys, put, index_of, swap_out, assign_at,
  pop, remove, put_batch, Call, put_call, remove_call, put_batch_call, or_reverted, executed, run,
}
use blockchain_db.Contract.Counts.{
  one_if_same, count, count-append, count-swapped, index_of-found, last_of,
}

abbrev pub IsListed : Contract → Type 0
IsListed c = (j : Bytes) → count j c.key_list ≡ (if is_written c j then 1 else 0)

pub is_written-put :
    (block : ℕ) (key j : Bytes) (value : Buffer) (c : Contract)
    → 0 < block
    → is_written (put block key value c) j ≡ (if same key j then true else is_written c j)
unfolding put
is_written-put block key j value c positive = elim (Bool-cases (same key j)) [
  | inl e ↦ rw e (ground arith)
  | inr e ↦ rw e refl
]

count-put :
    (block : ℕ) (key j : Bytes) (value : Buffer) (c : Contract)
    → count j (put block key value c).key_list
      ≡ (if is_written c key then 0 else one_if_same key j) + count j c.key_list
unfolding put count
count-put block key j value c = elim (Bool-cases (is_written c key)) [
  | inl w ↦ rw w (omega arith)
  | inr w ↦ rw w (omega (arith, count-append j c.key_list (key ∷ [])))
]

-- `put` lists a key when it was not written.
pub put-IsListed :
    (block : ℕ) (key : Bytes) (value : Buffer) (c : Contract)
    → 0 < block
    → IsListed c
    → IsListed (put block key value c)
put-IsListed block key value c positive listed j =
    rw (is_written-put block key j value c positive, count-put block key j value c)
      (elim (Bool-cases (same key j)) [
        | inl e ↦ let eq : key ≡ j = (same_iff key j).0 e in rw (e, ← eq, listed key) (ground arith)
        | inr e ↦ rw (e, listed j) (ground arith)
      ])

put_batch_step :
    (block : ℕ) (keys : List Bytes) (values : List Buffer) (c d : Contract)
    → 0 < block
    → IsListed c
    → IsListed d
    → IsListed (or_reverted c (put_batch block keys values d))
unfolding put_batch
put_batch_step block [] values c d positive before now = now
put_batch_step block (k ∷ keys) [] c d positive before now = before
put_batch_step block (k ∷ keys) (v ∷ values) c d positive before now =
    put_batch_step block keys values c (put block k v d) positive before
      (put-IsListed block k v d positive now)

swap_out_last :
    (key last : Bytes) (i n : ℕ) (keys : List Bytes)
    → index_of key keys ≡ some i
    → length keys ≡ suc n
    → get_elem? keys n ≡ some last
    → swap_out (index_of key keys) keys ≡ some (pop (assign_at i last keys))
unfolding swap_out
swap_out_last key last i n keys found long at_end =
    let one_less : length keys - 1 ≡ n = omega arith in
    let here : get_elem? keys (length keys - 1) ≡ some last = rw one_less at_end in
    rw (found, swap_out, here) refl

-- The keys that a removal leaves.
abbrev IsLeft : Bytes → List Bytes → List Bytes → Type 0
IsLeft key keys left =
    (swap_out (index_of key keys) keys ≡ some left)
    × ((j : Bytes) → count j left + one_if_same key j ≡ count j keys)

swap_out-IsLeft :
    (key : Bytes) (keys : List Bytes)
    → count key keys ≡ 1
    → (left : List Bytes) × IsLeft key keys left
swap_out-IsLeft key keys once =
    let (i, found, here) = index_of-found key keys once in
    let (n, last, long, at_end) = last_of key keys once in
    (
      pop (assign_at i last keys),
      (
        swap_out_last key last i n keys found long at_end,
        λ j. count-swapped j key last i n keys long here at_end,
      ),
    )

abbrev with_left : Bytes → Contract → List Bytes → Contract
with_left key c left = record { key_list = left; data_of = stored c.data_of key no_value }

-- A key that is written is removed: the call does not revert.
pub remove_written :
    (key : Bytes) (c : Contract)
    → IsListed c
    → is_written c key ≡ true
    → (left : List Bytes) × (remove key c ≡ some (with_left key c left))
      × ((j : Bytes) → count j left + one_if_same key j ≡ count j c.key_list)
unfolding remove
remove_written key c listed w =
    let once : count key c.key_list ≡ 1 = listed key ∙ rw w refl in
    let (left, (swapped, counted)) = swap_out-IsLeft key c.key_list once in
    (
      left,
      ap (λ b. if b then with_keys key c (swap_out (index_of key c.key_list) c.key_list) else none)
            w
          ∙ ap (with_keys key c) swapped,
      counted,
    )

pub remove_unwritten : (key : Bytes) (c : Contract) → is_written c key ≡ false → remove key c ≡ none
unfolding remove
remove_unwritten key c w = rw w refl

with_left-IsListed :
    (key : Bytes) (c : Contract) (left : List Bytes)
    → IsListed c
    → is_written c key ≡ true
    → ((j : Bytes) → count j left + one_if_same key j ≡ count j c.key_list)
    → IsListed (with_left key c left)
with_left-IsListed key c left listed w counted j = elim (Bool-cases (same key j)) [
  | inl e ↦
      let eq : key ≡ j = (same_iff key j).0 e in
      let was : count j c.key_list ≡ 1 = listed j ∙ rw (← eq, w) refl in
      let gone : count j left + 1 ≡ count j c.key_list = rw e at (counted j) in
      rw e (omega (arith, was, gone))
  | inr e ↦
      let kept : count j left + 0 ≡ count j c.key_list = rw e at (counted j) in
      rw e (omega (arith, listed j, kept))
]

-- `remove` takes the key it deletes off the list.
remove-IsListed :
    (key : Bytes) (c : Contract) → IsListed c → IsListed (or_reverted c (remove key c))
remove-IsListed key c listed = elim (Bool-cases (is_written c key)) [
  | inl w ↦
      let (left, removed, counted) = remove_written key c listed w in
      rw removed (with_left-IsListed key c left listed w counted)
  | inr w ↦ rw (remove_unwritten key c w) listed
]

pub executed-IsListed :
    (block : ℕ) (call : Call) (c : Contract)
    → 0 < block
    → IsListed c
    → IsListed (executed block call c)
unfolding executed
executed-IsListed block (put_call key value) c positive listed =
    put-IsListed block key value c positive listed
executed-IsListed block (remove_call key) c positive listed = remove-IsListed key c listed
executed-IsListed block (put_batch_call keys values) c positive listed =
    put_batch_step block keys values c c positive listed listed

-- The number of a block is positive: the first one, the genesis block, holds no call.
abbrev pub IsMined : ℕ × Call → Type 0
IsMined entry = 0 < entry.0

run_on-IsListed :
    (calls : List (ℕ × Call)) (c : Contract)
    → All IsMined calls
    → IsListed c
    → IsListed (run calls c)
unfolding run
run_on-IsListed [] c mined listed = listed
run_on-IsListed ((block, call) ∷ calls) c (positive, mined) listed =
    run_on-IsListed calls (executed block call c) mined
      (executed-IsListed block call c positive listed)

pub deployed-IsListed : IsListed deployed
unfolding count
deployed-IsListed j = refl

-- After any calls on a deployed contract, in blocks with a positive number and with the calls that
-- revert among them, the list of the keys has each key that is written exactly once and no other.
pub run-IsListed : (calls : List (ℕ × Call)) → All IsMined calls → IsListed (run calls deployed)
run-IsListed calls mined = run_on-IsListed calls deployed mined deployed-IsListed
