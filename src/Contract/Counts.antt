-- ===== src/Contract/Counts.antt =====
-- How often a key stands in a list, and what the changes of a list do to that.
use blockchain_db.Prelude.{
  ℕ, zero, suc, ◌+◌, ◌≡◌, refl, ◌∙◌, ap, false, some, List, [], ◌∷◌, ◌++◌, length, get_elem?, arith,
  if◌then◌else◌, Bool-cases, inl, inr,
}
use blockchain_db.Prelude.Order.{same, same_iff}
use blockchain_db.Bytes.{Bytes}
use blockchain_db.Bytes.Order.{bytes_ord}
use blockchain_db.Contract.{index_of, assign_at, pop}

abbrev pub one_if_same : Bytes → Bytes → ℕ
one_if_same k j = if same k j then 1 else 0

unfoldable pub count : Bytes → List Bytes → ℕ
count j [] = 0
count j (k ∷ keys) = one_if_same k j + count j keys

pub count-append : (j : Bytes) (ks ls : List Bytes) → count j (ks ++ ls) ≡ count j ks + count j ls
unfolding count
count-append j [] ls = omega arith
count-append j (k ∷ ks) ls = omega (arith, count-append j ks ls)

count-assign_at :
    (j key old : Bytes) (i : ℕ) (keys : List Bytes)
    → get_elem? keys i ≡ some old
    → count j (assign_at i key keys) + one_if_same old j ≡ count j keys + one_if_same key j
unfolding count assign_at
count-assign_at j key old i [] here = cc
count-assign_at j key old zero (k ∷ keys) here = let e : k ≡ old = cc in rw e (omega arith)
count-assign_at j key old (suc i) (k ∷ keys) here =
    omega (arith, count-assign_at j key old i keys here)

count-pop :
    (j last : Bytes) (n : ℕ) (keys : List Bytes)
    → length keys ≡ suc n
    → get_elem? keys n ≡ some last
    → count j (pop keys) + one_if_same last j ≡ count j keys
unfolding count pop
count-pop j last n [] long here = absurd (omega arith)
count-pop j last zero (k ∷ []) long here = let e : k ≡ last = cc in rw e (omega arith)
count-pop j last (suc n) (k ∷ []) long here = absurd (omega arith)
count-pop j last zero (k ∷ l ∷ keys) long here = absurd (omega arith)
count-pop j last (suc n) (k ∷ l ∷ keys) long here =
    omega (arith, count-pop j last n (l ∷ keys) (omega arith) here)

length-assign_at :
    (i : ℕ) (key : Bytes) (keys : List Bytes) → length (assign_at i key keys) ≡ length keys
unfolding assign_at
length-assign_at i key [] = refl
length-assign_at zero key (k ∷ keys) = refl
length-assign_at (suc i) key (k ∷ keys) = omega (arith, length-assign_at i key keys)

-- The last element stays the last one when it is copied to another place.
last-assign_at :
    (i n : ℕ) (last : Bytes) (keys : List Bytes)
    → get_elem? keys n ≡ some last
    → get_elem? (assign_at i last keys) n ≡ some last
unfolding assign_at
last-assign_at i n last [] here = here
last-assign_at zero zero last (k ∷ keys) here = refl
last-assign_at zero (suc n) last (k ∷ keys) here = here
last-assign_at (suc i) zero last (k ∷ keys) here = here
last-assign_at (suc i) (suc n) last (k ∷ keys) here = last-assign_at i n last keys here

-- A list with an element at an index loses that element, whatever the order.
pub count-swapped :
    (j key last : Bytes) (i n : ℕ) (keys : List Bytes)
    → length keys ≡ suc n
    → get_elem? keys i ≡ some key
    → get_elem? keys n ≡ some last
    → count j (pop (assign_at i last keys)) + one_if_same key j ≡ count j keys
count-swapped j key last i n keys long here at_end = omega (
  arith,
  count-pop j last n (assign_at i last keys) (length-assign_at i last keys ∙ long)
      (last-assign_at i n last keys at_end),
  count-assign_at j last key i keys here,
)

count_later :
    (key k : Bytes) (keys : List Bytes)
    → same k key ≡ false
    → count key (k ∷ keys) ≡ 1
    → count key keys ≡ 1
unfolding count
count_later key k keys e there =
    let later : 0 + count key keys ≡ 1 = rw e at there in omega (arith, later)

index_of_later :
    (key k : Bytes) (keys : List Bytes) (i : ℕ)
    → same k key ≡ false
    → index_of key keys ≡ some i
    → index_of key (k ∷ keys) ≡ some (suc i)
unfolding index_of
index_of_later key k keys i e found = rw (e, found) refl

-- A key that stands in the list is found.
pub index_of-found :
    (key : Bytes) (keys : List Bytes)
    → count key keys ≡ 1
    → (i : ℕ) × (index_of key keys ≡ some i) × (get_elem? keys i ≡ some key)
unfolding count index_of
index_of-found key [] there = absurd (omega arith)
index_of-found key (k ∷ keys) there = elim (Bool-cases (same k key)) [
  | inl e ↦ (0, rw e refl, ap some ((same_iff k key).0 e))
  | inr e ↦
      let (i, found, here) = index_of-found key keys (count_later key k keys e there) in
      (suc i, index_of_later key k keys i e found, here)
]

-- It has a last element.
pub last_of :
    (key : Bytes) (keys : List Bytes)
    → count key keys ≡ 1
    → (n : ℕ) × (last : Bytes) × (length keys ≡ suc n) × (get_elem? keys n ≡ some last)
unfolding count
last_of key [] there = absurd (omega arith)
last_of key (k ∷ keys) there = (length keys, (at_end k keys).0, refl, (at_end k keys).1)
  where
    at_end :
        (k : Bytes) (keys : List Bytes)
        → (last : Bytes) × (get_elem? (k ∷ keys) (length keys) ≡ some last)
    at_end k [] = (k, refl)
    at_end k (l ∷ keys) = at_end l keys
