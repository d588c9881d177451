-- ===== src/Bytes/Order.antt =====
-- `operator==` decides equality, and `operator<` is a strict total order, so that BYTES can be a key
-- of `std::map`.
use blockchain_db.Prelude.{ℕ, ◌≡◌, refl, ◌↔◌, true, false, List, [], ◌∷◌, length, arith}
use blockchain_db.Prelude.Order.{IsStrict, Ord}
use blockchain_db.Bytes.{Bytes, eq_loop, bytes_eq, lt_loop, bytes_lt}

eq_of_value : (a b : Bytes) → a.value ≡ b.value → a ≡ b
eq_of_value a b e = λ i. record { value = e i }

eq_loop_sound : (xs ys : List ℕ) → length xs ≡ length ys → eq_loop xs ys ≡ true → xs ≡ ys
unfolding eq_loop
eq_loop_sound [] [] h e = refl
eq_loop_sound [] (y ∷ ys) h e = absurd (omega arith)
eq_loop_sound (x ∷ xs) [] h e = absurd (omega arith)
eq_loop_sound (x ∷ xs) (y ∷ ys) h e = ground (arith, eq_loop_sound xs ys)

eq_loop_refl : (xs : List ℕ) → eq_loop xs xs ≡ true
unfolding eq_loop
eq_loop_refl [] = refl
eq_loop_refl (x ∷ xs) = ground (arith, eq_loop_refl xs)

bytes_eq_sound : (a b : Bytes) → bytes_eq a b ≡ true → a ≡ b
unfolding bytes_eq
bytes_eq_sound a b h = eq_of_value a b (ground (arith, eq_loop_sound a.value b.value))

bytes_eq_refl : (a : Bytes) → bytes_eq a a ≡ true
unfolding bytes_eq
bytes_eq_refl a = ground (arith, eq_loop_refl a.value)

-- `operator==` on BYTES answers true exactly on equal sizes and contents.
pub bytes_eq_iff : (a b : Bytes) → (bytes_eq a b ≡ true) ↔ (a ≡ b)
bytes_eq_iff a b = (bytes_eq_sound a b, λ e. rw e (bytes_eq_refl b))

lt_loop_irrefl : (xs : List ℕ) → lt_loop xs xs ≡ false
unfolding lt_loop
lt_loop_irrefl [] = refl
lt_loop_irrefl (x ∷ xs) = ground (arith, lt_loop_irrefl xs)

lt_loop_trans :
    (xs ys zs : List ℕ)
    → length xs ≡ length ys
    → lt_loop xs ys ≡ true
    → lt_loop ys zs ≡ true
    → lt_loop xs zs ≡ true
unfolding lt_loop
lt_loop_trans [] ys zs e h k = cc
lt_loop_trans (x ∷ xs) [] zs e h k = cc
lt_loop_trans (x ∷ xs) (y ∷ ys) [] e h k = cc
lt_loop_trans (x ∷ xs) (y ∷ ys) (z ∷ zs) e h k = ground (arith, lt_loop_trans xs ys zs)

lt_loop_total :
    (xs ys : List ℕ)
    → length xs ≡ length ys
    → lt_loop xs ys ≡ false
    → lt_loop ys xs ≡ false
    → xs ≡ ys
unfolding lt_loop
lt_loop_total [] [] e h k = refl
lt_loop_total [] (y ∷ ys) e h k = absurd (omega arith)
lt_loop_total (x ∷ xs) [] e h k = absurd (omega arith)
lt_loop_total (x ∷ xs) (y ∷ ys) e h k = ground (arith, lt_loop_total xs ys)

bytes_lt_irrefl : (a : Bytes) → bytes_lt a a ≡ false
unfolding bytes_lt
bytes_lt_irrefl a = ground (arith, lt_loop_irrefl a.value)

bytes_lt_trans : (a b c : Bytes) → bytes_lt a b ≡ true → bytes_lt b c ≡ true → bytes_lt a c ≡ true
unfolding bytes_lt
bytes_lt_trans a b c h k = ground (arith, lt_loop_trans a.value b.value c.value)

bytes_lt_total : (a b : Bytes) → bytes_lt a b ≡ false → bytes_lt b a ≡ false → a ≡ b
unfolding bytes_lt
bytes_lt_total a b h k = eq_of_value a b (ground (arith, lt_loop_total a.value b.value))

-- `operator<` on BYTES is a strict total order: irreflexive, transitive, and two values neither of
-- which is less than the other are equal.
pub bytes_lt-IsStrict : IsStrict bytes_lt
bytes_lt-IsStrict = record {
  irrefl = bytes_lt_irrefl;
  lt_trans = bytes_lt_trans;
  eq_of_not_lt = bytes_lt_total;
}

instance unfoldable pub bytes_ord : Ord Bytes
bytes_ord = record { lt = bytes_lt; strict = bytes_lt-IsStrict }
