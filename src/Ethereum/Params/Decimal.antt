-- ===== src/Ethereum/Params/Decimal.antt =====
-- `std::to_string` gives different numbers different texts.
use native.Mathlib.Numerals.{unary_clauses}
use blockchain_db.Prelude.{
  ℕ, zero, suc, ◌+◌, ◌-◌, ◌*◌, ◌/◌, ◌%◌, ◌^◌, ◌<◌, ◌≡◌, refl, sym, ◌∙◌, ap, [], ◌∷◌, ◌++◌, ltb,
  arith, Bool-cases, inl, inr,
}
use blockchain_db.Text.{Text}
use blockchain_db.Ethereum.Params.{decimal, to_string}

-- The number of a text of digits.
value_of_digits : ℕ → Text → ℕ
value_of_digits n [] = n
value_of_digits n (c ∷ cs) = value_of_digits (n * 10 + (c - 48)) cs

value_of_digits-append :
    (n c : ℕ) (s : Text) → value_of_digits n (s ++ c ∷ []) ≡ value_of_digits n s * 10 + (c - 48)
unfolding value_of_digits
value_of_digits-append n c [] = refl
value_of_digits-append n c (d ∷ s) = value_of_digits-append (n * 10 + (d - 48)) c s

value_of_digits-decimal : (fuel n : ℕ) → n < 10 ^ fuel → value_of_digits 0 (decimal fuel n) ≡ n
unfolding decimal value_of_digits
value_of_digits-decimal zero n small = omega arith
value_of_digits-decimal (suc fuel) n small = elim (Bool-cases (ltb n 10)) [
  | inl e ↦ rw e (omega arith)
  | inr e ↦
      let less : n / 10 < 10 ^ fuel = omega (arith, simp unary_clauses at small) in
      rw e (
        value_of_digits-append 0 (48 + n % 10) (decimal fuel (n / 10))
        ∙ rw (value_of_digits-decimal fuel (n / 10) less) (omega arith))
]

pub to_string-injective : (m n : ℕ) → m < 2 ^ 64 → n < 2 ^ 64 → to_string m ≡ to_string n → m ≡ n
unfolding to_string
to_string-injective m n small_m small_n e =
    sym (value_of_digits-decimal 20 m (omega arith))
    ∙ ap (value_of_digits 0) e
    ∙ value_of_digits-decimal 20 n (omega arith)
