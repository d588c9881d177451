-- ===== src/Encoding/Digits.antt =====
-- Digits written and read: a text of digits has the value that they stand for.
use blockchain_db.Prelude.{
  ℕ, zero, suc, ◌+◌, ◌*◌, ◌/◌, ◌%◌, ◌^◌, ◌<◌, ◌≡◌, refl, ◌∙◌, some, [], ◌∷◌, ◌++◌, arith, false,
  replicate, Bool-cases, inl, inr, ltb, ltb→lt, ap, append_assoc,
}
use native.Mathlib.Omega.{pow_step}
use blockchain_db.Text.{Text}
use blockchain_db.Encoding.{
  hex_digit, hex_value, read_digits, skip_space, signed, unprefixed, read_number, hex_digits,
}

hex_value-hex_digit : (d : ℕ) → d < 16 → hex_value (hex_digit d) ≡ some d
unfolding hex_value hex_digit
hex_value-hex_digit d small = ground arith

-- What a text of digits reads as, from its first digit on.
pub read_digits-hex_digit :
    (d acc : ℕ) (s : Text)
    → d < 16
    → read_digits (hex_digit d ∷ s) acc ≡ read_digits s (acc * 16 + d)
unfolding read_digits
read_digits-hex_digit d acc s small = rw (hex_value-hex_digit d small, read_digits) refl

-- A digit is no sign and no white space.
pub signed-hex_digit :
    (d : ℕ) (s : Text) → d < 16 → signed (hex_digit d ∷ s) ≡ (false, read_number (hex_digit d ∷ s))
unfolding signed hex_digit
signed-hex_digit d s small = ground arith

-- The second of two digits is no 'x'.
pub unprefixed-hex_digit :
    (d e : ℕ) (s : Text)
    → e < 16
    → unprefixed (hex_digit d ∷ hex_digit e ∷ s) ≡ hex_digit d ∷ hex_digit e ∷ s
unfolding unprefixed hex_digit
unprefixed-hex_digit d e s small = ground arith

pub skip_space-hex_digit :
    (d : ℕ) (s : Text) → d < 16 → skip_space (hex_digit d ∷ s) ≡ hex_digit d ∷ s
unfolding skip_space hex_digit
skip_space-hex_digit d s small = ground arith

-- A text that starts with a digit, and after it ends or goes on with another.
pub data IsNumeral (s : Text) : Type 0 where
  one : (d : ℕ) → d < 16 → s ≡ hex_digit d ∷ [] → IsNumeral s
  many :
      (d e : ℕ) (rest : Text) → d < 16 → e < 16 → s ≡ hex_digit d ∷ hex_digit e ∷ rest → IsNumeral s

longer : (s : Text) (e : ℕ) → e < 16 → IsNumeral s → IsNumeral (s ++ hex_digit e ∷ [])
longer s e small (one d h split) = many d e [] h small (rw split refl)
longer s e small (many d f rest h g split) = many d f (rest ++ hex_digit e ∷ []) h g (rw split refl)

pub hex_digits-IsNumeral : (fuel n : ℕ) → IsNumeral (hex_digits (suc fuel) n)
unfolding hex_digits
hex_digits-IsNumeral zero n = elim (Bool-cases (ltb n 16)) [
  | inl e ↦ one n (ltb→lt n 16 e) (rw e refl)
  | inr e ↦ one (n % 16) (omega arith) (rw e refl)
]
hex_digits-IsNumeral (suc fuel) n =
    let high = hex_digits-IsNumeral fuel (n / 16) in
    elim (Bool-cases (ltb n 16)) [
      | inl e ↦ one n (ltb→lt n 16 e) (rw e refl)
      | inr e ↦ rw e (longer (hex_digits (suc fuel) (n / 16)) (n % 16) (omega arith) high)
    ]

zero_before : (s : Text) → IsNumeral s → IsNumeral (48 ∷ s)
unfolding hex_digit
zero_before s (one d h split) = many 0 d [] (omega arith) h (rw split refl)
zero_before s (many d e rest h g split) =
    many 0 d (hex_digit e ∷ rest) (omega arith) h (rw split refl)

pub replicate-IsNumeral : (k : ℕ) (s : Text) → IsNumeral s → IsNumeral (replicate k 48 ++ s)
replicate-IsNumeral zero s h = h
replicate-IsNumeral (suc k) s h = zero_before (replicate k 48 ++ s) (replicate-IsNumeral k s h)

-- A numeral is read from its first digit on.
pub signed-IsNumeral : (s : Text) → IsNumeral s → signed (skip_space s) ≡ (false, read_digits s 0)
unfolding unprefixed
signed-IsNumeral s (one d h split) =
    rw (split, skip_space-hex_digit d [] h, signed-hex_digit d [] h) refl
signed-IsNumeral s (many d e rest h g split) =
    rw
      (
        split,
        skip_space-hex_digit d (hex_digit e ∷ rest) h,
        signed-hex_digit d (hex_digit e ∷ rest) h,
        unprefixed-hex_digit d e rest g,
      )
      refl

-- The digits of a number that they are enough for, before any text.
pub read_digits-hex_digits :
    (fuel n : ℕ) (s : Text)
    → n < 16 ^ fuel
    → read_digits (hex_digits fuel n ++ s) 0 ≡ read_digits s n
unfolding hex_digits
read_digits-hex_digits zero n s fits = ap (read_digits s) (omega arith)
read_digits-hex_digits (suc fuel) n s fits = elim (Bool-cases (ltb n 16)) [
  | inl e ↦ rw e (read_digits-hex_digit n 0 s (ltb→lt n 16 e) ∙ ap (read_digits s) (omega arith))
  | inr e ↦
      rw (e, append_assoc)
        (read_digits-hex_digits fuel (n / 16) (hex_digit (n % 16) ∷ s)
            (omega (arith, pow_step 16 fuel))
          ∙ read_digits-hex_digit (n % 16) (n / 16) s (omega arith)
          ∙ ap (read_digits s) (omega arith))
]

pub read_digits-replicate :
    (k : ℕ) (s : Text) → read_digits (replicate k 48 ++ s) 0 ≡ read_digits s 0
unfolding hex_digit
read_digits-replicate zero s = refl
read_digits-replicate (suc k) s =
    read_digits-hex_digit 0 0 (replicate k 48 ++ s) (omega arith) ∙ read_digits-replicate k s
