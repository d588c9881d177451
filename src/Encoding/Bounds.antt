-- ===== src/Encoding/Bounds.antt =====
-- What the decoder of bytes gives for any text.
use blockchain_db.Prelude.{
  ℕ, ◌+◌, ◌/◌, ◌%◌, ◌≡◌, refl, Bool, true, false, [], ◌∷◌, length, replicate, All, ok, fault,
  runtime_error, arith, append-nil, length-replicate, drop_of_length-le, if◌then◌else◌, ◌==◌,
  Bool-cases, inl, inr,
}
use blockchain_db.Bytes.{IsByte}
use blockchain_db.Text.{Text}
use blockchain_db.Table.{memcpy_within}
use blockchain_db.Encoding.{
  as_byte, signed, skip_space, pairs, hex_to_char_array, hex_to_byte_array,
}

as_byte-IsByte : (sign : Bool) (v : ℕ) → IsByte (as_byte (sign, v))
as_byte-IsByte false v = omega arith
as_byte-IsByte true v = omega arith

pub pairs-IsByte : (s : Text) → All IsByte (pairs s)
unfolding pairs
pairs-IsByte [] = tt
pairs-IsByte (c ∷ []) = tt
pairs-IsByte (c ∷ d ∷ s) =
    let (sign, v) = signed (skip_space (c ∷ d ∷ [])) in (as_byte-IsByte sign v, pairs-IsByte s)

length-pairs : (s : Text) → length (pairs s) ≡ length s / 2
unfolding pairs
length-pairs [] = refl
length-pairs (c ∷ []) = refl
length-pairs (c ∷ d ∷ s) = omega (arith, length-pairs s)

-- A text with an even number of characters fills a new array of half its length with the values of its
-- pairs; any other throws.
pub hex_to_byte_array_new :
    (s : Text)
    → hex_to_byte_array s (replicate (length s / 2) 0)
      ≡ (if (length s % 2) == 0 then ok (pairs s) else fault runtime_error)
unfolding hex_to_byte_array hex_to_char_array
hex_to_byte_array_new s = elim (Bool-cases ((length s % 2) == 0)) [
  | inl e ↦
      rw
        (
          e,
          memcpy_within (replicate (length s / 2) 0) 0 (pairs s)
              (omega (arith, length-pairs s, length-replicate {A = ℕ} (length s / 2) 0)),
          drop_of_length-le {A = ℕ} (0 + length (pairs s)) (replicate (length s / 2) 0)
              (omega (arith, length-pairs s, length-replicate {A = ℕ} (length s / 2) 0)),
          append-nil,
        )
        refl
  | inr e ↦ rw e refl
]
