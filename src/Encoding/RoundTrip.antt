-- ===== src/Encoding/RoundTrip.antt =====
-- Each decoder undoes its encoder, and what the decoders refuse.
use blockchain_db.Prelude.{
  ℕ, zero, suc, ◌+◌, ◌-◌, ◌*◌, ◌/◌, ◌%◌, ◌^◌, ◌≤◌, ◌<◌, ◌≡◌, ◌≢◌, refl, sym, ◌∙◌, ap, [], ◌∷◌, ◌++◌,
  arith, false, length, replicate, pos, All, ok, fault, runtime_error, append-nil, ltb, lt→ltb, ◌≤◌,
  Bool-cases, inl, inr, length-append, length-replicate, drop_of_length-le,
}
use blockchain_db.Bytes.{IsByte}
use blockchain_db.Text.{Text}
use blockchain_db.Table.{Buffer, memcpy_within}
use blockchain_db.Encoding.{
  hex_digit, byte_array_to_hex, hex_to_char_array, hex_to_byte_array, hex_to_string, string_to_hex,
  int_to_hex, hex_to_int, int_of, signed, skip_space, pairs, read_byte, read_digits, as_int,
  hex_digits,
}
use blockchain_db.Encoding.Digits.{
  read_digits-hex_digit, signed-hex_digit, unprefixed-hex_digit, read_digits-hex_digits,
  read_digits-replicate, skip_space-hex_digit, IsNumeral, one, many, signed-IsNumeral,
  hex_digits-IsNumeral, replicate-IsNumeral,
}

nothing_more : (n : ℕ) → read_digits [] n ≡ n
unfolding read_digits
nothing_more n = refl

read_byte-pair : (b : ℕ) → IsByte b → read_byte (hex_digit (b / 16) ∷ hex_digit (b % 16) ∷ []) ≡ b
unfolding read_digits
read_byte-pair b byte =
    rw
      (
        skip_space-hex_digit (b / 16) (hex_digit (b % 16) ∷ []) (omega arith),
        signed-hex_digit (b / 16) (hex_digit (b % 16) ∷ []) (omega arith),
        unprefixed-hex_digit (b / 16) (b % 16) [] (omega arith),
        read_digits-hex_digit (b / 16) 0 (hex_digit (b % 16) ∷ []) (omega arith),
        read_digits-hex_digit (b % 16) (0 * 16 + b / 16) [] (omega arith),
      )
      (omega arith)

pairs-byte_array_to_hex : (bs : Buffer) → All IsByte bs → pairs (byte_array_to_hex bs) ≡ bs
unfolding pairs byte_array_to_hex
pairs-byte_array_to_hex [] bytes = refl
pairs-byte_array_to_hex (b ∷ bs) (byte, bytes) =
    rw (read_byte-pair b byte, pairs-byte_array_to_hex bs bytes) refl

pub length-byte_array_to_hex : (bs : Buffer) → length (byte_array_to_hex bs) ≡ 2 * length bs
unfolding byte_array_to_hex
length-byte_array_to_hex [] = omega arith
length-byte_array_to_hex (b ∷ bs) = omega (arith, length-byte_array_to_hex bs)

-- Bytes written as hexadecimal text and read into a buffer of their number are the bytes again.
pub hex_to_byte_array-byte_array_to_hex :
    (bs out : Buffer)
    → All IsByte bs
    → length out ≡ length bs
    → hex_to_byte_array (byte_array_to_hex bs) out ≡ ok bs
unfolding hex_to_byte_array hex_to_char_array
hex_to_byte_array-byte_array_to_hex bs out bytes room =
    let even : length (byte_array_to_hex bs) % 2 ≡ 0 = omega (arith, length-byte_array_to_hex bs) in
    rw
      (
        even,
        pairs-byte_array_to_hex bs bytes,
        memcpy_within out 0 bs (omega arith),
        drop_of_length-le (0 + length bs) out (omega arith),
        append-nil,
      )
      refl

-- A text with an odd number of characters throws.
pub hex_to_byte_array_odd :
    (s : Text) (out : Buffer) → length s % 2 ≢ 0 → hex_to_byte_array s out ≡ fault runtime_error
unfolding hex_to_byte_array hex_to_char_array
hex_to_byte_array_odd s out odd = let one : length s % 2 ≡ 1 = omega arith in rw one refl

-- A text of bytes none of which is zero, written as hexadecimal text and read again, is the text.
pub hex_to_string-string_to_hex :
    (s : Text) → All IsByte s → All (λ c. c ≢ 0) s → hex_to_string (string_to_hex s) ≡ s
unfolding hex_to_string byte_array_to_hex
hex_to_string-string_to_hex [] bytes nonzero = refl
hex_to_string-string_to_hex (b ∷ s) (byte, bytes) (h, nonzero) =
    rw (read_byte-pair b byte, hex_to_string-string_to_hex s bytes nonzero) (ground arith)

int_of-signed : (s : Text) → s ≢ [] → int_of s ≡ ok (as_int (signed s))
unfolding int_of
int_of-signed [] h = absurd (h refl)
int_of-signed (c ∷ cs) h = refl

int_of-IsNumeral : (s : Text) → IsNumeral s → hex_to_int s ≡ ok (as_int (false, read_digits s 0))
unfolding hex_to_int
int_of-IsNumeral s h =
    int_of-signed (skip_space s) (starts s h) ∙ ap (λ v. ok (as_int v)) (signed-IsNumeral s h)
  where
    starts : (s : Text) → IsNumeral s → skip_space s ≢ []
    starts s (one d h split) e = cc (skip_space-hex_digit d [] h)
    starts s (many d e rest h g split) q = cc (skip_space-hex_digit d (hex_digit e ∷ rest) h)

length-hex_digits : (fuel n : ℕ) → length (hex_digits fuel n) ≤ fuel
unfolding hex_digits
length-hex_digits zero n = omega arith
length-hex_digits (suc fuel) n = elim (Bool-cases (ltb n 16)) [
  | inl e ↦ rw e (omega arith)
  | inr e ↦
      rw (e, length-append (hex_digits fuel (n / 16)) (hex_digit (n % 16) ∷ []))
        (omega (arith, length-hex_digits fuel (n / 16)))
]

pub length-int_to_hex : (n : ℕ) → length (int_to_hex n 64) ≡ 64
unfolding int_to_hex
length-int_to_hex n = omega (
  arith,
  length-append (replicate (64 - length (hex_digits 16 n)) 48) (hex_digits 16 n),
  length-replicate {A = ℕ} (64 - length (hex_digits 16 n)) 48,
  length-hex_digits 16 n,
)

read_digits-padded :
    (k num : ℕ) → num < 2 ^ 64 → read_digits (replicate k 48 ++ hex_digits 16 num) 0 ≡ num
read_digits-padded k num small =
    read_digits-replicate k (hex_digits 16 num)
    ∙ ap (λ t. read_digits t 0) (sym (append-nil (hex_digits 16 num)))
    ∙ read_digits-hex_digits 16 num [] (omega arith)
    ∙ nothing_more num

-- What a number of 64 bits reads as.
pub signed-int_to_hex :
    (num size : ℕ) → num < 2 ^ 64 → signed (skip_space (int_to_hex num size)) ≡ (false, num)
unfolding int_to_hex
signed-int_to_hex num size small =
    let k = size - length (hex_digits 16 num) in
    signed-IsNumeral (replicate k 48 ++ hex_digits 16 num)
      (replicate-IsNumeral k (hex_digits 16 num) (hex_digits-IsNumeral 15 num))
    ∙ ap (λ n. (false, n)) (read_digits-padded k num small)

-- A number below 2 ^ 31 written in any width and read again is the number.
pub hex_to_int-int_to_hex :
    (num size : ℕ) → num < 2 ^ 31 → hex_to_int (int_to_hex num size) ≡ ok (pos num)
unfolding int_to_hex
hex_to_int-int_to_hex num size small =
    let k = size - length (hex_digits 16 num) in
    int_of-IsNumeral (replicate k 48 ++ hex_digits 16 num)
      (replicate-IsNumeral k (hex_digits 16 num) (hex_digits-IsNumeral 15 num))
    ∙ rw (read_digits-padded k num (omega arith), lt→ltb num (2 ^ 31) small) refl
