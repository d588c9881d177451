-- ===== src/Encoding.antt =====
-- adapter/utils/src/encoding_helpers.cpp: bytes and numbers as hexadecimal text, and back. A text is
-- read as the C++ streams and `strtol` read it in base 16: white space, a sign, "0x", then digits up to
-- the first character that is none; with no digit the value is 0.
pub mod Bounds
pub mod Digits
pub mod RoundTrip
use blockchain_db.Prelude.{
  ℕ, zero, suc, ◌+◌, ◌-◌, ◌*◌, ◌/◌, ◌%◌, ◌^◌, Bool, true, false, Option, none, some, List, [], ◌∷◌,
  ◌++◌, length, replicate, ltb, leb, ◌==◌, ◌||◌, ◌&&◌, if◌then◌else◌, ℤ, pos, negsuc, Result, ok,
  fault, runtime_error, undefined, ◌>>=◌,
}
use blockchain_db.Text.{Text}
use blockchain_db.Table.{Buffer, memcpy}

-- The character of a digit below 16: '0' to '9', 'a' to 'f'.
unfoldable pub hex_digit : ℕ → ℕ
hex_digit d = if ltb d 10 then 48 + d else 87 + d

-- The digit of a character, in either case.
unfoldable pub hex_value : ℕ → Option ℕ
hex_value c =
    if leb 48 c && leb c 57
    then some (c - 48)
    else if leb 97 c && leb c 102
    then some (c - 87)
    else if leb 65 c && leb c 70
    then some (c - 55)
    else none

pub read_digits : Text → ℕ → ℕ
read_digits [] acc = acc
read_digits (c ∷ cs) acc = elim (hex_value c) [
  | none ↦ acc
  | some d ↦ read_digits cs (acc * 16 + d)
]

-- ' ', and '\t' to '\r'.
abbrev pub is_space : ℕ → Bool
is_space c = (c == 32) || leb 9 c && leb c 13

pub skip_space : Text → Text
skip_space [] = []
skip_space (c ∷ cs) = let rest = skip_space cs in if is_space c then rest else c ∷ cs

-- Without the prefix of a hexadecimal number.
pub unprefixed : Text → Text
unprefixed [] = []
unprefixed (a ∷ []) = a ∷ []
unprefixed (a ∷ c ∷ s) = if (a == 48) && ((c == 120) || (c == 88)) then s else a ∷ c ∷ s

abbrev pub read_number : Text → ℕ
read_number s = read_digits (unprefixed s) 0

-- A minus sign and the digits' value.
pub signed : Text → Bool × ℕ
unfolding read_digits unprefixed
signed [] = (false, 0)
signed (c ∷ cs) =
    if c == 45
    then (true, read_number cs)
    else if c == 43
    then (false, read_number cs)
    else (false, read_number (c ∷ cs))

-- The value as an unsigned char.
abbrev pub as_byte : Bool × ℕ → ℕ
as_byte (false, v) = v % 256
as_byte (true, v) = (256 - v % 256) % 256

-- The value as an int, which is its largest or least one where it does not fit.
abbrev pub as_int : Bool × ℕ → ℤ
as_int (false, v) = if ltb v (2 ^ 31) then pos v else pos (2 ^ 31 - 1)
as_int (true, zero) = pos 0
as_int (true, suc v) = if ltb v (2 ^ 31) then negsuc v else negsuc (2 ^ 31 - 1)

abbrev pub read_byte : Text → ℕ
read_byte s = as_byte (signed (skip_space s))

-- The digits of a size_t; 16 of them are enough.
unfoldable pub hex_digits : ℕ → ℕ → Text
unfolding hex_digit
hex_digits zero n = []
hex_digits (suc fuel) n =
    let high = hex_digits fuel (n / 16) in
    if ltb n 16 then hex_digit n ∷ [] else high ++ hex_digit (n % 16) ∷ []

-- `std::setw(size) << std::setfill('0')`.
abbrev pub pad : ℕ → Text → Text
pad size s = replicate (size - length s) 48 ++ s

unfoldable pub int_to_hex : ℕ → ℕ → Text
unfolding hex_digits
int_to_hex num size = pad size (hex_digits 16 num)

-- With nothing but white space the variable is never set.
pub int_of : Text → Result ℤ
unfolding signed
int_of [] = fault undefined
int_of (c ∷ cs) = ok (as_int (signed (c ∷ cs)))

pub hex_to_int : Text → Result ℤ
unfolding int_of skip_space
hex_to_int hex = int_of (skip_space hex)

-- The length is an unsigned: the model, which takes the whole list, is right for fewer than 2 ^ 32 bytes.
unfoldable pub byte_array_to_hex : Buffer → Text
unfolding hex_digit
byte_array_to_hex [] = []
byte_array_to_hex (b ∷ bs) = hex_digit (b / 16) ∷ hex_digit (b % 16) ∷ byte_array_to_hex bs

abbrev pub string_to_hex : Text → Text
string_to_hex s = byte_array_to_hex s

-- The loop over the pairs of characters.
pub pairs : Text → Buffer
unfolding signed skip_space
pairs [] = []
pairs (c ∷ []) = []
pairs (c ∷ d ∷ s) = read_byte (c ∷ d ∷ []) ∷ pairs s

pub hex_to_char_array : Text → Buffer → Result (ℕ × Buffer)
unfolding pairs
hex_to_char_array s out =
    if (length s % 2) == 0
    then (do written ← memcpy out 0 (pairs s); ok (0, written))
    else ok (1, out)

pub hex_to_byte_array : Text → Buffer → Result Buffer
unfolding hex_to_char_array
hex_to_byte_array s out = do
  (error, written) ← hex_to_char_array s out
  if error == 1 then fault runtime_error else ok written

-- The bytes of the pairs, the last of which may be one character, but for the zeros.
pub hex_to_string : Text → Text
unfolding signed skip_space
hex_to_string [] = []
hex_to_string (c ∷ []) = let b = read_byte (c ∷ []) in if b == 0 then [] else b ∷ []
hex_to_string (c ∷ d ∷ s) =
    let rest = hex_to_string s in
    let b = read_byte (c ∷ d ∷ []) in if b == 0 then rest else b ∷ rest
