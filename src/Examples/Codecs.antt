-- ===== src/Examples/Codecs.antt =====
-- A row of a scan, and the encodings at concrete texts.
use blockchain_db.Prelude.{
  ℕ, zero, suc, ◌≡◌, refl, [], ◌∷◌, ◌++◌, replicate, All, ok, arith, none, ◌↔◌,
}
use blockchain_db.Bytes.{IsByte}
use blockchain_db.Bytes.Order.{bytes_ord}
use blockchain_db.Text.{Text, codes, find}
use blockchain_db.Table.{Buffer}
use blockchain_db.Encoding.{byte_array_to_hex, hex_digit}
use blockchain_db.Word.{convert_to_32byte}
use blockchain_db.Word.Padding.{convert_to_32byte_lem}
use blockchain_db.Response.{token, split_values}
use blockchain_db.Response.Clear.{short_token, split_values_iff}
use blockchain_db.Response.Whole.{IsStored}

abbrev key_of : ℕ → Buffer
key_of n = n ∷ replicate 31 0

-- 31 bytes of zero are bytes.
zeros_bytes : (n : ℕ) → All IsByte (replicate n 0)
zeros_bytes zero = tt
zeros_bytes (suc n) = (omega arith, zeros_bytes n)

pub five-IsStored : IsStored (key_of 5, 5 ∷ 6 ∷ [])
unfolding byte_array_to_hex hex_digit find
five-IsStored = record {
  of_32 = refl;
  key_bytes = (omega arith, zeros_bytes 31);
  value_bytes = (omega arith, (omega arith, tt));
  clear = λ rest. refl;
}

convert_to_32byte_lem_example :
    convert_to_32byte (codes "abcd") ≡ ok (codes "abcd" ++ replicate 60 48)
convert_to_32byte_lem_example = convert_to_32byte_lem (codes "abcd")

-- The byte of '#' at the end of a value is one that does not come back.
split_values_iff_example : (find token (codes "050623" ++ short_token) ≡ none) ↔ (
    (fuel : ℕ) (rest : Text)
    → split_values (suc fuel) (codes "050623" ++ (token ++ rest))
      ≡ codes "050623" ∷ split_values fuel rest)
split_values_iff_example = split_values_iff (codes "050623")
