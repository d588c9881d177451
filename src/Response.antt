-- ===== src/Response.antt =====
-- adapter/ethereum/adapter/src/adapter_ethereum.cpp: `split`, which takes the answer of the contract's
-- tableScan apart: words of 64 characters for two offsets, the number of the keys and the keys, one
-- more word, and then the values, each with the token "23232323" ('####') after it.
pub mod Clear
pub mod Values
pub mod Whole
use blockchain_db.Prelude.{
  ℕ, zero, suc, ◌+◌, ◌*◌, ◌/◌, Option, none, some, List, [], ◌∷◌, length, take, drop, replicate, ℤ,
  pos, negsuc, Result, ok, fault, out_of_range, length_error, ◌>>=◌,
}
use blockchain_db.Bytes.{Bytes}
use blockchain_db.Bytes.Order.{bytes_ord}
use blockchain_db.Text.{Text, codes, find, substr, substr_from}
use blockchain_db.Map.{Map, emplace}
use blockchain_db.Adapter.{Batch}
use blockchain_db.Encoding.{hex_to_int, hex_to_byte_array}

abbrev pub token : Text
token = codes "23232323"

-- The loop over the keys, from the i-th on.
pub read_keys : Text → ℕ → ℕ → ℕ → Result (List Text)
read_keys response split_length i zero = ok []
read_keys response split_length i (suc n) = do
  key ← substr response ((i + 3) * split_length) split_length
  keys ← read_keys response split_length (suc i) n
  ok (key ∷ keys)

-- The loop over the values: up to the next token, past which it goes on. Where `find` has found the
-- token neither `substr` throws. The fuel is a bound of the length, which each turn makes less.
pub split_values : ℕ → Text → List Text
split_values zero result = []
split_values (suc fuel) [] = []
split_values (suc fuel) (c ∷ cs) = elim (find token (c ∷ cs)) [
  | none ↦ []
  | some index ↦ take index (c ∷ cs) ∷ split_values fuel (drop (index + length token) (c ∷ cs))
]

-- A text's bytes, in a new array of half its length.
pub decoded : Text → Result Bytes
decoded s = do
  value ← hex_to_byte_array s (replicate (length s / 2) 0)
  ok (record { value = value })

-- The loop that fills the map; `values.at(i)` throws where there are fewer values than keys.
pub fill : List Text → List Text → Batch → Result Batch
unfolding decoded
fill [] values ret = ok ret
fill (k ∷ keys) [] ret = fault out_of_range
fill (k ∷ keys) (v ∷ values) ret = do
  key_byte ← decoded k
  value_byte ← decoded v
  fill keys values (emplace key_byte value_byte ret)

-- The number of the keys as an unsigned long; `reserve` throws for one that was negative.
pub split_count : Text → ℕ → ℤ → Result Batch
unfolding read_keys split_values fill
split_count response split_length (negsuc n) = fault length_error
split_count response split_length (pos num_keys_values) = do
  keys ← read_keys response split_length 0 num_keys_values
  parsed_values ← substr_from response ((num_keys_values + 4) * split_length)
  fill keys (split_values (suc (length parsed_values)) parsed_values) []

pub split : Text → ℕ → Result Batch
unfolding split_count
split [] split_length = ok []
split (c ∷ cs) split_length = do
  count ← substr (c ∷ cs) (split_length * 2) split_length
  num_keys_values ← hex_to_int count
  split_count (c ∷ cs) split_length num_keys_values
