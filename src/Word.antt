-- ===== src/Word.antt =====
-- adapter/ethereum/adapter/src/adapter_ethereum.cpp: `convert_to_32byte`, which fills a hexadecimal
-- text up with zeros behind it to the 64 characters of a word.
pub mod Padding
use blockchain_db.Prelude.{ℕ, ◌-◌, ◌++◌, length, replicate, ltb, if◌then◌else◌, Result}
use blockchain_db.Text.{Text, substr}

-- VALUE_SIZE.
abbrev pub value_size : ℕ
value_size = 64

-- The width of the zeros. A width that is not positive still leaves the one '0' that is written;
-- past VALUE_SIZE the difference wraps to a negative width.
abbrev pub width : ℕ → ℕ
width n = if ltb n value_size then value_size - n else 1

unfoldable pub convert_to_32byte : Text → Result Text
convert_to_32byte data_hex =
    substr (data_hex ++ replicate (width (length data_hex)) 48) 0 value_size
