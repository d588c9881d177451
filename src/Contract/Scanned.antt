-- ===== src/Contract/Scanned.antt =====
-- What a scan of the contract gives to its reader.
use blockchain_db.Prelude.{
  ℕ, zero, suc, ◌+◌, ◌-◌, ◌*◌, ◌%◌, ◌≡◌, refl, ◌∙◌, ap, List, [], ◌∷◌, ◌++◌, map, length, replicate,
  append_assoc,
}
use blockchain_db.Bytes.{Bytes}
use blockchain_db.Bytes.Order.{bytes_ord}
use blockchain_db.Text.{Text, find, starts_with}
use blockchain_db.Table.{Buffer}
use blockchain_db.Encoding.{byte_array_to_hex, int_to_hex, hex_digit}
use blockchain_db.Encoding.RoundTrip.{length-int_to_hex}
use blockchain_db.Response.{token}
use blockchain_db.Response.Values.{join, IsFiller}
use blockchain_db.Response.Whole.{concat, keys_of, values_of, answer}
use blockchain_db.Contract.{Contract, separator, joined, table_scan}

-- How a contract's answer of a list of words and a string is written: the offsets of the two, then the
-- list after its length, and the string after its length, filled up with zeros to whole words.
unfoldable pub returned : List Bytes × Buffer → Text
returned (keys, values) =
    int_to_hex 64 64
    ++ (int_to_hex (96 + 32 * length keys) 64
        ++ (int_to_hex (length keys) 64
            ++ (concat (map (λ k. byte_array_to_hex k.value) keys)
                ++ (int_to_hex (length values) 64
                    ++ (byte_array_to_hex values
                        ++ replicate (2 * ((32 - length values % 32) % 32)) 48)))))

-- The rows in the order of the list of the keys.
abbrev pub row_at : Contract → Bytes → Buffer × Buffer
row_at c k = (k.value, (c.data_of k).value)

abbrev pub rows_at : Contract → List Bytes → List (Buffer × Buffer)
rows_at c keys = map (row_at c) keys

byte_array_to_hex-append :
    (a b : Buffer) → byte_array_to_hex (a ++ b) ≡ byte_array_to_hex a ++ byte_array_to_hex b
unfolding byte_array_to_hex
byte_array_to_hex-append [] b = refl
byte_array_to_hex-append (x ∷ a) b = rw (byte_array_to_hex-append a b) refl

byte_array_to_hex-separator : byte_array_to_hex separator ≡ token
unfolding byte_array_to_hex hex_digit
byte_array_to_hex-separator = refl

replicate-IsFiller : (n : ℕ) → IsFiller (replicate n 48)
unfolding find starts_with
replicate-IsFiller zero = refl
replicate-IsFiller (suc n) = rw (replicate-IsFiller n) refl

byte_array_to_hex-joined :
    (keys : List Bytes) (tmp : Buffer) (c : Contract) (behind : Text)
    → byte_array_to_hex (joined keys tmp c) ++ behind
      ≡ byte_array_to_hex tmp ++ join (values_of (rows_at c keys)) behind
unfolding joined
byte_array_to_hex-joined [] tmp c behind = refl
byte_array_to_hex-joined (k ∷ keys) tmp c behind =
    byte_array_to_hex-joined keys (tmp ++ ((c.data_of k).value ++ separator)) c behind
    ∙ ap (◌++ join (values_of (rows_at c keys)) behind) (
        byte_array_to_hex-append tmp ((c.data_of k).value ++ separator)
        ∙ ap (byte_array_to_hex tmp ++◌) (
            byte_array_to_hex-append (c.data_of k).value separator
            ∙ ap (byte_array_to_hex (c.data_of k).value ++◌) byte_array_to_hex-separator))
    ∙ append_assoc (byte_array_to_hex tmp) (byte_array_to_hex (c.data_of k).value ++ token)
        (join (values_of (rows_at c keys)) behind)
    ∙ ap (byte_array_to_hex tmp ++◌) (
        append_assoc (byte_array_to_hex (c.data_of k).value) token
          (join (values_of (rows_at c keys)) behind))

keys_of-rows_at :
    (c : Contract) (keys : List Bytes)
    → keys_of (rows_at c keys) ≡ map (λ k. byte_array_to_hex k.value) keys
keys_of-rows_at c [] = refl
keys_of-rows_at c (k ∷ keys) = ap (byte_array_to_hex k.value ∷◌) (keys_of-rows_at c keys)

pub length-rows_at : (c : Contract) (keys : List Bytes) → length (rows_at c keys) ≡ length keys
length-rows_at c [] = refl
length-rows_at c (k ∷ keys) = ap suc (length-rows_at c keys)

-- The answer of tableScan is one that `split` takes apart.
pub returned-table_scan :
    (c : Contract)
    → (w0 : Text) × (w1 : Text) × (w2 : Text) × (behind : Text) × (returned (table_scan c)
        ≡ answer w0 w1 w2 (rows_at c c.key_list) behind)
      × (length w0 ≡ 64)
      × (length w1 ≡ 64)
      × (length w2 ≡ 64)
      × IsFiller behind
unfolding returned table_scan byte_array_to_hex
returned-table_scan c =
    let values = joined c.key_list [] c in
    let w1 = int_to_hex (96 + 32 * length c.key_list) 64 in
    let w2 = int_to_hex (length values) 64 in
    let filler = 2 * ((32 - length values % 32) % 32) in
    (
      int_to_hex 64 64,
      w1,
      w2,
      replicate filler 48,
      rw
          (
            byte_array_to_hex-joined c.key_list [] c (replicate filler 48),
            keys_of-rows_at c c.key_list,
            length-rows_at c c.key_list,
          )
          refl,
      length-int_to_hex 64,
      length-int_to_hex (96 + 32 * length c.key_list),
      length-int_to_hex (length values),
      replicate-IsFiller filler,
    )
