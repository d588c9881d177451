-- ===== src/Ethereum/Writes/Encoded.antt =====
-- What `put` sends of a pair, and what `get` makes of it.
use blockchain_db.Prelude.{
  ℕ, ◌^◌, ◌<◌, ◌≡◌, refl, ◌∙◌, ap, ◌++◌, length, take, replicate, All, ok, arith, append_assoc,
  length-append, length-replicate, length-take,
}
use blockchain_db.Bytes.{Bytes, IsByte, size}
use blockchain_db.Text.{Text, codes}
use blockchain_db.Encoding.{byte_array_to_hex, int_to_hex}
use blockchain_db.Encoding.RoundTrip.{length-int_to_hex}
use blockchain_db.Word.Padding.{convert_to_32byte_lem}
use blockchain_db.Ethereum.{send_transaction}
use blockchain_db.Ethereum.Params.{RpcParams, no_params, to_string}
use blockchain_db.Ethereum.Reads.{value_of}
use blockchain_db.Ethereum.Reads.Values.{value_of-returned}
use blockchain_db.Ethereum.Writes.{put_params}

length_word : (s : Text) → length (take 64 (s ++ replicate 64 48)) ≡ 64
length_word s = omega (
  arith,
  length-take 64 (s ++ replicate 64 48),
  length-append s (replicate 64 48),
  length-replicate {A = ℕ} 64 48,
)

-- For every pair with a value of fewer than 2 ^ 30 bytes, the parameters that `put` makes are those
-- of a transaction whose call data are the selector of the contract's put, one word for the key,
-- and an argument out of which `get` reads the value, whatever text fills it up.
pub put_params-value_of :
    (key value : Bytes) (batch_elem_id : ℕ) (padding : Text)
    → size value < 2 ^ 30
    → All IsByte value.value
    → (params : RpcParams) × (word : Text) × (argument : Text) × (put_params key value batch_elem_id
        ≡ ok params)
      × (params.method ≡ send_transaction)
      × (params.call_data ≡ codes "0xdb82ecc3" ++ (word ++ argument))
      × (length word ≡ 64)
      × (value_of (argument ++ padding) ≡ ok value)
unfolding put_params
put_params-value_of key value batch_elem_id padding short bytes =
    let word = take 64 (byte_array_to_hex key.value ++ replicate 64 48) in
    let argument =
      int_to_hex 64 64 ++ (int_to_hex (size value) 64 ++ byte_array_to_hex value.value) in
    (
      record no_params {
        method = send_transaction;
        call_data = codes "0xdb82ecc3" ++ (word ++ argument);
        transaction_id = to_string batch_elem_id;
      },
      word,
      argument,
      rw (convert_to_32byte_lem (byte_array_to_hex key.value)) refl,
      refl,
      refl,
      length_word (byte_array_to_hex key.value),
      ap value_of (
            append_assoc (int_to_hex 64 64)
              (int_to_hex (size value) 64 ++ byte_array_to_hex value.value) padding
            ∙ ap (int_to_hex 64 64 ++◌)
                (append_assoc (int_to_hex (size value) 64) (byte_array_to_hex value.value) padding))
          ∙ value_of-returned (int_to_hex 64 64) padding value.value (length-int_to_hex 64) short
              bytes,
    )
