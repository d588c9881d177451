-- ===== src/Contract/Sent.antt =====
-- The call data of the contract's put and remove, as the adapter writes them.
pub mod Batch
pub mod Parts
pub mod Whole
use blockchain_db.Prelude.{
  ℕ, zero, suc, ◌+◌, ◌*◌, ◌≡◌, refl, sym, ◌∙◌, ap, [], ◌∷◌, ◌++◌, length, take, replicate, ok,
  arith, length-append, length-take, length-replicate,
}
use blockchain_db.Bytes.{Bytes, size}
use blockchain_db.Text.{Text, codes, substr}
use blockchain_db.Text.Slices.{substr_behind, substr_front, substr_all}
use blockchain_db.Table.{Buffer}
use blockchain_db.Encoding.{byte_array_to_hex, int_to_hex}
use blockchain_db.Encoding.RoundTrip.{length-byte_array_to_hex, length-int_to_hex}
use blockchain_db.Word.{convert_to_32byte}
use blockchain_db.Word.Padding.{convert_to_32byte_lem}
use blockchain_db.Ethereum.{send_transaction}
use blockchain_db.Ethereum.Params.{RpcParams, no_params, to_string}
use blockchain_db.Ethereum.Writes.{put_params}

-- A key as a bytes32: filled up with zeros, or cut.
abbrev pub as_bytes32 : Bytes → Bytes
as_bytes32 key = record { value = take 32 (key.value ++ replicate 32 0) }

-- How a contract reads the arguments of a call: a string stands where an offset says, in bytes, after its
-- length.
pub record IsStringAt (arguments : Text) (at : ℕ) (v : Buffer) : Type 0 where
  pub length_word : substr arguments (2 * at) 64 ≡ ok (int_to_hex (length v) 64)
  pub content : substr arguments (2 * at + 64) (2 * length v) ≡ ok (byte_array_to_hex v)

-- The arguments of put.
pub record IsPutOf (arguments : Text) (key : Bytes) (value : Buffer) : Type 0 where
  pub key_word : substr arguments 0 64 ≡ ok (byte_array_to_hex key.value)
  pub value_at : ℕ
  pub value_offset : substr arguments 64 64 ≡ ok (int_to_hex value_at 64)
  pub value_string : IsStringAt arguments value_at value

two_suc : (n : ℕ) → 2 * suc n ≡ suc (suc (2 * n))
two_suc n = omega arith

take-filled :
    (n m : ℕ) (bs : Buffer)
    → byte_array_to_hex (take n (bs ++ replicate m 0))
      ≡ take (2 * n) (byte_array_to_hex bs ++ replicate (2 * m) 48)
unfolding byte_array_to_hex
take-filled zero m bs = refl
take-filled (suc n) m (b ∷ bs) = rw (two_suc n, take-filled n m bs) refl
take-filled (suc n) zero [] = rw (two_suc n) refl
take-filled (suc n) (suc m) [] =
    rw (two_suc n, two_suc m) (ap (λ t. 48 ∷ 48 ∷ t) (take-filled n m []))

abbrev pub key_word : Bytes → Text
key_word key = byte_array_to_hex (as_bytes32 key).value

pub convert_to_32byte-key_word :
    (key : Bytes) → convert_to_32byte (byte_array_to_hex key.value) ≡ ok (key_word key)
convert_to_32byte-key_word key =
    convert_to_32byte_lem (byte_array_to_hex key.value) ∙ ap ok (sym (take-filled 32 32 key.value))

pub length-key_word : (key : Bytes) → length (key_word key) ≡ 64
length-key_word key = omega (
  arith,
  length-byte_array_to_hex (take 32 (key.value ++ replicate 32 0)),
  length-take 32 (key.value ++ replicate 32 0),
  length-append key.value (replicate 32 0),
  length-replicate {A = ℕ} 32 0,
)

-- For every pair, the parameters that `put` makes are those of a transaction whose call data are the
-- selector of the contract's put and the arguments key, as a bytes32, and value.
pub put_params-IsPutOf :
    (key value : Bytes) (batch_elem_id : ℕ)
    → (params : RpcParams) × (arguments : Text) × (put_params key value batch_elem_id ≡ ok params)
      × (params.method ≡ send_transaction)
      × (params.call_data ≡ codes "0xdb82ecc3" ++ arguments)
      × IsPutOf arguments (as_bytes32 key) value.value
unfolding put_params
put_params-IsPutOf key value batch_elem_id =
    let k = key_word key in
    let o = int_to_hex 64 64 in
    let l = int_to_hex (size value) 64 in
    let v = byte_array_to_hex value.value in
    let lk = length-key_word key in
    let lo = length-int_to_hex 64 in
    let ll = length-int_to_hex (size value) in
    let lv = length-byte_array_to_hex value.value in
    (
      record no_params {
        method = send_transaction;
        call_data = codes "0xdb82ecc3" ++ (k ++ (o ++ (l ++ v)));
        transaction_id = to_string batch_elem_id;
      },
      k ++ (o ++ (l ++ v)),
      rw (convert_to_32byte-key_word key) refl,
      refl,
      refl,
      record {
        key_word = substr_front k (o ++ (l ++ v)) 64 (sym lk);
        value_at = 64;
        value_offset =
            substr_behind k (o ++ (l ++ v)) 64 0 64 (omega (arith, lk))
            ∙ substr_front o (l ++ v) 64 (sym lo);
        value_string = record {
          length_word =
              substr_behind k (o ++ (l ++ v)) 128 64 64 (omega (arith, lk))
              ∙ substr_behind o (l ++ v) 64 0 64 (omega (arith, lo))
              ∙ substr_front l v 64 (sym ll);
          content =
              substr_behind k (o ++ (l ++ v)) 192 128 (2 * size value) (omega (arith, lk))
              ∙ substr_behind o (l ++ v) 128 64 (2 * size value) (omega (arith, lo))
              ∙ substr_behind l v 64 0 (2 * size value) (omega (arith, ll))
              ∙ substr_all v (2 * size value) (sym lv);
        };
      },
    )
