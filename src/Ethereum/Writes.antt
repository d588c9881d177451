-- ===== src/Ethereum/Writes.antt =====
-- adapter_ethereum.cpp: `put`, with `createRpcBatch` and `sendRpcBatch`, `put_batch` and `remove`.
pub mod Awaited
pub mod Completed
pub mod Encoded
pub mod Failures
pub mod Kept
pub mod Made
pub mod Nonces
pub mod Numbered
pub mod Removed
pub mod Sent
pub mod Succeeded
use blockchain_db.Prelude.{
  ℕ, suc, ◌+◌, ◌*◌, Bool, true, false, not, Option, none, some, List, [], ◌∷◌, ◌++◌, length,
  if◌then◌else◌, ℤ, pos, Result, ok, fault, undefined, ◌>>=◌,
}
use blockchain_db.Prelude.Order.{same}
use blockchain_db.Bytes.{Bytes, size}
use blockchain_db.Text.{Text, codes}
use blockchain_db.Text.Order.{text_ord}
use blockchain_db.Map.{Map, find, emplace}
use blockchain_db.Adapter.{Batch}
use blockchain_db.Encoding.{byte_array_to_hex, int_to_hex}
use blockchain_db.Word.{value_size, convert_to_32byte}
use blockchain_db.Platform.{Platform}
use blockchain_db.Ethereum.{
  Ethereum, send_transaction, request, parse_tx_response, result_text, check_mining_result,
  check_transaction_receipt, call, filled_in, numbered, json_of,
}
use blockchain_db.Ethereum.Params.{RpcParams, no_params, to_string}
use blockchain_db.Ethereum.Reads.{check_connection, update_nonce, contains_text}

-- `std::map<RpcParams, bool>`: its keys are compared by their transaction id, by which the model
-- keeps them.
abbrev pub ParamsMap : Type 0
ParamsMap = Map Text (RpcParams × Bool)

-- The parameters of one pair.
unfoldable pub put_params : Bytes → Bytes → ℕ → Result RpcParams
put_params key value batch_elem_id = do
  padded_key ← convert_to_32byte (byte_array_to_hex key.value)
  ok (record no_params {
    method = send_transaction;
    call_data =
        codes "0xdb82ecc3"
        ++ (padded_key
            ++ (int_to_hex value_size 64
                ++ (int_to_hex (size value) 64 ++ byte_array_to_hex value.value)));
    transaction_id = to_string batch_elem_id;
  })

-- The parts of the call data of putBatch that grow with the batch.
pub record PutBatch : Type 0 where
  pub key_string : Text
  pub value_offset : Text
  pub value_string : Text

abbrev pub no_put_batch : PutBatch
no_put_batch = record { key_string = []; value_offset = []; value_string = [] }

-- The loop of `put_batch`; `count` is the size of the batch.
unfoldable pub put_batch_loop : ℕ → ℕ → Batch → PutBatch → Result PutBatch
put_batch_loop count counter [] parts = ok parts
put_batch_loop count counter ((k, v) ∷ batch) parts = do
  padded_key ← convert_to_32byte (byte_array_to_hex k.value)
  curr_offset ← convert_to_32byte (int_to_hex (count * 32 + 64 * counter) 64)
  val_len ← convert_to_32byte (int_to_hex (size v) 64)
  value ← convert_to_32byte (byte_array_to_hex v.value)
  put_batch_loop count (suc counter) batch (record {
    key_string = parts.key_string ++ padded_key;
    value_offset = parts.value_offset ++ curr_offset;
    value_string = parts.value_string ++ (val_len ++ value);
  })

unfoldable pub put_batch_data : Batch → Result Text
unfolding put_batch_loop
put_batch_data batch = do
  let count = length batch
  parts ← put_batch_loop count 0 batch no_put_batch
  ok (
      int_to_hex value_size 64
      ++ (int_to_hex (count * 32 + 96) 64
          ++ (int_to_hex count 64
              ++ (parts.key_string
                  ++ (int_to_hex count 64 ++ (parts.value_offset ++ parts.value_string))))))

-- Whether `std::find` finds the key.
abbrev pub is_among : Text → List Text → Bool
is_among t [] = false
is_among t (s ∷ ss) = if same s t then true else is_among t ss

-- The loop that erases the pairs that were written: it goes on from an iterator that `erase` has
-- invalidated.
unfoldable pub erase_written : List Text → Batch → Result Batch
erase_written failed_keys [] = ok []
erase_written failed_keys ((k, v) ∷ batch) =
    if is_among (byte_array_to_hex k.value) failed_keys
    then (do rest ← erase_written failed_keys batch; ok ((k, v) ∷ rest))
    else fault undefined

abbrev pub key_defined : Option Text → Result Text
key_defined none = fault undefined
key_defined (some t) = ok t

module _ (P : Platform) where
  -- The loop that fills the two maps. `batch_elem_id` is an int: the model, which counts without a bound,
  -- is right for fewer than 2 ^ 31 pairs.
  unfoldable pub transform :
      Batch
      → ℕ
      → ParamsMap
      → Map Text Text
      → Ethereum P
      → Result (ParamsMap × Map Text Text × Ethereum P)
  transform [] batch_elem_id batch_transform key_map s = ok (batch_transform, key_map, s)
  transform ((k, v) ∷ batch) batch_elem_id batch_transform key_map s = do
    s' ← update_nonce P s
    params ← put_params k v batch_elem_id
    transform batch (suc batch_elem_id)
        (emplace params.transaction_id (params, true) batch_transform)
        (emplace params.transaction_id (byte_array_to_hex k.value) key_map) s'

  unfoldable pub create_rpc_batch :
      ParamsMap
      → Map Text Text
      → Map Text Text
      → Map Text Text
      → Ethereum P
      → Result (Map Text Text × Map Text Text × Ethereum P)
  create_rpc_batch [] key_map batch_transform key_map_transform s =
      ok (batch_transform, key_map_transform, s)
  create_rpc_batch ((id, (params, set_gas)) ∷ batch) key_map batch_transform key_map_transform s =
      do
        let (intermed, s') = numbered P s (filled_in P s set_gas params)
        key ← key_defined (find id key_map)
        create_rpc_batch batch key_map
            (emplace (json_of P intermed) intermed.method batch_transform)
            (emplace (json_of P intermed) key key_map_transform) s'

  -- The loop that sends; `insert` keeps an entry that is there.
  unfoldable pub send_all :
      Map Text Text → Map Text Text → Ethereum P → Result (Map Text Text × Ethereum P)
  send_all [] json_tid_map s = ok (json_tid_map, s)
  send_all ((json, method) ∷ batch) json_tid_map s = do
    (buffer, s') ← request P s json method
    transaction_id ← result_text P (parse_tx_response P buffer)
    send_all batch (emplace json transaction_id json_tid_map) s'

  -- The loop that waits for each transaction; the keys of the failed ones.
  unfoldable pub await_all :
      Map Text Text → Map Text Text → Ethereum P → Result (List Text × Ethereum P)
  await_all [] key_map s = ok ([], s)
  await_all ((json, transaction_id) ∷ json_tid_map) key_map s = do
    (read_buffer, mined) ← check_mining_result P transaction_id s
    (success, checked) ← check_transaction_receipt P transaction_id mined
    failed ← if success then ok [] else (do key ← key_defined (find json key_map); ok (key ∷ []))
    (output, s') ← await_all json_tid_map key_map checked
    ok (failed ++ output, s')

  unfoldable pub send_rpc_batch :
      Map Text Text → Map Text Text → Ethereum P → Result (List Text × Ethereum P)
  unfolding send_all await_all
  send_rpc_batch batch key_map s = do
    (json_tid_map, s') ← send_all batch [] s
    await_all json_tid_map key_map s'

  abbrev pub put_answer : Batch → List Text → Ethereum P → Result (ℤ × Batch × Ethereum P)
  put_answer batch [] s = ok (pos 0, batch, s)
  put_answer batch (k ∷ failed) s = do left ← erase_written (k ∷ failed) batch; ok (pos 1, left, s)

  unfoldable pub put : Ethereum P → Batch → Result (ℤ × Batch × Ethereum P)
  unfolding transform create_rpc_batch send_rpc_batch
  put s batch = do
    (available, s1) ← check_connection P s
    if not available then ok (pos 1, batch, s1) else (do
      (batch_transform, key_map, s2) ← transform batch 0 [] [] s1
      (rpc_batch, rpc_keys, s3) ← create_rpc_batch batch_transform key_map [] [] s2
      (response, s4) ← send_rpc_batch rpc_batch rpc_keys s3
      put_answer batch response s4)

  -- The answer of the node is not read.
  pub put_batch : Ethereum P → Batch → Result (ℤ × Ethereum P)
  unfolding put_batch_data
  put_batch s batch = do
    call_data ← put_batch_data batch
    s1 ← update_nonce P s
    let params : RpcParams = record no_params {
      method = send_transaction;
      transaction_id = to_string 0;
      call_data = codes "0x410f08ab" ++ call_data;
    }
    (response, s2) ← call P s1 params true
    ok (pos 0, s2)

  abbrev pub code_of : Text → ℤ
  code_of response = if contains_text (codes "error") response then pos 1 else pos 0

  unfoldable pub remove : Ethereum P → Bytes → Result (ℤ × Ethereum P)
  remove s key = do
    s1 ← update_nonce P s
    padded_key ← convert_to_32byte (byte_array_to_hex key.value)
    let params : RpcParams = record no_params {
      method = send_transaction;
      call_data = codes "0x95bc2673" ++ padded_key;
    }
    (response, s2) ← call P s1 params true
    ok (code_of response, s2)
