-- ===== src/Ethereum/Writes/Kept.antt =====
-- The calls that write leave the node as it was.
use blockchain_db.Prelude.{
  ℕ, suc, ℤ, pos, Bool, true, false, not, List, [], ◌∷◌, ◌++◌, Result, ok, ◌>>=◌, if◌then◌else◌,
}
use blockchain_db.Bytes.{Bytes}
use blockchain_db.Text.{Text, codes}
use blockchain_db.Text.Order.{text_ord}
use blockchain_db.Map.{Map, find, emplace}
use blockchain_db.Adapter.{Batch}
use blockchain_db.Encoding.{byte_array_to_hex}
use blockchain_db.Word.{convert_to_32byte}
use blockchain_db.Platform.{Platform}
use blockchain_db.Ethereum.{
  Ethereum, send_transaction, request, parse_tx_response, result_text, check_mining_result,
  check_transaction_receipt, call, filled_in, numbered, json_of,
}
use blockchain_db.Ethereum.Kept.{
  IsSameNode-refl, Keeps, Keeps-bind, Keeps-pure, Keeps-trans, request-Keeps, numbered-IsSameNode,
  call-Keeps, check_mining_result-Keeps, check_transaction_receipt-Keeps,
}
use blockchain_db.Ethereum.Params.{RpcParams, no_params, to_string}
use blockchain_db.Ethereum.Reads.{check_connection, update_nonce}
use blockchain_db.Ethereum.Reads.Kept.{update_nonce-Keeps, check_connection-Keeps}
use blockchain_db.Ethereum.Writes.{
  ParamsMap, put_params, put_batch_data, erase_written, key_defined, transform, create_rpc_batch,
  send_all, await_all, send_rpc_batch, put_answer, put, put_batch, code_of, remove,
}

module _ (P : Platform) where
  transform-Keeps :
      (batch : Batch) (batch_elem_id : ℕ) (batch_transform : ParamsMap) (key_map : Map Text Text)
      (s : Ethereum P)
      → Keeps P (λ r. r.2) s (transform P batch batch_elem_id batch_transform key_map s)
  unfolding transform
  transform-Keeps [] batch_elem_id batch_transform key_map s = IsSameNode-refl P s
  transform-Keeps ((k, v) ∷ batch) batch_elem_id batch_transform key_map s =
      let rest : RpcParams → Ethereum P → Result (ParamsMap × Map Text Text × Ethereum P) =
        λ params. λ s'.
          transform P batch (suc batch_elem_id)
            (emplace params.transaction_id (params, true) batch_transform)
            (emplace params.transaction_id (byte_array_to_hex k.value) key_map) s' in
      Keeps-bind P (λ s'. s') (λ r. r.2) s (update_nonce P s)
        (λ s'. put_params k v batch_elem_id >>= λ params. rest params s') (update_nonce-Keeps P s)
        (λ s'.
          Keeps-pure P (λ r. r.2) s' (put_params k v batch_elem_id) (λ params. rest params s')
            (λ params.
              transform-Keeps batch (suc batch_elem_id)
                (emplace params.transaction_id (params, true) batch_transform)
                (emplace params.transaction_id (byte_array_to_hex k.value) key_map) s'))

  create_rpc_batch-Keeps :
      (batch : ParamsMap) (key_map batch_transform key_map_transform : Map Text Text)
      (s : Ethereum P)
      → Keeps P (λ r. r.2) s (create_rpc_batch P batch key_map batch_transform key_map_transform s)
  unfolding create_rpc_batch
  create_rpc_batch-Keeps [] key_map batch_transform key_map_transform s = IsSameNode-refl P s
  create_rpc_batch-Keeps ((id, (params, set_gas)) ∷ batch) key_map batch_transform key_map_transform
        s =
      let q : RpcParams × Ethereum P = numbered P s (filled_in P s set_gas params) in
      let rest : Text → Result (Map Text Text × Map Text Text × Ethereum P) = λ key.
        create_rpc_batch P batch key_map (emplace (json_of P q.0) q.0.method batch_transform)
          (emplace (json_of P q.0) key key_map_transform) q.1 in
      Keeps-trans P (λ r. r.2) s q.1 (key_defined (find id key_map) >>= rest)
        (numbered-IsSameNode P s (filled_in P s set_gas params))
        (Keeps-pure P (λ r. r.2) q.1 (key_defined (find id key_map)) rest
          (λ key.
            create_rpc_batch-Keeps batch key_map
              (emplace (json_of P q.0) q.0.method batch_transform)
              (emplace (json_of P q.0) key key_map_transform) q.1))

  send_all-Keeps :
      (batch json_tid_map : Map Text Text) (s : Ethereum P)
      → Keeps P (λ r. r.1) s (send_all P batch json_tid_map s)
  unfolding send_all
  send_all-Keeps [] json_tid_map s = IsSameNode-refl P s
  send_all-Keeps ((json, method) ∷ batch) json_tid_map s =
      let rest : Ethereum P → Text → Result (Map Text Text × Ethereum P) =
        λ s'. λ id. send_all P batch (emplace json id json_tid_map) s' in
      Keeps-bind P (λ r. r.1) (λ r. r.1) s (request P s json method)
        (λ r. result_text P (parse_tx_response P r.0) >>= rest r.1) (request-Keeps P s json method)
        (λ r.
          Keeps-pure P (λ q. q.1) r.1 (result_text P (parse_tx_response P r.0)) (rest r.1)
            (λ id. send_all-Keeps batch (emplace json id json_tid_map) r.1))

  abbrev joined : List Text → List Text × Ethereum P → Result (List Text × Ethereum P)
  joined failed (output, s') = ok (failed ++ output, s')

  abbrev failed_key : Text → Map Text Text → Bool → Result (List Text)
  failed_key json key_map success =
      if success then ok [] else (do key ← key_defined (find json key_map); ok (key ∷ []))

  await_all-Keeps :
      (json_tid_map key_map : Map Text Text) (s : Ethereum P)
      → Keeps P (λ r. r.1) s (await_all P json_tid_map key_map s)
  unfolding await_all
  await_all-Keeps [] key_map s = IsSameNode-refl P s
  await_all-Keeps ((json, id) ∷ json_tid_map) key_map s =
      let more : Ethereum P → List Text → Result (List Text × Ethereum P) =
        λ checked. λ failed. await_all P json_tid_map key_map checked >>= joined failed in
      let told : Bool × Ethereum P → Result (List Text × Ethereum P) =
        λ r. failed_key json key_map r.0 >>= more r.1 in
      Keeps-bind P (λ r. r.1) (λ r. r.1) s (check_mining_result P id s)
        (λ m. check_transaction_receipt P id m.1 >>= told) (check_mining_result-Keeps P id s)
        (λ m.
          Keeps-bind P (λ r. r.1) (λ r. r.1) m.1 (check_transaction_receipt P id m.1) told
            (check_transaction_receipt-Keeps P id m.1)
            (λ r.
              Keeps-pure P (λ q. q.1) r.1 (failed_key json key_map r.0) (more r.1)
                (λ failed.
                  Keeps-bind P (λ q. q.1) (λ q. q.1) r.1 (await_all P json_tid_map key_map r.1)
                    (joined failed) (await_all-Keeps json_tid_map key_map r.1)
                    (λ q. IsSameNode-refl P q.1))))

  send_rpc_batch-Keeps :
      (batch key_map : Map Text Text) (s : Ethereum P)
      → Keeps P (λ r. r.1) s (send_rpc_batch P batch key_map s)
  unfolding send_rpc_batch
  send_rpc_batch-Keeps batch key_map s =
      Keeps-bind P (λ r. r.1) (λ r. r.1) s (send_all P batch [] s)
        (λ r. await_all P r.0 key_map r.1) (send_all-Keeps batch [] s)
        (λ r. await_all-Keeps r.0 key_map r.1)

  put_answer-Keeps :
      (batch : Batch) (failed : List Text) (s : Ethereum P)
      → Keeps P (λ r. r.2) s (put_answer P batch failed s)
  put_answer-Keeps batch [] s = IsSameNode-refl P s
  put_answer-Keeps batch (k ∷ failed) s =
      Keeps-pure P (λ r. r.2) s (erase_written (k ∷ failed) batch) (λ left. ok (pos 1, left, s))
        (λ left. IsSameNode-refl P s)

  abbrev answered_put : Batch → List Text × Ethereum P → Result (ℤ × Batch × Ethereum P)
  answered_put batch (response, s4) = put_answer P batch response s4

  abbrev transformed_put :
      Batch → ParamsMap × Map Text Text × Ethereum P → Result (ℤ × Batch × Ethereum P)
  transformed_put batch (batch_transform, key_map, s2) = do
    (rpc_batch, rpc_keys, s3) ← create_rpc_batch P batch_transform key_map [] [] s2
    (response, s4) ← send_rpc_batch P rpc_batch rpc_keys s3
    put_answer P batch response s4

  abbrev available_put : Batch → Bool × Ethereum P → Result (ℤ × Batch × Ethereum P)
  available_put batch (available, s1) =
      if not available
      then ok (pos 1, batch, s1)
      else (transform P batch 0 [] [] s1 >>= transformed_put batch)

  transformed_put-Keeps :
      (batch : Batch) (r : ParamsMap × Map Text Text × Ethereum P)
      → Keeps P (λ q. q.2) r.2 (transformed_put batch r)
  transformed_put-Keeps batch r =
      Keeps-bind P (λ q. q.2) (λ q. q.2) r.2 (create_rpc_batch P r.0 r.1 [] [] r.2)
        (λ q. send_rpc_batch P q.0 q.1 q.2 >>= answered_put batch)
        (create_rpc_batch-Keeps r.0 r.1 [] [] r.2)
        (λ q.
          Keeps-bind P (λ o. o.1) (λ o. o.2) q.2 (send_rpc_batch P q.0 q.1 q.2) (answered_put batch)
            (send_rpc_batch-Keeps q.0 q.1 q.2) (λ o. put_answer-Keeps batch o.0 o.1))

  available_put-Keeps :
      (batch : Batch) (r : Bool × Ethereum P) → Keeps P (λ q. q.2) r.1 (available_put batch r)
  available_put-Keeps batch (false, s1) = IsSameNode-refl P s1
  available_put-Keeps batch (true, s1) =
      Keeps-bind P (λ q. q.2) (λ q. q.2) s1 (transform P batch 0 [] [] s1) (transformed_put batch)
        (transform-Keeps batch 0 [] [] s1) (transformed_put-Keeps batch)

  pub put-Keeps : (s : Ethereum P) (batch : Batch) → Keeps P (λ r. r.2) s (put P s batch)
  unfolding put
  put-Keeps s batch =
      Keeps-bind P (λ r. r.1) (λ r. r.2) s (check_connection P s) (available_put batch)
        (check_connection-Keeps P s) (available_put-Keeps batch)

  abbrev batch_params : Text → RpcParams
  batch_params call_data = record no_params {
    method = send_transaction;
    transaction_id = to_string 0;
    call_data = codes "0x410f08ab" ++ call_data;
  }

  abbrev sent_batch : Text → Ethereum P → Result (ℤ × Ethereum P)
  sent_batch call_data s1 = do
    (response, s2) ← call P s1 (batch_params call_data) true
    ok (pos 0, s2)

  pub put_batch-Keeps :
      (s : Ethereum P) (batch : Batch) → Keeps P (λ r. r.1) s (put_batch P s batch)
  unfolding put_batch
  put_batch-Keeps s batch =
      Keeps-pure P (λ r. r.1) s (put_batch_data batch)
        (λ call_data. update_nonce P s >>= sent_batch call_data)
        (λ call_data.
          Keeps-bind P (λ s'. s') (λ r. r.1) s (update_nonce P s) (sent_batch call_data)
            (update_nonce-Keeps P s)
            (λ s1.
              Keeps-bind P (λ r. r.1) (λ r. r.1) s1 (call P s1 (batch_params call_data) true)
                (λ r. ok (pos 0, r.1)) (call-Keeps P s1 (batch_params call_data) true)
                (λ r. IsSameNode-refl P r.1)))

  abbrev remove_params : Text → RpcParams
  remove_params padded_key = record no_params {
    method = send_transaction;
    call_data = codes "0x95bc2673" ++ padded_key;
  }

  abbrev sent_remove : Ethereum P → Text → Result (ℤ × Ethereum P)
  sent_remove s1 padded_key = do
    (response, s2) ← call P s1 (remove_params padded_key) true
    ok (code_of P response, s2)

  pub remove-Keeps : (s : Ethereum P) (key : Bytes) → Keeps P (λ r. r.1) s (remove P s key)
  unfolding remove
  remove-Keeps s key =
      Keeps-bind P (λ s'. s') (λ r. r.1) s (update_nonce P s)
        (λ s1. convert_to_32byte (byte_array_to_hex key.value) >>= sent_remove s1)
        (update_nonce-Keeps P s)
        (λ s1.
          Keeps-pure P (λ r. r.1) s1 (convert_to_32byte (byte_array_to_hex key.value))
            (sent_remove s1)
            (λ padded_key.
              Keeps-bind P (λ r. r.1) (λ r. r.1) s1 (call P s1 (remove_params padded_key) true)
                (λ r. ok (code_of P r.0, r.1)) (call-Keeps P s1 (remove_params padded_key) true)
                (λ r. IsSameNode-refl P r.1)))
