-- ===== src/Ethereum/Writes/Removed.antt =====
-- What it means that `remove` answers 0.
use blockchain_db.Prelude.{
  ◌≡◌, refl, true, [], ◌++◌, Result, ok, pos, ℤ, ◌>>=◌, if◌then◌else◌, ◌+◌, ◌%◌, ◌^◌,
}
use blockchain_db.Bytes.{Bytes}
use blockchain_db.Text.{Text, codes, find, starts_with}
use blockchain_db.Encoding.{byte_array_to_hex}
use blockchain_db.Platform.{Platform}
use blockchain_db.Contract.Sent.{as_bytes32}
use blockchain_db.Ethereum.{
  Ethereum, has_curl, send_transaction, request, parse_tx_response, result_text,
  check_mining_result, check_transaction_receipt, settled, filled_in, json_of, call,
}
use blockchain_db.Ethereum.Kept.{mined_text}
use blockchain_db.Ethereum.Params.{RpcParams, no_params}
use blockchain_db.Ethereum.Params.Object.{IsObjectOf}
use blockchain_db.Ethereum.Receipt.{IsReceived}
use blockchain_db.Ethereum.Reads.{update_nonce}
use blockchain_db.Ethereum.Writes.{code_of}

module _ (P : Platform) where
  abbrev pub removal : Bytes → RpcParams
  removal key = record no_params {
    method = send_transaction;
    call_data = codes "0x95bc2673" ++ byte_array_to_hex (as_bytes32 key).value;
  }

  -- The call data are the selector of the contract's remove and the key as a bytes32; the number is the
  -- next one.
  abbrev pub sent_removal : Ethereum P → Bytes → RpcParams
  sent_removal s key = record (filled_in P s true (removal key)) { nonce = (s.nonce + 1) % 2 ^ 64 }

  abbrev pub numbered_node : Ethereum P → Ethereum P
  numbered_node s = record s { nonce = (s.nonce + 1) % 2 ^ 64 }

  -- A transaction that the node has accepted under an id, and of which the receipt is good.
  pub record IsDone (s : Ethereum P) (json : Text) (response : Text) (after : Ethereum P)
      : Type 0 where
    pub buffer : Text
    pub id : Text
    pub receiver : Ethereum P
    pub mined : Ethereum P
    pub posts : request P s json send_transaction ≡ ok (buffer, receiver)
    pub answers : result_text P (parse_tx_response P buffer) ≡ ok id
    pub waits : check_mining_result P id receiver ≡ ok (response, mined)
    pub received : check_transaction_receipt P id mined ≡ ok (true, after)
    pub receipt : IsReceived P id mined after

  -- A key that has been removed: the transaction with the removal, numbered by the node's count, is done.
  pub record IsRemoved (s : Ethereum P) (key : Bytes) (after : Ethereum P) : Type 0 where
    pub counted : Ethereum P
    pub response : Text
    pub counts : update_nonce P s ≡ ok counted
    pub carried : IsObjectOf (json_of P (sent_removal counted key)) (sent_removal counted key)
    pub data_of_remove :
        (sent_removal counted key).call_data
        ≡ codes "0x95bc2673" ++ byte_array_to_hex (as_bytes32 key).value
    pub to_contract : (sent_removal counted key).to_address ≡ counted.stored_contract_address
    pub done : IsDone (numbered_node counted) (json_of P (sent_removal counted key)) response after

  abbrev waited_text : Ethereum P → Text → Result (Text × Ethereum P)
  waited_text s id = check_mining_result P id s >>= mined_text P id

  pub error_code : code_of P (codes "error") ≡ pos 1
  unfolding find starts_with
  error_code = refl

  abbrev answered : Ethereum P → Text × Ethereum P → Result (Text × Ethereum P)
  answered s (buffer, s') = if has_curl s.curl then settled P buffer s' else ok ([], s')

  abbrev pub coded : Text × Ethereum P → Result (ℤ × Ethereum P)
  coded (response, s2) = ok (code_of P response, s2)

  abbrev pub called : Ethereum P → Text → Result (ℤ × Ethereum P)
  called s1 padded_key =
      let params : RpcParams = record no_params {
        method = send_transaction;
        call_data = codes "0x95bc2673" ++ padded_key;
      } in
      call P s1 params true >>= coded
