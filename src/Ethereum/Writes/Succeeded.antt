-- ===== src/Ethereum/Writes/Succeeded.antt =====
-- What it means that `put` answers 0.
use blockchain_db.Prelude.{◌≡◌, Bool, not, List, [], ◌++◌, Result, ok, pos, ℤ, ◌>>=◌, if◌then◌else◌}
use blockchain_db.Bytes.{Bytes}
use blockchain_db.Text.{Text, codes}
use blockchain_db.Text.Order.{text_ord}
use blockchain_db.Map.{Map}
use blockchain_db.Adapter.{Batch}
use blockchain_db.Platform.{Platform}
use blockchain_db.Contract.Sent.{as_bytes32, IsPutOf}
use blockchain_db.Ethereum.{Ethereum, send_transaction, json_of}
use blockchain_db.Ethereum.Params.{RpcParams}
use blockchain_db.Ethereum.Params.Object.{IsObjectOf}
use blockchain_db.Ethereum.Writes.{
  ParamsMap, transform, create_rpc_batch, send_all, send_rpc_batch, put_answer,
}
use blockchain_db.Ethereum.Writes.Failures.{IsSent}
use blockchain_db.Ethereum.Writes.Sent.{IsAccepted}
use blockchain_db.Ethereum.Writes.Awaited.{IsSettled}

module _ (P : Platform) where
  abbrev Answer : Type 0
  Answer = ℤ × Batch × Ethereum P

  abbrev sent_answer : Batch → List Text × Ethereum P → Result Answer
  sent_answer batch (response, s4) = put_answer P batch response s4

  abbrev created_answer : Batch → Map Text Text × Map Text Text × Ethereum P → Result Answer
  created_answer batch (rpc_batch, rpc_keys, s3) =
      send_rpc_batch P rpc_batch rpc_keys s3 >>= sent_answer batch

  abbrev transformed_answer : Batch → ParamsMap × Map Text Text × Ethereum P → Result Answer
  transformed_answer batch (batch_transform, key_map, s2) =
      create_rpc_batch P batch_transform key_map [] [] s2 >>= created_answer batch

  abbrev connected_answer : Batch → Bool × Ethereum P → Result Answer
  connected_answer batch (available, s1) =
      if not available
      then ok (pos 1, batch, s1)
      else (transform P batch 0 [] [] s1 >>= transformed_answer batch)

  -- A pair that has been written: a transaction to the contract with a call of put for the pair has been
  -- accepted by the node under an id, and the receipt of that id is good.
  pub record IsWritten (s : Ethereum P) (batch : Batch) (k v : Bytes) (after : Ethereum P)
      : Type 0 where
    pub sent : IsSent P s batch [] after
    pub params : RpcParams
    pub arguments : Text
    pub carried : IsObjectOf (json_of P params) params
    pub ids : Map Text Text
    pub waiting : Ethereum P
    pub id : Text
    pub data_of_put : params.call_data ≡ codes "0xdb82ecc3" ++ arguments
    pub arguments_of_put : IsPutOf arguments (as_bytes32 k) v.value
    pub from_account : params.from_address ≡ sent.nonced.account_address
    pub to_contract : params.to_address ≡ sent.nonced.stored_contract_address
    pub all_sent : send_all P sent.rpc_batch [] sent.numbered ≡ ok (ids, waiting)
    pub accepted :
        IsAccepted P sent.rpc_batch [] sent.numbered (json_of P params) send_transaction id
    pub settled : IsSettled P ids sent.rpc_keys waiting id
