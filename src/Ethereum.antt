-- ===== src/Ethereum.antt =====
-- adapter/ethereum/adapter/src/adapter_ethereum.cpp: the state of `EthereumAdapter`, and how it calls
-- its node. An operation takes the adapter to the next one, which holds the outside world as well.
pub mod Params
pub mod Kept
pub mod Requests
pub mod Receipt
pub mod Settled
pub mod Reads
pub mod Mining
pub mod Writes
pub mod Tables
use blockchain_db.Prelude.{
  ℕ, zero, suc, ◌+◌, ◌*◌, ◌/◌, ◌%◌, ◌^◌, Bool, true, false, Option, none, some, List, [], ◌∷◌, ◌++◌,
  ltb, if◌then◌else◌, Result, ok, fault, undefined, out_of_fuel, bad_path, ◌>>=◌,
}
use blockchain_db.Prelude.Order.{same}
use blockchain_db.Text.{Text, codes, is_empty}
use blockchain_db.Text.Order.{text_ord}
use blockchain_db.Map.{find}
use blockchain_db.Platform.{Platform, Config, thrown}
use blockchain_db.Ethereum.Params.{RpcParams, parse_params_to_json, quantity}

-- The handle of libcurl, with the URL that it was given: never set, null, or closed.
pub data Curl : Type 0 where
  unset null_curl closed : Curl
  handle : Text → Curl

pub record Ethereum (P : Platform) : Type 0 where
  pub table_name : Text
  pub account_address : Text
  pub stored_contract_address : Text
  pub config : Config
  pub curl : Curl
  pub max_waiting_time : ℕ
  pub nonce : ℕ
  pub world : P.World

-- MINING_CHECK_INTERVAL, in ms.
abbrev pub mining_check_interval : ℕ
mining_check_interval = 200

abbrev pub send_transaction : Text
send_transaction = codes "eth_sendTransaction"

abbrev pub ethereum_gas : Text
ethereum_gas = codes "0x6ACFC0"

-- `"text"`.
abbrev pub quoted : Text → Text
quoted s = codes "\"" ++ (s ++ codes "\"")

abbrev pub post_data : Text → Text → Text
post_data params method =
    codes "{\"jsonrpc\":\"2.0\",\"id\":1,\"method\":\""
    ++ (method ++ (codes "\",\"params\":[" ++ (params ++ codes "]}")))

abbrev pub config_text {ℓ} : {A : Type ℓ} → Option A → Result A
config_text none = fault bad_path
config_text (some t) = ok t

abbrev pub has_curl : Curl → Bool
has_curl null_curl = false
has_curl _ = true

module _ (P : Platform) where
  -- What `curl_easy_perform` leaves in the buffer of the write callback; nothing with no handle.
  abbrev pub request_at : Curl → Ethereum P → Text → Result (Text × Ethereum P)
  request_at (handle url) s post = do
    let (buffer, w) = P.perform s.world url post
    ok (buffer, record s { world = w })
  request_at null_curl s post = ok ([], s)
  request_at unset s post = fault undefined
  request_at closed s post = fault undefined

  unfoldable pub request : Ethereum P → Text → Text → Result (Text × Ethereum P)
  request s params method = request_at s.curl s (post_data params method)

  -- `json_response` after the call; an error that the node reports is only logged.
  abbrev pub parsed_or_null : Option P.Json → P.Json
  parsed_or_null none = P.null
  parsed_or_null (some json) = json

  abbrev pub parse_tx_response : Text → P.Json
  parse_tx_response buffer = parsed_or_null (P.parse buffer)

  -- `json["result"].get<std::string>()`.
  abbrev pub result_text : P.Json → Result Text
  result_text json = do
    result ← thrown (P.index json (codes "result"))
    thrown (P.get_string result)

  abbrev pub and_then {ℓ κ} : {A : Type ℓ} {B : Type κ} → Option A → (A → Option B) → Option B
  and_then none f = none
  and_then (some a) f = f a

  abbrev pub not_null : Option P.Json → Bool
  not_null none = false
  not_null (some json) = if P.is_null json then false else true

  -- The response has a block number that is not null; an exception of the library counts as none.
  unfoldable pub is_mined : Text → Bool
  is_mined response = not_null (
      and_then (P.parse response)
        (λ json. and_then (P.at json (codes "result")) (λ r. P.at r (codes "blockNumber"))))

  abbrev pub is_text : Text → Option Text → Bool
  is_text t none = false
  is_text t (some s) = same s t

  -- The status of the receipt is "0x1".
  unfoldable pub has_status : Text → Bool
  has_status response = is_text (codes "0x1") (
      and_then (P.parse response) (λ json.
        and_then (P.at json (codes "result"))
          (λ r. and_then (P.at r (codes "status")) P.get_string)))

  -- One turn of the loop: sleep and ask.
  unfoldable pub poll : Text → Ethereum P → Result (Text × Ethereum P)
  unfolding request
  poll transaction_id s =
      request (record s { world = P.sleep_for s.world mining_check_interval })
        (quoted transaction_id) (codes "eth_getTransactionByHash")

  -- The loop; `waited` is a size_t.
  unfoldable pub mining_loop : ℕ → Text → ℕ → Text → Ethereum P → Result (Text × Ethereum P)
  mining_loop zero transaction_id waited response s = fault out_of_fuel
  mining_loop (suc fuel) transaction_id waited response s =
      if ltb ((waited + mining_check_interval) % 2 ^ 64) s.max_waiting_time
      then (do
        (response', s') ← poll transaction_id s
        if is_mined response'
            then ok (response', s')
            else mining_loop fuel transaction_id ((waited + mining_check_interval) % 2 ^ 64)
                response' s')
      else ok (response, s)

  unfoldable pub check_mining_result : Text → Ethereum P → Result (Text × Ethereum P)
  unfolding mining_loop
  check_mining_result transaction_id s =
      mining_loop (suc (s.max_waiting_time / mining_check_interval)) transaction_id 0 [] s

  unfoldable pub check_transaction_receipt : Text → Ethereum P → Result (Bool × Ethereum P)
  unfolding request has_status
  check_transaction_receipt transaction_id s = do
    (response, s') ← request s (quoted transaction_id) (codes "eth_getTransactionReceipt")
    ok (has_status response, s')

  -- What a sent transaction comes to.
  unfoldable pub settled : Text → Ethereum P → Result (Text × Ethereum P)
  settled buffer s = do
    transaction_id ← result_text (parse_tx_response buffer)
    (read_buffer, mined) ← check_mining_result transaction_id s
    (success, checked) ← check_transaction_receipt transaction_id mined
    ok (if success then read_buffer else codes "error", checked)

  -- `call(params, method)`. The calls that `check_mining_result` and `check_transaction_receipt` make
  -- are of other methods than eth_sendTransaction: they are `request`.
  unfoldable pub call_method : Ethereum P → Text → Text → Result (Text × Ethereum P)
  unfolding settled
  call_method s params method = do
    (buffer, s') ← request s params method
    if has_curl s.curl
        then if same method send_transaction then settled buffer s' else ok (buffer, s')
        else ok ([], s')

  -- `call(params, set_gas)`.
  unfoldable pub filled_in : Ethereum P → Bool → RpcParams → RpcParams
  filled_in s set_gas params = record params {
    from_address = s.account_address;
    to_address =
        if is_empty params.to_address then s.stored_contract_address else params.to_address;
    gas = if set_gas then ethereum_gas else params.gas;
  }

  -- `++nonce_` for a transaction; the nonce is a uint64.
  unfoldable pub numbered : Ethereum P → RpcParams → RpcParams × Ethereum P
  numbered s params =
      if same params.method send_transaction
      then (
        record params { nonce = (s.nonce + 1) % 2 ^ 64 },
        record s { nonce = (s.nonce + 1) % 2 ^ 64 },
      )
      else (params, s)

  abbrev pub json_of : RpcParams → Text
  json_of params = parse_params_to_json params ++ quantity params.quantity_tag

  unfoldable pub call : Ethereum P → RpcParams → Bool → Result (Text × Ethereum P)
  unfolding call_method numbered filled_in
  call s params set_gas =
      let (params', s') = numbered s (filled_in s set_gas params) in
      call_method s' (json_of params') params'.method
