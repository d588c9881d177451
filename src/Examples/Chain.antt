-- ===== src/Examples/Chain.antt =====
-- An Ethereum adapter whose node answers with texts that stand for responses.
use blockchain_db.Prelude.{
  ℕ, zero, suc, ◌*◌, ◌<◌, ◌≡◌, refl, ◌⊎◌, true, false, List, [], ◌∷◌, ◌++◌, ok, arith,
}
use blockchain_db.Prelude.Order.{same}
use blockchain_db.Text.{Text, codes, text_lt}
use blockchain_db.Text.Order.{text_ord}
use blockchain_db.Map.{Map, find}
use blockchain_db.Encoding.{int_to_hex}
use blockchain_db.Platform.{Platform}
use blockchain_db.Ethereum.{Ethereum, handle, check_mining_result, is_mined, send_transaction}
use blockchain_db.Ethereum.Params.{RpcParams, no_params}
use blockchain_db.Ethereum.Mining.{
  polled, answer, check_mining_result-returns, check_mining_result-finds,
}
use blockchain_db.Contract.{deployed, run, table_scan}
use blockchain_db.Contract.Scanned.{returned}
use blockchain_db.Examples.Contracts.{three_calls}
use blockchain_db.Examples.Node.{
  Value, null_value, empty_object, text_value, with_member, machine, member_of,
}

abbrev pub result_of : Value → Value
result_of v = with_member (codes "result") v empty_object

-- What the contract answers to a scan.
abbrev pub scanned_text : Text
scanned_text = returned (table_scan (run three_calls deployed))

abbrev pub responses : Map Text Value
responses =
    (codes "rows", result_of (text_value (codes "0x" ++ scanned_text)))
    ∷ (
      codes "receipt",
      result_of (with_member (codes "status") (text_value (codes "0x1")) empty_object),
    )
    ∷ (codes "sent", result_of (text_value (codes "0x1")))
    ∷ (codes "count", result_of (text_value (codes "0x" ++ int_to_hex 5 0)))
    ∷ (
      codes "mined",
      result_of (with_member (codes "blockNumber") (text_value (codes "0x7")) empty_object),
    )
    ∷ (codes "pending", result_of (with_member (codes "blockNumber") null_value empty_object))
    ∷ []

abbrev pub chain : Platform
chain = machine responses

abbrev pub url : Text
url = codes "http://node"

-- An adapter that may wait for a second.
abbrev pub connected : List Text → Ethereum chain
connected answers = record {
  table_name = [];
  account_address = codes "0xa";
  stored_contract_address = codes "0xc";
  config = record { texts = (codes "Adapter-Ethereum.connection-url", url) ∷ []; numbers = [] };
  curl = handle url;
  max_waiting_time = 1000;
  nonce = 0;
  world = answers;
}

abbrev soon_mined : Ethereum chain
soon_mined = connected (codes "pending" ∷ codes "mined" ∷ [])

check_mining_result-returns_example :
    (n : ℕ) × (r : Text) × (check_mining_result chain (codes "0x1") soon_mined
      ≡ ok (r, polled chain url (codes "0x1") n soon_mined))
    × ((n ≡ 0) ⊎ (n * 200 < 1000))
check_mining_result-returns_example =
    check_mining_result-returns chain url (codes "0x1") soon_mined refl (omega arith)

pending_first :
    (k : ℕ) → k < 1 → is_mined chain (answer chain url (codes "0x1") k soon_mined) ≡ false
unfolding is_mined answer member_of find same text_ord text_lt
pending_first zero h = refl
pending_first (suc k) h = absurd (omega arith)

mined_second : is_mined chain (answer chain url (codes "0x1") 1 soon_mined) ≡ true
unfolding is_mined answer member_of find same text_ord text_lt
mined_second = refl

check_mining_result-finds_example :
    check_mining_result chain (codes "0x1") soon_mined
    ≡ ok (answer chain url (codes "0x1") 1 soon_mined, polled chain url (codes "0x1") 2 soon_mined)
check_mining_result-finds_example =
    check_mining_result-finds chain url (codes "0x1") 1 soon_mined refl (omega arith) (omega arith)
      pending_first mined_second

abbrev pub transfer : RpcParams
transfer = record no_params { method = send_transaction }
