-- ===== src/Ethereum/Receipt.antt =====
-- A receipt that the adapter takes for a good one.
use blockchain_db.Prelude.{
  ◌≡◌, refl, ap, ◌∙◌, true, Bool, Option, none, some, Result, ok, >>=-eq-ok,
}
use blockchain_db.Prelude.Order.{same_iff}
use blockchain_db.Text.{Text, codes}
use blockchain_db.Text.Order.{text_ord}
use blockchain_db.Platform.{Platform}
use blockchain_db.Ethereum.{
  Ethereum, quoted, request, has_status, is_text, and_then, check_transaction_receipt,
}

module _ (P : Platform) where
  -- A JSON text whose member "result" has the member "status" with the text "0x1".
  pub record IsGoodReceipt (receipt : Text) : Type 0 where
    pub json : P.Json
    pub result : P.Json
    pub status : P.Json
    pub parsed : P.parse receipt ≡ some json
    pub has_result : P.at json (codes "result") ≡ some result
    pub has_status : P.at result (codes "status") ≡ some status
    pub succeeded : P.get_string status ≡ some (codes "0x1")

  -- The node has answered the question for the receipt of an id with a good one.
  pub record IsReceived (id : Text) (s after : Ethereum P) : Type 0 where
    pub receipt : Text
    pub asked : request P s (quoted id) (codes "eth_getTransactionReceipt") ≡ ok (receipt, after)
    pub good : IsGoodReceipt receipt

  and_then-some :
      {A B : Type 0} (m : Option A) (f : A → Option B) (b : B)
      → and_then P m f ≡ some b
      → (a : A) × (m ≡ some a) × (f a ≡ some b)
  and_then-some none f b e = cc
  and_then-some (some a) f b e = (a, refl, e)

  is_text-some : (t : Text) (m : Option Text) → is_text P t m ≡ true → m ≡ some t
  is_text-some t none e = cc
  is_text-some t (some s) e = ap some ((same_iff s t).0 e)

  has_status-IsGoodReceipt : (receipt : Text) → has_status P receipt ≡ true → IsGoodReceipt receipt
  unfolding has_status
  has_status-IsGoodReceipt receipt e =
      let found = is_text-some (codes "0x1") _ e in
      let (json, parsed, more) = and_then-some (P.parse receipt) _ (codes "0x1") found in
      let (result, has_result, more2) =
        and_then-some (P.at json (codes "result")) _ (codes "0x1") more in
      let (status, has_status, succeeded) =
        and_then-some (P.at result (codes "status")) _ (codes "0x1") more2 in
      record {
        json = json;
        result = result;
        status = status;
        parsed = parsed;
        has_result = has_result;
        has_status = has_status;
        succeeded = succeeded;
      }

  abbrev told : Text × Ethereum P → Result (Bool × Ethereum P)
  told (response, s') = ok (has_status P response, s')

  told_lem :
      (response : Text) (s' after : Ethereum P)
      → told (response, s') ≡ ok (true, after)
      → (has_status P response ≡ true) × (s' ≡ after)
  told_lem response s' after e = (cc, cc)

  pub check_transaction_receipt-IsReceived :
      (id : Text) (s after : Ethereum P)
      → check_transaction_receipt P id s ≡ ok (true, after)
      → IsReceived id s after
  unfolding check_transaction_receipt
  check_transaction_receipt-IsReceived id s after run =
      let ((receipt, s'), asked, more) =
        >>=-eq-ok (request P s (quoted id) (codes "eth_getTransactionReceipt")) told run in
      let (good, last) = told_lem receipt s' after more in
      record {
        receipt = receipt;
        asked = asked ∙ ap (λ t. ok (receipt, t)) last;
        good = has_status-IsGoodReceipt receipt good;
      }
