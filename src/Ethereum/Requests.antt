-- ===== src/Ethereum/Requests.antt =====
-- What a call of the node gives.
use blockchain_db.Prelude.{◌≡◌, refl, ap, ◌∙◌, true, false, ok}
use blockchain_db.Prelude.Order.{same}
use blockchain_db.Text.{Text, codes, text_lt}
use blockchain_db.Text.Order.{text_ord}
use blockchain_db.Platform.{Platform}
use blockchain_db.Ethereum.{
  Ethereum, Curl, handle, has_curl, post_data, json_of, filled_in, numbered, call_method, call,
  request, request_at, send_transaction,
}
use blockchain_db.Ethereum.Params.{RpcParams}

pub has_curl-handle : (c : Curl) (url : Text) → c ≡ handle url → has_curl c ≡ true
has_curl-handle c url here = rw here refl

no_transaction : same (codes "eth_call") send_transaction ≡ false
unfolding same text_lt text_ord
no_transaction = refl

-- Parameters for a call that only reads.
abbrev pub to_read : RpcParams → RpcParams
to_read params = record params { method = codes "eth_call" }

module _ (P : Platform) where
  -- A call at a handle gives what the node answers.
  pub request_lem :
      (s : Ethereum P) (url params method response : Text) (w : P.World)
      → s.curl ≡ handle url
      → P.perform s.world url (post_data params method) ≡ (response, w)
      → request P s params method ≡ ok (response, record s { world = w })
  unfolding request
  request_lem s url params method response w here answered =
      ap (λ c. request_at P c s (post_data params method)) here ∙ rw answered refl

  -- The data of the POST for a call that reads.
  abbrev pub read_post : Ethereum P → RpcParams → Text
  read_post s params =
      post_data (json_of P (filled_in P s false (to_read params))) (codes "eth_call")

  -- A call that reads gives what the node answers, and takes no nonce.
  pub call-to_read :
      (s : Ethereum P) (params : RpcParams) (url response : Text) (w : P.World)
      → s.curl ≡ handle url
      → P.perform s.world url (read_post s params) ≡ (response, w)
      → call P s (to_read params) false ≡ ok (response, record s { world = w })
  unfolding call call_method numbered filled_in
  call-to_read s params url response w here answered =
      rw
        (
          no_transaction,
          request_lem s url (json_of P (filled_in P s false (to_read params))) (codes "eth_call")
              response w here answered,
          has_curl-handle s.curl url here,
          no_transaction,
        )
        refl
