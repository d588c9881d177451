-- ===== src/Ethereum/Settled.antt =====
-- A transaction from its sending to its receipt.
use blockchain_db.Prelude.{
  ℕ, zero, suc, ◌+◌, ◌*◌, ◌^◌, ◌<◌, ◌≡◌, refl, ◌∙◌, true, false, if◌then◌else◌, ok,
}
use blockchain_db.Prelude.Order.{same_refl}
use blockchain_db.Text.{Text, codes}
use blockchain_db.Text.Order.{text_ord}
use blockchain_db.Platform.{Platform}
use blockchain_db.Ethereum.{
  Ethereum, handle, post_data, quoted, send_transaction, result_text, parse_tx_response, is_mined,
  has_status, check_transaction_receipt, settled, call_method,
}
use blockchain_db.Ethereum.Requests.{request_lem, has_curl-handle}
use blockchain_db.Ethereum.Mining.{asked, polled, answer, check_mining_result-finds}

module _ (P : Platform) (url : Text) where
  polled-curl :
      (transaction_id : Text) (n : ℕ) (s : Ethereum P)
      → (polled P url transaction_id n s).curl ≡ s.curl
  unfolding polled
  polled-curl transaction_id zero s = refl
  polled-curl transaction_id (suc n) s =
      polled-curl transaction_id n (record s { world = (asked P url transaction_id s).1 })

  check_transaction_receipt_lem :
      (transaction_id receipt : Text) (s : Ethereum P) (w : P.World)
      → s.curl ≡ handle url
      → P.perform s.world url
          (post_data (quoted transaction_id) (codes "eth_getTransactionReceipt"))
        ≡ (receipt, w)
      → check_transaction_receipt P transaction_id s
        ≡ ok (has_status P receipt, record s { world = w })
  unfolding check_transaction_receipt
  check_transaction_receipt_lem transaction_id receipt s w here answered =
      rw
        (request_lem P s url (quoted transaction_id) (codes "eth_getTransactionReceipt") receipt w
          here answered)
        refl

  -- The adapter when the node has answered the transaction, and when it has answered with its block.
  abbrev pub sent : Ethereum P → P.World → Ethereum P
  sent s w = record s { world = w }

  abbrev pub mined : Text → ℕ → Ethereum P → Ethereum P
  mined transaction_id n s = polled P url transaction_id (suc n) s

  -- With a handle of libcurl and a waiting time below 2 ^ 63 ms, a call that sends a transaction, which the
  -- node answers with its id, of which the node's first answer with a block number is the one to a
  -- question asked within the waiting time, and whose receipt it answers then: the call returns, with
  -- the answer about the block if the receipt has the status "0x1", and with "error" if not.
  pub call_method-mined :
      (s : Ethereum P) (params buffer transaction_id receipt : Text) (w w' : P.World) (n : ℕ)
      → s.curl ≡ handle url
      → P.perform s.world url (post_data params send_transaction) ≡ (buffer, w)
      → result_text P (parse_tx_response P buffer) ≡ ok transaction_id
      → s.max_waiting_time < 2 ^ 63
      → (n + 1) * 200 < s.max_waiting_time
      → ((k : ℕ) → k < n → is_mined P (answer P url transaction_id k (sent s w)) ≡ false)
      → is_mined P (answer P url transaction_id n (sent s w)) ≡ true
      → P.perform
          (mined transaction_id n (sent s w)).world
          url
          (post_data (quoted transaction_id) (codes "eth_getTransactionReceipt"))
        ≡ (receipt, w')
      → call_method P s params send_transaction
        ≡ ok (
          if has_status P receipt then answer P url transaction_id n (sent s w) else codes "error",
          record (mined transaction_id n (sent s w)) { world = w' },
        )
  unfolding call_method settled
  call_method-mined s params buffer transaction_id receipt w w' n here answered id short due before
        block receives =
      rw
        (
          request_lem P s url params send_transaction buffer w here answered,
          has_curl-handle s.curl url here,
          same_refl send_transaction,
          id,
          check_mining_result-finds P url transaction_id n (sent s w) here short due before block,
          check_transaction_receipt_lem transaction_id receipt (mined transaction_id n (sent s w))
              w' (polled-curl transaction_id (suc n) (sent s w) ∙ here) receives,
        )
        refl
