-- ===== src/Ethereum/Writes/Completed.antt =====
-- A `remove` from the count of the transactions to the receipt.
use blockchain_db.Prelude.{
  ℕ, ◌+◌, ◌*◌, ◌^◌, ◌<◌, ◌≡◌, refl, ◌∙◌, ap, Bool, true, false, ◌++◌, ok, pos, ◌>>=◌, if◌then◌else◌,
  Ensures-eq_ok, arith,
}
use blockchain_db.Prelude.Order.{same}
use blockchain_db.Bytes.{Bytes}
use blockchain_db.Text.{Text, codes, text_lt}
use blockchain_db.Text.Order.{text_ord}
use blockchain_db.Encoding.{byte_array_to_hex}
use blockchain_db.Word.{convert_to_32byte}
use blockchain_db.Platform.{Platform}
use blockchain_db.Contract.Sent.{convert_to_32byte-key_word}
use blockchain_db.Ethereum.{
  Ethereum, handle, quoted, post_data, and_then, send_transaction, parse_tx_response, result_text,
  is_mined, has_status, call_method, filled_in, numbered, json_of, call,
}
use blockchain_db.Ethereum.Kept.{IsSameNode}
use blockchain_db.Ethereum.Mining.{answer}
use blockchain_db.Ethereum.Requests.{request_lem}
use blockchain_db.Ethereum.Settled.{sent, mined, call_method-mined}
use blockchain_db.Ethereum.Reads.{member_text, without_0x, counted_nonce, update_nonce}
use blockchain_db.Ethereum.Reads.Kept.{update_nonce-Keeps}
use blockchain_db.Ethereum.Writes.{code_of, remove}
use blockchain_db.Ethereum.Writes.Removed.{sent_removal, numbered_node, coded, called, error_code}

module _ (P : Platform) (url : Text) where
  abbrev count_answer : Ethereum P → Text × P.World
  count_answer s = P.perform s.world url (
      post_data (quoted s.account_address ++ codes ", \"latest\"")
        (codes "eth_getTransactionCount"))

  -- The adapter after the node's answer about the count, whatever that is.
  abbrev pub counted : Ethereum P → Ethereum P
  counted s =
      counted_nonce P (record s { world = (count_answer s).1 })
        (and_then P (member_text P (count_answer s).0) without_0x)

  update_nonce-counted : (s : Ethereum P) → s.curl ≡ handle url → update_nonce P s ≡ ok (counted s)
  unfolding update_nonce
  update_nonce-counted s here =
      ap (λ r. r >>= λ a. ok (counted_nonce P a.1 (and_then P (member_text P a.0) without_0x)))
        (request_lem P s url (quoted s.account_address ++ codes ", \"latest\"")
          (codes "eth_getTransactionCount") (count_answer s).0 (count_answer s).1 here refl)

  -- The adapter that sends the removal, and the text that it sends.
  abbrev pub sender : Ethereum P → Ethereum P
  sender s = numbered_node P (counted s)

  abbrev pub removal_text : Ethereum P → Bytes → Text
  removal_text s key = json_of P (sent_removal P (counted s) key)

  remove-sends :
      (s : Ethereum P) (key : Bytes)
      → s.curl ≡ handle url
      → remove P s key
        ≡ (call_method P (sender s) (removal_text s key) send_transaction >>= coded P)
  unfolding remove call numbered filled_in same text_ord text_lt
  remove-sends s key here =
      ap (λ r. r >>= λ s1. convert_to_32byte (byte_array_to_hex key.value) >>= called P s1)
        (update_nonce-counted s here)
      ∙ ap (λ r. r >>= called P (counted s)) (convert_to_32byte-key_word key)

  coded-settled :
      (success : Bool) (response : Text) (s : Ethereum P)
      → coded P (if success then response else codes "error", s)
        ≡ ok (if success then code_of P response else pos 1, s)
  coded-settled true response s = refl
  coded-settled false response s = ap (λ c. ok (c, s)) (error_code P)

  -- With a handle of libcurl and a waiting time below 2 ^ 63 ms, a `remove` to whose transaction, numbered
  -- by the node's count and with the contract's removal of the key, the node answers with an id, of which
  -- its first answer with a block number is the one to a question asked within the waiting time, and
  -- whose receipt it answers then: the call returns. It answers 1 if the receipt has not the status
  -- "0x1" or the answer about the block holds "error", and 0 if not.
  pub remove-mined :
      (s : Ethereum P) (key : Bytes) (buffer transaction_id receipt : Text) (w w' : P.World) (n : ℕ)
      → s.curl ≡ handle url
      → P.perform (sender s).world url (post_data (removal_text s key) send_transaction)
        ≡ (buffer, w)
      → result_text P (parse_tx_response P buffer) ≡ ok transaction_id
      → s.max_waiting_time < 2 ^ 63
      → (n + 1) * 200 < s.max_waiting_time
      → ((k : ℕ)
          → k < n
          → is_mined P (answer P url transaction_id k (sent P url (sender s) w)) ≡ false)
      → is_mined P (answer P url transaction_id n (sent P url (sender s) w)) ≡ true
      → P.perform
          (mined P url transaction_id n (sent P url (sender s) w)).world
          url
          (post_data (quoted transaction_id) (codes "eth_getTransactionReceipt"))
        ≡ (receipt, w')
      → remove P s key
        ≡ ok (
          if has_status P receipt
              then code_of P (answer P url transaction_id n (sent P url (sender s) w))
              else pos 1,
          record (mined P url transaction_id n (sent P url (sender s) w)) { world = w' },
        )
  remove-mined s key buffer transaction_id receipt w w' n here answered id short due before block
        receives =
      let kept =
        Ensures-eq_ok (λ t. IsSameNode P s t) (update_nonce P s) (update_nonce-Keeps P s)
          (update_nonce-counted s here) in
      let same_time : (sender s).max_waiting_time ≡ s.max_waiting_time = kept.same_time in
      let settled_text =
        call_method-mined P url (sender s) (removal_text s key) buffer transaction_id receipt w w' n
          (kept.same_curl ∙ here) answered id (omega (arith, short, same_time))
          (omega (arith, due, same_time)) before block receives in
      remove-sends s key here
      ∙ ap (λ r. r >>= coded P) settled_text
      ∙ coded-settled (has_status P receipt)
          (answer P url transaction_id n (sent P url (sender s) w))
          (record (mined P url transaction_id n (sent P url (sender s) w)) { world = w' })
