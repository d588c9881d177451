-- ===== src/Ethereum/Kept.antt =====
-- What the calls of the node leave as it was: the handle of libcurl, the waiting time, the settings and
-- the account.
use blockchain_db.Prelude.{
  [], ℕ, zero, suc, ◌+◌, ◌/◌, ◌%◌, ◌^◌, ◌≡◌, refl, ◌∙◌, Bool, Bool-cases, inl, inr, ltb, Result, ok,
  fault, ◌>>=◌, Ensures, Ensures-bind, if◌then◌else◌,
}
use blockchain_db.Prelude.Order.{same}
use blockchain_db.Text.{Text, codes}
use blockchain_db.Text.Order.{text_ord}
use blockchain_db.Platform.{Platform}
use blockchain_db.Ethereum.{
  Ethereum, Curl, unset, null_curl, closed, handle, quoted, post_data, send_transaction, has_curl,
  mining_check_interval, request_at, request, result_text, parse_tx_response, is_mined, has_status,
  poll, mining_loop, check_mining_result, check_transaction_receipt, settled, call_method,
  filled_in, numbered, json_of, call,
}
use blockchain_db.Ethereum.Params.{RpcParams}

module _ (P : Platform) where
  pub record IsSameNode (s s' : Ethereum P) : Type 0 where
    pub same_curl : s'.curl ≡ s.curl
    pub same_time : s'.max_waiting_time ≡ s.max_waiting_time
    pub same_config : s'.config ≡ s.config
    pub same_account : s'.account_address ≡ s.account_address

  pub IsSameNode-refl : (s : Ethereum P) → IsSameNode s s
  IsSameNode-refl s = record {
    same_curl = refl;
    same_time = refl;
    same_config = refl;
    same_account = refl;
  }

  pub IsSameNode-trans : (s t u : Ethereum P) → IsSameNode s t → IsSameNode t u → IsSameNode s u
  IsSameNode-trans s t u a b = record {
    same_curl = b.same_curl ∙ a.same_curl;
    same_time = b.same_time ∙ a.same_time;
    same_config = b.same_config ∙ a.same_config;
    same_account = b.same_account ∙ a.same_account;
  }

  -- A call that, if it returns, leaves the node.
  abbrev pub Keeps {ℓ} : {A : Type ℓ} → (A → Ethereum P) → Ethereum P → Result A → Type 0
  Keeps state s r = Ensures (λ a. IsSameNode s (state a)) r

  pub Keeps-trans {ℓ} :
      {B : Type ℓ} (state : B → Ethereum P) (s t : Ethereum P) (r : Result B)
      → IsSameNode s t
      → Keeps state t r
      → Keeps state s r
  Keeps-trans state s t (ok b) first h = IsSameNode-trans s t (state b) first h
  Keeps-trans state s t (fault e) first h = tt

  pub Keeps-bind {ℓ κ} :
      {A : Type ℓ} {B : Type κ} (state_a : A → Ethereum P) (state : B → Ethereum P) (s : Ethereum P)
      (m : Result A) (f : A → Result B)
      → Keeps state_a s m
      → ((a : A) → Keeps state (state_a a) (f a))
      → Keeps state s (m >>= f)
  Keeps-bind state_a state s (ok a) f first later =
      Keeps-trans state s (state_a a) (f a) first (later a)
  Keeps-bind state_a state s (fault e) f first later = tt

  -- A step that does not touch the adapter.
  pub Keeps-pure {ℓ κ} :
      {A : Type ℓ} {B : Type κ} (state : B → Ethereum P) (s : Ethereum P) (m : Result A)
      (f : A → Result B)
      → ((a : A) → Keeps state s (f a))
      → Keeps state s (m >>= f)
  Keeps-pure state s m f later = Ensures-bind (λ b. IsSameNode s (state b)) m f (λ a e. later a)

  request_at-Keeps :
      (c : Curl) (s : Ethereum P) (post : Text) → Keeps (λ r. r.1) s (request_at P c s post)
  request_at-Keeps (handle url) s post = record {
    same_curl = refl;
    same_time = refl;
    same_config = refl;
    same_account = refl;
  }
  request_at-Keeps null_curl s post = IsSameNode-refl s
  request_at-Keeps unset s post = tt
  request_at-Keeps closed s post = tt

  pub request-Keeps :
      (s : Ethereum P) (params method : Text) → Keeps (λ r. r.1) s (request P s params method)
  unfolding request
  request-Keeps s params method = request_at-Keeps s.curl s (post_data params method)

  poll-Keeps : (s : Ethereum P) (id : Text) → Keeps (λ r. r.1) s (poll P id s)
  unfolding poll
  poll-Keeps s id =
      let slept : Ethereum P = record s { world = P.sleep_for s.world mining_check_interval } in
      Keeps-trans (λ r. r.1) s slept
        (request P slept (quoted id) (codes "eth_getTransactionByHash"))
        (record { same_curl = refl; same_time = refl; same_config = refl; same_account = refl })
        (request-Keeps slept (quoted id) (codes "eth_getTransactionByHash"))

  abbrev counted_on : ℕ → ℕ
  counted_on waited = (waited + mining_check_interval) % 2 ^ 64

  abbrev mining_next : ℕ → Text → ℕ → Text × Ethereum P → Result (Text × Ethereum P)
  mining_next fuel id waited (response', s') =
      if is_mined P response'
      then ok (response', s')
      else mining_loop P fuel id (counted_on waited) response' s'

  mining_next-Keeps :
      (fuel : ℕ) (id : Text) (waited : ℕ) (r : Text × Ethereum P)
      → Keeps (λ r. r.1) r.1 (mining_loop P fuel id (counted_on waited) r.0 r.1)
      → Keeps (λ r. r.1) r.1 (mining_next fuel id waited r)
  mining_next-Keeps fuel id waited (response', s') later =
      elim (Bool-cases (is_mined P response')) [
        | inl e ↦ rw e (IsSameNode-refl s')
        | inr e ↦ rw e later
      ]

  mining_loop-Keeps :
      (fuel : ℕ) (id : Text) (waited : ℕ) (response : Text) (s : Ethereum P)
      → Keeps (λ r. r.1) s (mining_loop P fuel id waited response s)
  unfolding mining_loop
  mining_loop-Keeps zero id waited response s = tt
  mining_loop-Keeps (suc fuel) id waited response s =
      elim (Bool-cases (ltb (counted_on waited) s.max_waiting_time)) [
        | inr e ↦ rw e (IsSameNode-refl s)
        | inl e ↦ rw e (
            Keeps-bind (λ r. r.1) (λ r. r.1) s (poll P id s) (mining_next fuel id waited)
              (poll-Keeps s id)
              (λ r.
                mining_next-Keeps fuel id waited r
                  (mining_loop-Keeps fuel id (counted_on waited) r.0 r.1)))
      ]

  pub check_mining_result-Keeps :
      (id : Text) (s : Ethereum P) → Keeps (λ r. r.1) s (check_mining_result P id s)
  unfolding check_mining_result
  check_mining_result-Keeps id s =
      mining_loop-Keeps (suc (s.max_waiting_time / mining_check_interval)) id 0 [] s

  pub check_transaction_receipt-Keeps :
      (id : Text) (s : Ethereum P) → Keeps (λ r. r.1) s (check_transaction_receipt P id s)
  unfolding check_transaction_receipt
  check_transaction_receipt-Keeps id s =
      Keeps-bind (λ r. r.1) (λ r. r.1) s
        (request P s (quoted id) (codes "eth_getTransactionReceipt"))
        (λ r. ok (has_status P r.0, r.1))
        (request-Keeps s (quoted id) (codes "eth_getTransactionReceipt")) (λ r. IsSameNode-refl r.1)

  abbrev pub checked_text : Text → Bool × Ethereum P → Result (Text × Ethereum P)
  checked_text read_buffer (success, checked) =
      ok (if success then read_buffer else codes "error", checked)

  abbrev pub mined_text : Text → Text × Ethereum P → Result (Text × Ethereum P)
  mined_text id (read_buffer, mined) =
      check_transaction_receipt P id mined >>= checked_text read_buffer

  settled-Keeps : (buffer : Text) (s : Ethereum P) → Keeps (λ r. r.1) s (settled P buffer s)
  unfolding settled
  settled-Keeps buffer s =
      Keeps-pure (λ r. r.1) s (result_text P (parse_tx_response P buffer))
        (λ id. check_mining_result P id s >>= mined_text id)
        (λ id.
          Keeps-bind (λ r. r.1) (λ r. r.1) s (check_mining_result P id s) (mined_text id)
            (check_mining_result-Keeps id s)
            (λ m.
              Keeps-bind (λ r. r.1) (λ r. r.1) m.1 (check_transaction_receipt P id m.1)
                (checked_text m.0) (check_transaction_receipt-Keeps id m.1)
                (λ r. IsSameNode-refl r.1)))

  abbrev answered : Ethereum P → Text → Text × Ethereum P → Result (Text × Ethereum P)
  answered s method (buffer, s') =
      if has_curl s.curl
      then if same method send_transaction then settled P buffer s' else ok (buffer, s')
      else ok ([], s')

  answered-Keeps :
      (s : Ethereum P) (method : Text) (r : Text × Ethereum P)
      → Keeps (λ r. r.1) r.1 (answered s method r)
  answered-Keeps s method (buffer, s') = elim (Bool-cases (has_curl s.curl)) [
    | inr e ↦ rw e (IsSameNode-refl s')
    | inl e ↦ elim (Bool-cases (same method send_transaction)) [
      | inl h ↦ rw (e, h) (settled-Keeps buffer s')
      | inr h ↦ rw (e, h) (IsSameNode-refl s')
    ]
  ]

  pub call_method-Keeps :
      (s : Ethereum P) (params method : Text) → Keeps (λ r. r.1) s (call_method P s params method)
  unfolding call_method
  call_method-Keeps s params method =
      Keeps-bind (λ r. r.1) (λ r. r.1) s (request P s params method) (answered s method)
        (request-Keeps s params method) (answered-Keeps s method)

  pub numbered-IsSameNode :
      (s : Ethereum P) (params : RpcParams) → IsSameNode s (numbered P s params).1
  unfolding numbered
  numbered-IsSameNode s params = elim (Bool-cases (same params.method send_transaction)) [
    | inl e ↦
        rw e
          (record { same_curl = refl; same_time = refl; same_config = refl; same_account = refl })
    | inr e ↦ rw e (IsSameNode-refl s)
  ]

  pub call-Keeps :
      (s : Ethereum P) (params : RpcParams) (set_gas : Bool)
      → Keeps (λ r. r.1) s (call P s params set_gas)
  unfolding call
  call-Keeps s params set_gas =
      let q = numbered P s (filled_in P s set_gas params) in
      Keeps-trans (λ r. r.1) s q.1 (call_method P q.1 (json_of P q.0) q.0.method)
        (numbered-IsSameNode s (filled_in P s set_gas params))
        (call_method-Keeps q.1 (json_of P q.0) q.0.method)
