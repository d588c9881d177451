-- ===== src/Ethereum/Mining.antt =====
-- The loop of `check_mining_result` ends, and gives the transaction's block when the node has one.
use blockchain_db.Prelude.{
  ℕ, zero, suc, ◌+◌, ◌*◌, ◌/◌, ◌%◌, ◌^◌, ◌≤◌, ◌<◌, ◌≡◌, refl, ap, ◌∙◌, ◌⊎◌, true, false, [], ltb,
  lt→ltb, ltb→lt, Bool-cases, inl, inr, if◌then◌else◌, ok, arith,
}
use blockchain_db.Text.{Text, codes}
use blockchain_db.Platform.{Platform}
use blockchain_db.Ethereum.{
  Ethereum, handle, request, request_at, poll, is_mined, mining_loop, check_mining_result,
  post_data, quoted, mining_check_interval,
}

module _ (P : Platform) (url transaction_id : Text) where
  -- One turn at a handle: what the node answers, and the adapter afterwards.
  abbrev pub asked : Ethereum P → Text × P.World
  asked s =
      P.perform (P.sleep_for s.world mining_check_interval) url
        (post_data (quoted transaction_id) (codes "eth_getTransactionByHash"))

  abbrev pub after : Ethereum P → Ethereum P
  after s = record s { world = (asked s).1 }

  -- The adapter after so many turns, and the answer in the turn with a number.
  unfoldable pub polled : ℕ → Ethereum P → Ethereum P
  polled zero s = s
  polled (suc n) s = polled n (after s)

  unfoldable pub answer : ℕ → Ethereum P → Text
  answer zero s = (asked s).0
  answer (suc n) s = answer n (after s)

  poll_lem :
      (s : Ethereum P) → s.curl ≡ handle url → poll P transaction_id s ≡ ok ((asked s).0, after s)
  unfolding poll request
  poll_lem s here =
      ap
        (λ c.
          request_at P c (record s { world = P.sleep_for s.world mining_check_interval })
            (post_data (quoted transaction_id) (codes "eth_getTransactionByHash")))
        here

  -- A turn that is due.
  turn :
      (fuel waited : ℕ) (response : Text) (s : Ethereum P)
      → s.curl ≡ handle url
      → waited + 200 < s.max_waiting_time
      → s.max_waiting_time < 2 ^ 63
      → mining_loop P (suc fuel) transaction_id waited response s ≡ (
          if is_mined P (asked s).0
          then ok ((asked s).0, after s)
          else mining_loop P fuel transaction_id (waited + 200) (asked s).0 (after s))
  unfolding mining_loop
  turn fuel waited response s here due short =
      let stays : (waited + 200) % 2 ^ 64 ≡ waited + 200 = omega arith in
      rw (stays, lt→ltb (waited + 200) s.max_waiting_time due, poll_lem s here) refl

  time_up :
      (fuel waited : ℕ) (response : Text) (s : Ethereum P)
      → s.max_waiting_time ≤ waited + 200
      → waited + 200 < 2 ^ 64
      → mining_loop P (suc fuel) transaction_id waited response s ≡ ok (response, s)
  unfolding mining_loop
  time_up fuel waited response s up short =
      let stays : (waited + 200) % 2 ^ 64 ≡ waited + 200 = omega arith in
      let over : ltb (waited + 200) s.max_waiting_time ≡ false = ground arith in
      rw (stays, over) refl

  abbrev Returns : ℕ → ℕ → Text → Ethereum P → Type 0
  Returns fuel waited response s =
      (n : ℕ) × (r : Text) × (mining_loop P (suc fuel) transaction_id waited response s
        ≡ ok (r, polled n s))
      × ((n ≡ 0) ⊎ (waited + n * 200 < s.max_waiting_time))

  one_more :
      (waited n max : ℕ)
      → waited + 200 < max
      → (n ≡ 0) ⊎ (waited + 200 + n * 200 < max)
      → (suc n ≡ 0) ⊎ (waited + suc n * 200 < max)
  one_more waited n max due (inl e) = inr (omega arith)
  one_more waited n max due (inr h) = inr (omega arith)

  mining_loop-Returns :
      (fuel waited : ℕ) (response : Text) (s : Ethereum P)
      → s.curl ≡ handle url
      → s.max_waiting_time ≤ waited + 200 * suc fuel
      → waited ≤ s.max_waiting_time
      → s.max_waiting_time < 2 ^ 63
      → Returns fuel waited response s
  unfolding polled
  mining_loop-Returns zero waited response s here enough within short =
      (0, response, time_up 0 waited response s (omega arith) (omega arith), inl refl)
  mining_loop-Returns (suc fuel) waited response s here enough within short =
      elim (Bool-cases (ltb (waited + 200) s.max_waiting_time)) [
        | inr over ↦ (
          0,
          response,
          time_up (suc fuel) waited response s (ground arith) (omega arith),
          inl refl,
        )
        | inl e ↦
            let due = ltb→lt (waited + 200) s.max_waiting_time e in
            let first = turn (suc fuel) waited response s here due short in
            elim (Bool-cases (is_mined P (asked s).0)) [
              | inl mined ↦ (1, (asked s).0, first ∙ rw mined refl, inr (omega arith))
              | inr not_yet ↦
                  let (n, r, run, bound) =
                    mining_loop-Returns fuel (waited + 200) (asked s).0 (after s) here (omega arith)
                      (omega arith) short in
                  (suc n, r, first ∙ rw not_yet run, one_more waited n s.max_waiting_time due bound)
            ]
      ]

  from_zero : (n max : ℕ) → (n ≡ 0) ⊎ (0 + n * 200 < max) → (n ≡ 0) ⊎ (n * 200 < max)
  from_zero n max (inl e) = inl e
  from_zero n max (inr h) = inr (omega arith)

  -- With a handle of libcurl and a waiting time below 2 ^ 63 ms, the wait for a transaction returns:
  -- it asks the node some number of times, once in 200 ms and, if at all, for less than the waiting
  -- time, and only the outside world is another afterwards.
  pub check_mining_result-returns :
      (s : Ethereum P)
      → s.curl ≡ handle url
      → s.max_waiting_time < 2 ^ 63
      → (n : ℕ) × (r : Text) × (check_mining_result P transaction_id s ≡ ok (r, polled n s))
        × ((n ≡ 0) ⊎ (n * 200 < s.max_waiting_time))
  unfolding check_mining_result
  check_mining_result-returns s here short =
      let (n, r, run, bound) =
        mining_loop-Returns (s.max_waiting_time / 200) 0 [] s here (omega arith) (omega arith)
          short in
      (n, r, run, from_zero n s.max_waiting_time bound)

  finds :
      (n fuel waited : ℕ) (response : Text) (s : Ethereum P)
      → s.curl ≡ handle url
      → s.max_waiting_time < 2 ^ 63
      → waited + (n + 1) * 200 < s.max_waiting_time
      → n ≤ fuel
      → ((k : ℕ) → k < n → is_mined P (answer k s) ≡ false)
      → is_mined P (answer n s) ≡ true
      → mining_loop P (suc fuel) transaction_id waited response s
        ≡ ok (answer n s, polled (suc n) s)
  unfolding polled answer
  finds zero fuel waited response s here short due enough before mined =
      turn fuel waited response s here (omega arith) short ∙ rw mined refl
  finds (suc n) zero waited response s here short due enough before mined = absurd (omega arith)
  finds (suc n) (suc fuel) waited response s here short due enough before mined =
      turn (suc fuel) waited response s here (omega arith) short
      ∙ rw (before 0 (omega arith)) (
          finds n fuel (waited + 200) (asked s).0 (after s) here short (omega arith) (omega arith)
            (λ k h. before (suc k) (omega arith)) mined)

  -- With a handle of libcurl and a waiting time below 2 ^ 63 ms: if the first answer with a block
  -- number is the one to a question that is asked within the waiting time, then the wait for the
  -- transaction returns that answer and asks no more.
  pub check_mining_result-finds :
      (n : ℕ) (s : Ethereum P)
      → s.curl ≡ handle url
      → s.max_waiting_time < 2 ^ 63
      → (n + 1) * 200 < s.max_waiting_time
      → ((k : ℕ) → k < n → is_mined P (answer k s) ≡ false)
      → is_mined P (answer n s) ≡ true
      → check_mining_result P transaction_id s ≡ ok (answer n s, polled (suc n) s)
  unfolding check_mining_result
  check_mining_result-finds n s here short due before mined =
      finds n (s.max_waiting_time / 200) 0 [] s here short (omega arith) (omega arith) before mined
