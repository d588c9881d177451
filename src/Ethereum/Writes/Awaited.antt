-- ===== src/Ethereum/Writes/Awaited.antt =====
-- What the loop that waits does with each entry.
use blockchain_db.Prelude.{
  ℕ, zero, suc, ◌≡◌, refl, sym, ◌∙◌, ap, Bool, true, false, some, List, [], ◌∷◌, ◌++◌, take,
  get_elem?, Result, ok, ◌>>=◌, >>=-eq-ok, if◌then◌else◌,
}
use mathlib.Core.Path.{subst}
use mathlib.Core.Option.{some-injective}
use blockchain_db.Text.{Text}
use blockchain_db.Text.Order.{text_ord}
use blockchain_db.Map.{Map, find}
use blockchain_db.Platform.{Platform}
use blockchain_db.Ethereum.{Ethereum, check_mining_result, check_transaction_receipt}
use blockchain_db.Ethereum.Receipt.{IsReceived, check_transaction_receipt-IsReceived}
use blockchain_db.Ethereum.Writes.{key_defined, await_all}

module _ (P : Platform) where
  -- A transaction of which the receipt is good, after the waits for the entries before it.
  pub record IsSettled (entries keys : Map Text Text) (s : Ethereum P) (id : Text) : Type 0 where
    pub earlier : ℕ
    pub waiter : Ethereum P
    pub response : Text
    pub mined : Ethereum P
    pub checked : Ethereum P
    pub before : await_all P (take earlier entries) keys s ≡ ok ([], waiter)
    pub waits : check_mining_result P id waiter ≡ ok (response, mined)
    pub received : check_transaction_receipt P id mined ≡ ok (true, checked)
    pub receipt : IsReceived P id mined checked

  abbrev collected_keys : List Text → List Text × Ethereum P → Result (List Text × Ethereum P)
  collected_keys failed (output, s') = ok (failed ++ output, s')

  abbrev failed_key : Map Text Text → Text → Result (List Text)
  failed_key keys json = do key ← key_defined (find json keys); ok (key ∷ [])

  abbrev checked_next :
      Map Text Text → Map Text Text → Text → Bool × Ethereum P → Result (List Text × Ethereum P)
  checked_next rest keys json (success, checked) = do
    failed ← if success then ok [] else (do key ← key_defined (find json keys); ok (key ∷ []))
    (output, s') ← await_all P rest keys checked
    ok (failed ++ output, s')

  abbrev mined_next :
      Map Text Text
      → Map Text Text
      → Text
      → Text
      → Text × Ethereum P
      → Result (List Text × Ethereum P)
  mined_next rest keys json id (response, mined) =
      check_transaction_receipt P id mined >>= checked_next rest keys json

  checked_next-good :
      (rest keys : Map Text Text) (json : Text) (success : Bool) (checked after : Ethereum P)
      → checked_next rest keys json (success, checked) ≡ ok ([], after)
      → (success ≡ true) × (await_all P rest keys checked ≡ ok ([], after))
  checked_next-good rest keys json true checked after run =
      let ((output, s'), others, end) =
        >>=-eq-ok (await_all P rest keys checked) (collected_keys []) run in
      (refl, others ∙ end)
  checked_next-good rest keys json false checked after run =
      let (failed, adds, more) =
        >>=-eq-ok (failed_key keys json)
          (λ failed. await_all P rest keys checked >>= collected_keys failed) run in
      let (key, found, one) =
        >>=-eq-ok (key_defined (find json keys)) (λ key. ok (key ∷ [])) adds in
      let ((output, s'), others, end) =
        >>=-eq-ok (await_all P rest keys checked) (collected_keys failed) more in
      let has_key : failed ≡ key ∷ [] = cc in
      let not_empty : ◌≡◌ {A = Result (List Text × Ethereum P)} (ok (key ∷ output, s'))
          (ok ([], after)) =
        ap (λ x. ok (x ++ output, s')) (sym has_key) ∙ end in
      cc

  -- One turn of the loop that waits, when none has failed.
  await_step :
      (json id : Text) (rest keys : Map Text Text) (s after : Ethereum P)
      → await_all P ((json, id) ∷ rest) keys s ≡ ok ([], after)
      → (response : Text) × (mined : Ethereum P) × (checked : Ethereum P) × (check_mining_result P
            id s
          ≡ ok (response, mined))
        × (check_transaction_receipt P id mined ≡ ok (true, checked))
        × (await_all P rest keys checked ≡ ok ([], after))
  unfolding await_all
  await_step json id rest keys s after run =
      let ((response, mined), waits, next) =
        >>=-eq-ok (check_mining_result P id s) (mined_next rest keys json id) run in
      let ((success, checked), received, last) =
        >>=-eq-ok (check_transaction_receipt P id mined) (checked_next rest keys json) next in
      let (good, others) = checked_next-good rest keys json success checked after last in
      (response, mined, checked, waits, received ∙ ap (λ b. ok (b, checked)) good, others)

  await_onwards :
      (json id response : Text) (rest keys : Map Text Text) (s mined checked waiter : Ethereum P)
      → check_mining_result P id s ≡ ok (response, mined)
      → check_transaction_receipt P id mined ≡ ok (true, checked)
      → await_all P rest keys checked ≡ ok ([], waiter)
      → await_all P ((json, id) ∷ rest) keys s ≡ ok ([], waiter)
  unfolding await_all
  await_onwards json id response rest keys s mined checked waiter waits received others =
      rw (waits, received, others) refl

  -- When none has failed, each transaction has a good receipt.
  pub await_all-IsSettled :
      (batch keys : Map Text Text) (s after : Ethereum P) (i : ℕ) (json id : Text)
      → await_all P batch keys s ≡ ok ([], after)
      → get_elem? batch i ≡ some (json, id)
      → IsSettled batch keys s id
  unfolding await_all
  await_all-IsSettled [] keys s after i json id run here = cc
  await_all-IsSettled ((json0, id0) ∷ batch) keys s after zero json id run here =
      let (response, mined, checked, waits, received, others) =
        await_step json0 id0 batch keys s after run in
      let entry : ◌≡◌ {A = Text × Text} (json0, id0) (json, id) =
        some-injective (json0, id0) (json, id) here in
      subst (λ (e : Text × Text). IsSettled ((json0, id0) ∷ batch) keys s e.1) entry
        (record {
          earlier = 0;
          waiter = s;
          response = response;
          mined = mined;
          checked = checked;
          before = refl;
          waits = waits;
          received = received;
          receipt = check_transaction_receipt-IsReceived P id0 mined checked received;
        })
  await_all-IsSettled ((json0, id0) ∷ batch) keys s after (suc i) json id run here =
      let (response, mined, checked, waits, received, others) =
        await_step json0 id0 batch keys s after run in
      let settled = await_all-IsSettled batch keys checked after i json id others here in
      record {
        earlier = suc settled.earlier;
        waiter = settled.waiter;
        response = settled.response;
        mined = settled.mined;
        checked = settled.checked;
        before =
            await_onwards json0 id0 response (take settled.earlier batch) keys s mined checked
              settled.waiter waits received settled.before;
        waits = settled.waits;
        received = settled.received;
        receipt = settled.receipt;
      }
