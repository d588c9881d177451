-- ===== src/Ethereum/Writes/Numbered.antt =====
-- Every transaction of a batch gets a text with a nonce.
use blockchain_db.Prelude.{
  ℕ, ◌+◌, ◌%◌, ◌^◌, All-get_elem?, zero, suc, ◌≡◌, refl, sym, ◌∙◌, ap, Bool, some, [], ◌∷◌,
  get_elem?, All, Result, ok, >>=-eq-ok, Option-cases, inl, inr,
}
use mathlib.Core.Path.{subst}
use mathlib.Core.Option.{some-injective}
use blockchain_db.Prelude.Order.{same_refl}
use blockchain_db.Text.{Text}
use blockchain_db.Text.Order.{text_ord}
use blockchain_db.Map.{Map, find, emplace}
use blockchain_db.Map.Lookup.{find-emplace, emplace-All, find-index}
use blockchain_db.Map.Sorted.{IsSorted, emplace-IsSorted}
use blockchain_db.Platform.{Platform}
use blockchain_db.Ethereum.{Ethereum, send_transaction, filled_in, numbered, json_of}
use blockchain_db.Ethereum.Params.{RpcParams}
use blockchain_db.Ethereum.Writes.{ParamsMap, key_defined, create_rpc_batch}
use blockchain_db.Ethereum.Writes.Made.{IsSender, find-emplace_kept}
use blockchain_db.Ethereum.Writes.Nonces.{at_nonce, numbered_lem}

-- An entry of `createRpcBatch`, which is to be posted as a transaction.
abbrev pub IsPosted : Text × Text → Type 0
IsPosted e = e.1 ≡ send_transaction

emplaced_posted :
    (t : Text) (m : Map Text Text)
    → All IsPosted m
    → find t (emplace t send_transaction m) ≡ some send_transaction
emplaced_posted t m posted = elim (Option-cases (find t m)) [
  | inl e ↦ rw (find-emplace, same_refl t, e) refl
  | inr (w, e) ↦
      let (n, here) = find-index t w m e in
      let posts : w ≡ send_transaction = All-get_elem? IsPosted m n (t, w) posted here in
      rw (find-emplace, same_refl t, e, posts) refl
]

module _ (P : Platform) where
  -- The parameters that are sent for given ones.
  abbrev pub sent_params : Ethereum P → RpcParams → Bool → ℕ → RpcParams
  sent_params s params set_gas n = record (filled_in P s set_gas params) { nonce = n }

  create_step :
      (id : Text) (params : RpcParams) (set_gas : Bool) (batch : ParamsMap)
      (km bt kt : Map Text Text) (s : Ethereum P) {r : Map Text Text × Map Text Text × Ethereum P}
      → params.method ≡ send_transaction
      → create_rpc_batch P ((id, (params, set_gas)) ∷ batch) km bt kt s ≡ ok r
      → (n : ℕ) × (kt' : Map Text Text) × (create_rpc_batch P batch km
            (emplace (json_of P (sent_params s params set_gas n)) send_transaction bt)
            kt'
            (at_nonce P s n)
          ≡ ok r)
  unfolding create_rpc_batch filled_in
  create_step id params set_gas batch km bt kt s {r} sends run =
      let n = (s.nonce + 1) % 2 ^ 64 in
      let t = json_of P (sent_params s params set_gas n) in
      let (key, has_key, rest) =
        >>=-eq-ok (key_defined (find id km)) (next (numbered P s (filled_in P s set_gas params)))
          run in
      let as_numbered : next (numbered P s (filled_in P s set_gas params)) key
          ≡ next (sent_params s params set_gas n, at_nonce P s n) key =
        ap (λ q. next q key) (numbered_lem P s (filled_in P s set_gas params) sends) in
      let as_sent : create_rpc_batch P batch km (emplace t params.method bt) (emplace t key kt)
            (at_nonce P s n)
          ≡ create_rpc_batch P batch km (emplace t send_transaction bt) (emplace t key kt)
              (at_nonce P s n) =
        ap
          (λ method.
            create_rpc_batch P batch km (emplace t method bt) (emplace t key kt) (at_nonce P s n))
          sends in
      (n, emplace t key kt, sym as_sent ∙ sym as_numbered ∙ rest)
    where
      next : RpcParams × Ethereum P → Text → Result (Map Text Text × Map Text Text × Ethereum P)
      next q key =
          create_rpc_batch P batch km (emplace (json_of P q.0) q.0.method bt)
            (emplace (json_of P q.0) key kt) q.1

  create-kept :
      (batch : ParamsMap) (km bt kt : Map Text Text) (s : Ethereum P) (t : Text)
      {rb rk : Map Text Text} {s' : Ethereum P}
      → All IsSender batch
      → create_rpc_batch P batch km bt kt s ≡ ok (rb, rk, s')
      → find t bt ≡ some send_transaction
      → find t rb ≡ some send_transaction
  unfolding create_rpc_batch
  create-kept [] km bt kt s t senders run there = cc
  create-kept ((id, (params, set_gas)) ∷ batch) km bt kt s t (sends, senders) run there =
      let (n, kt', rest) = create_step id params set_gas batch km bt kt s sends run in
      create-kept batch km
        (emplace (json_of P (sent_params s params set_gas n)) send_transaction bt) kt'
        (at_nonce P s n) t senders rest
        (find-emplace_kept (json_of P (sent_params s params set_gas n)) t send_transaction
          send_transaction bt there)

  -- The texts ascend, each of a transaction.
  pub create-IsSorted :
      (batch : ParamsMap) (km bt kt : Map Text Text) (s : Ethereum P) {rb rk : Map Text Text}
      {s' : Ethereum P}
      → All IsSender batch
      → create_rpc_batch P batch km bt kt s ≡ ok (rb, rk, s')
      → IsSorted bt
      → IsSorted rb
  unfolding create_rpc_batch
  create-IsSorted [] km bt kt s {rb} senders run sorted =
      let e : bt ≡ rb = cc in subst IsSorted e sorted
  create-IsSorted ((id, (params, set_gas)) ∷ batch) km bt kt s (sends, senders) run sorted =
      let (n, kt', rest) = create_step id params set_gas batch km bt kt s sends run in
      let t = json_of P (sent_params s params set_gas n) in
      create-IsSorted batch km (emplace t send_transaction bt) kt' (at_nonce P s n) senders rest
        (emplace-IsSorted t send_transaction bt sorted)

  -- For an entry of the batch, with some nonce, a text is among those that are sent.
  pub create-sent_params :
      (batch : ParamsMap) (km bt kt : Map Text Text) (s : Ethereum P) (i : ℕ) (id : Text)
      (params : RpcParams) (set_gas : Bool) {rb rk : Map Text Text} {s' : Ethereum P}
      → All IsSender batch
      → All IsPosted bt
      → create_rpc_batch P batch km bt kt s ≡ ok (rb, rk, s')
      → get_elem? batch i ≡ some (id, (params, set_gas))
      → (n : ℕ) × (find (json_of P (sent_params s params set_gas n)) rb ≡ some send_transaction)
  unfolding filled_in
  create-sent_params [] km bt kt s i id params set_gas senders posted run here = cc
  create-sent_params ((id0, (params0, set_gas0)) ∷ batch) km bt kt s zero id params set_gas {rb}
        (sends, senders) posted run here =
      let (n, kt', rest) = create_step id0 params0 set_gas0 batch km bt kt s sends run in
      let t = json_of P (sent_params s params0 set_gas0 n) in
      let entry : ◌≡◌ {A = Text × (RpcParams × Bool)} (id0, (params0, set_gas0))
          (id, (params, set_gas)) =
        some-injective (id0, (params0, set_gas0)) (id, (params, set_gas)) here in
      (
        n,
        subst
            (λ (e : Text × (RpcParams × Bool)).
              find (json_of P (sent_params s e.1.0 e.1.1 n)) rb ≡ some send_transaction)
            entry
            (create-kept batch km (emplace t send_transaction bt) kt' (at_nonce P s n) t senders
              rest (emplaced_posted t bt posted)),
      )
  create-sent_params ((id0, (params0, set_gas0)) ∷ batch) km bt kt s (suc i) id params set_gas
        (sends, senders) posted run here =
      let (n, kt', rest) = create_step id0 params0 set_gas0 batch km bt kt s sends run in
      let t = json_of P (sent_params s params0 set_gas0 n) in
      create-sent_params batch km (emplace t send_transaction bt) kt' (at_nonce P s n) i id params
        set_gas senders (emplace-All IsPosted t send_transaction bt refl posted) rest here
