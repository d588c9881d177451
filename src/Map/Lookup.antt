-- ===== src/Map/Lookup.antt =====
-- What `find` answers after each operation.
use blockchain_db.Prelude.{
  ℕ, suc, All, get_elem?, Bool-cases, ◌≡◌, refl, true, Option, none, some, [], ◌∷◌, arith,
  if◌then◌else◌, Option-cases, inl, inr,
}
use blockchain_db.Prelude.Order.{Ord, same, same_iff}
use blockchain_db.Map.{Map, find, insert, replace, emplace, assign, erase, contains}

-- The first of two answers that is one.
abbrev pub or_else {ℓ} : {A : Type ℓ} → Option A → Option A → Option A
or_else none p = p
or_else (some a) p = some a

module _ {ℓ κ} {K : Type ℓ} {V : Type κ} ⦃o : Ord K⦄ where
  find-insert :
      (k j : K) (v : V) (m : Map K V)
      → find k m ≡ none
      → find j (insert k v m) ≡ (if same k j then some v else find j m)
  unfolding find insert
  find-insert k j v [] h = refl
  find-insert k j v ((i, w) ∷ m) h =
      ground (arith, same_iff k j, same_iff i k, same_iff i j, find-insert k j v m)

  find-replace :
      (k j : K) (v w : V) (m : Map K V)
      → find k m ≡ some w
      → find j (replace k v m) ≡ (if same k j then some v else find j m)
  unfolding find replace
  find-replace k j v w [] h = cc
  find-replace k j v w ((i, x) ∷ m) h =
      ground (arith, same_iff k j, same_iff i k, same_iff i j, find-replace k j v w m)

  pub emplace_new : (k : K) (v : V) (m : Map K V) → find k m ≡ none → emplace k v m ≡ insert k v m
  unfolding emplace
  emplace_new k v m e = rw (e, emplace)

  pub emplace_old : (k : K) (v w : V) (m : Map K V) → find k m ≡ some w → emplace k v m ≡ m
  unfolding emplace
  emplace_old k v w m e = rw (e, emplace)

  pub assign_new : (k : K) (v : V) (m : Map K V) → find k m ≡ none → assign k v m ≡ insert k v m
  unfolding assign
  assign_new k v m e = rw (e, assign)

  pub assign_old :
      (k : K) (v w : V) (m : Map K V) → find k m ≡ some w → assign k v m ≡ replace k v m
  unfolding assign
  assign_old k v w m e = rw (e, assign)

  pub find-assign :
      (k j : K) (v : V) (m : Map K V)
      → find j (assign k v m) ≡ (if same k j then some v else find j m)
  find-assign k j v m = elim (Option-cases (find k m)) [
    | inl e ↦ rw (assign_new k v m e) (find-insert k j v m e)
    | inr (w, e) ↦ rw (assign_old k v w m e) (find-replace k j v w m e)
  ]

  find-same : (k j : K) (m : Map K V) → same k j ≡ true → find j m ≡ find k m
  find-same k j m h = ap_find ((same_iff k j).0 h)
    where
      ap_find : k ≡ j → find j m ≡ find k m
      ap_find e = rw e

  -- A key that is there keeps its value.
  pub find-emplace :
      (k j : K) (v : V) (m : Map K V)
      → find j (emplace k v m) ≡ (if same k j then or_else (find k m) (some v) else find j m)
  find-emplace k j v m = elim (Option-cases (find k m)) [
    | inl e ↦ rw (emplace_new k v m e, e) (find-insert k j v m e)
    | inr (w, e) ↦ rw (emplace_old k v w m e, e) (ground (arith, find-same k j m))
  ]

  pub find-erase :
      (k j : K) (m : Map K V) → find j (erase k m) ≡ (if same k j then none else find j m)
  unfolding find erase
  find-erase k j [] = ground arith
  find-erase k j ((i, w) ∷ m) =
      ground (arith, same_iff i k, same_iff i j, same_iff k j, find-erase k j m)

  pub find-nil : (k : K) → find {V = V} k [] ≡ none
  unfolding find
  find-nil k = refl

  pub contains-assign :
      (k j : K) (v : V) (m : Map K V) → contains j m ≡ true → contains j (assign k v m) ≡ true
  contains-assign k j v m h = rw find-assign (ground arith)

  -- What holds of an entry and of all entries holds of them with the entry put in.
  insert-All :
      (Q : K × V → Type 0) (k : K) (v : V) (m : Map K V) → Q (k, v) → All Q m → All Q (insert k v m)
  unfolding insert
  insert-All Q k v [] q rows = (q, tt)
  insert-All Q k v ((j, w) ∷ m) q (row, rows) = elim (Bool-cases (o.lt k j)) [
    | inl less ↦ rw less (q, (row, rows))
    | inr less ↦ rw less (row, insert-All Q k v m q rows)
  ]

  pub emplace-All :
      (Q : K × V → Type 0) (k : K) (v : V) (m : Map K V)
      → Q (k, v)
      → All Q m
      → All Q (emplace k v m)
  emplace-All Q k v m q rows = elim (Option-cases (find k m)) [
    | inl e ↦ rw (emplace_new k v m e) (insert-All Q k v m q rows)
    | inr (w, e) ↦ rw (emplace_old k v w m e) rows
  ]

  -- An entry that is found stands somewhere in the list.
  pub find-index :
      (k : K) (v : V) (m : Map K V) → find k m ≡ some v → (n : ℕ) × (get_elem? m n ≡ some (k, v))
  unfolding find
  find-index k v [] found = cc
  find-index k v ((j, w) ∷ m) found = elim (Bool-cases (same j k)) [
    | inl e ↦ let it : some w ≡ some v = rw e at found in (0, cc (it, (same_iff j k).0 e))
    | inr e ↦
        let later : find k m ≡ some v = rw e at found in
        let (n, here) = find-index k v m later in (suc n, here)
  ]
