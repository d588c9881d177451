-- ===== src/Map/Sorted.antt =====
-- The keys of a map ascend strictly, and every operation keeps that. A sorted map is determined by
-- what `find` answers.
use blockchain_db.Prelude.{
  ◌≡◌, refl, true, false, none, [], ◌∷◌, arith, Option-cases, inl, inr, All,
}
use blockchain_db.Prelude.Order.{Ord, same, same_iff}
use blockchain_db.Map.Lookup.{emplace_new, emplace_old, assign_new, assign_old}
use blockchain_db.Map.{Map, find, insert, replace, emplace, assign, erase}

not-lt-gt {ℓ} :
    {K : Type ℓ} ⦃o : Ord K⦄ (k j : K) → o.lt k j ≡ false → same j k ≡ false → o.lt j k ≡ true
unfolding same
not-lt-gt k j h d = ground arith

module _ {ℓ κ} {K : Type ℓ} {V : Type κ} ⦃o : Ord K⦄ where
  abbrev pub Above : K → Map K V → Type 0
  Above k m = All (λ e. o.lt k e.0 ≡ true) m

  abbrev pub IsSorted : Map K V → Type 0
  IsSorted [] = Unit {0}
  IsSorted ((k, v) ∷ m) = Above k m × IsSorted m

  Above-trans : (i k : K) (m : Map K V) → o.lt i k ≡ true → Above k m → Above i m
  Above-trans i k [] h a = tt
  Above-trans i k ((j, w) ∷ m) h (a, rest) = (o.lt_trans i k j h a, Above-trans i k m h rest)

  insert-Above :
      (i k : K) (v : V) (m : Map K V) → o.lt i k ≡ true → Above i m → Above i (insert k v m)
  unfolding insert
  insert-Above i k v [] h a = (h, tt)
  insert-Above i k v ((j, w) ∷ m) h a = ground (arith, insert-Above i k v m)

  insert-IsSorted :
      (k : K) (v : V) (m : Map K V) → find k m ≡ none → IsSorted m → IsSorted (insert k v m)
  unfolding insert find
  insert-IsSorted k v [] h s = (tt, tt)
  insert-IsSorted k v ((j, w) ∷ m) h s =
      ground (arith, Above-trans k j m, insert-Above j k v m, not-lt-gt k j, insert-IsSorted k v m)

  replace-Above : (i k : K) (v : V) (m : Map K V) → Above i m → Above i (replace k v m)
  unfolding replace
  replace-Above i k v [] a = tt
  replace-Above i k v ((j, w) ∷ m) a = ground (arith, replace-Above i k v m)

  replace-IsSorted : (k : K) (v : V) (m : Map K V) → IsSorted m → IsSorted (replace k v m)
  unfolding replace
  replace-IsSorted k v [] s = tt
  replace-IsSorted k v ((j, w) ∷ m) s =
      ground (arith, replace-Above j k v m, replace-IsSorted k v m)

  pub emplace-IsSorted : (k : K) (v : V) (m : Map K V) → IsSorted m → IsSorted (emplace k v m)
  emplace-IsSorted k v m s = elim (Option-cases (find k m)) [
    | inl e ↦ rw (emplace_new k v m e) (insert-IsSorted k v m e s)
    | inr (w, e) ↦ rw (emplace_old k v w m e) s
  ]

  pub assign-IsSorted : (k : K) (v : V) (m : Map K V) → IsSorted m → IsSorted (assign k v m)
  assign-IsSorted k v m s = elim (Option-cases (find k m)) [
    | inl e ↦ rw (assign_new k v m e) (insert-IsSorted k v m e s)
    | inr (w, e) ↦ rw (assign_old k v w m e) (replace-IsSorted k v m s)
  ]

  erase-Above : (i k : K) (m : Map K V) → Above i m → Above i (erase k m)
  unfolding erase
  erase-Above i k [] a = tt
  erase-Above i k ((j, w) ∷ m) a = ground (arith, erase-Above i k m)

  pub erase-IsSorted : (k : K) (m : Map K V) → IsSorted m → IsSorted (erase k m)
  unfolding erase
  erase-IsSorted k [] s = tt
  erase-IsSorted k ((j, w) ∷ m) s = ground (arith, erase-Above j k m, erase-IsSorted k m)

  -- A key below all others is not there.
  pub find-Above : (k : K) (m : Map K V) → Above k m → find k m ≡ none
  unfolding find
  find-Above k [] a = refl
  find-Above k ((j, w) ∷ m) a = ground (arith, find-Above k m, same_iff j k, o.irrefl k)
