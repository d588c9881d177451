-- ===== src/Map.antt =====
-- `std::map` (and `std::unordered_map`, over which the sources never iterate but to print) as a list
-- of entries in the order of the keys. `find`, `emplace`, `operator[] =` and `erase` by key; an
-- iteration goes along the list. Two keys are one if neither is less than the other.
pub mod Lookup
pub mod Sorted
use blockchain_db.Prelude.{ℕ, Bool, true, false, Option, none, some, List, [], ◌∷◌, if◌then◌else◌}
use blockchain_db.Prelude.Order.{Ord, same}

abbrev pub Map {ℓ κ} : Type ℓ → Type κ → Type (ℓ ⊔ κ)
Map K V = List (K × V)

abbrev pub is_some {ℓ} : {A : Type ℓ} → Option A → Bool
is_some none = false
is_some (some a) = true

module _ {ℓ κ} {K : Type ℓ} {V : Type κ} ⦃o : Ord K⦄ where
  -- `m.find(k)`; `none` is `m.end()`.
  unfoldable pub find : K → Map K V → Option V
  find k [] = none
  find k ((j, w) ∷ m) = if same j k then some w else find k m

  -- The entry goes in front of the first key that is greater.
  unfoldable pub insert : K → V → Map K V → Map K V
  insert k v [] = (k, v) ∷ []
  insert k v ((j, w) ∷ m) = if o.lt k j then (k, v) ∷ (j, w) ∷ m else (j, w) ∷ insert k v m

  pub replace : K → V → Map K V → Map K V
  replace k v [] = []
  replace k v ((j, w) ∷ m) = if same j k then (j, v) ∷ m else (j, w) ∷ replace k v m

  -- `m.emplace(k, v)`: an entry that is there stays as it is.
  unfoldable pub emplace : K → V → Map K V → Map K V
  unfolding find insert
  emplace k v m = elim (find k m) [ none ↦ insert k v m | some w ↦ m ]

  -- `m[k] = v`.
  unfoldable pub assign : K → V → Map K V → Map K V
  unfolding find insert replace
  assign k v m = elim (find k m) [ none ↦ insert k v m | some w ↦ replace k v m ]

  -- `m.erase(k)`.
  unfoldable pub erase : K → Map K V → Map K V
  erase k [] = []
  erase k ((j, w) ∷ m) = let rest = erase k m in if same j k then rest else (j, w) ∷ rest

  abbrev pub contains : K → Map K V → Bool
  contains k m = is_some (find k m)
