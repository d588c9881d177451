-- ===== src/Prelude/Fault.antt =====
-- Results of C++ code: a value, or the way in which the call does not return one.
use mathlib.Core.Path.{◌≡◌, refl}
use mathlib.Core.Logic.{◌⊎◌, inl, inr}

-- `out_of_range`, `length_error` and `runtime_error` are the exceptions of the standard library that
-- the code meets, `json_error` and `bad_path` those of the JSON library and of the property tree.
-- `undefined` is undefined behaviour: a null pointer, an iterator at the end, a write past a buffer, a
-- variable that was never set. `out_of_fuel` is no behaviour of the code: it says that the fuel of a
-- loop's model ran out.
pub data Fault : Type 0 where
  out_of_range length_error runtime_error json_error bad_path undefined out_of_fuel : Fault

pub data Result {ℓ} (A : Type ℓ) : Type ℓ where
  ok : A → Result A
  fault : Fault → Result A

infixl 5 ◌>>=◌
abbrev pub ◌>>=◌ {ℓ κ} : {A : Type ℓ} {B : Type κ} → Result A → (A → Result B) → Result B
ok a >>= f = f a
fault e >>= f = fault e

-- A chain that returns has a first step that returns.
pub >>=-eq-ok {ℓ κ} :
    {X : Type ℓ} {Y : Type κ} (r : Result X) (step : X → Result Y) {y : Y}
    → (r >>= step) ≡ ok y
    → (x : X) × (r ≡ ok x) × (step x ≡ ok y)
>>=-eq-ok (fault e) step returns = cc
>>=-eq-ok (ok x) step returns = (x, refl, returns)

-- What holds of the value, if one is returned.
abbrev pub Ensures {ℓ κ} : {A : Type ℓ} → (A → Type κ) → Result A → Type κ
Ensures P (ok a) = P a
Ensures P (fault e) = Unit

pub Ensures-eq_ok {ℓ κ} :
    {A : Type ℓ} (P : A → Type κ) (r : Result A) {a : A} → Ensures P r → r ≡ ok a → P a
Ensures-eq_ok P r h e = rw e at h

pub Result-cases {ℓ} :
    {A : Type ℓ} (r : Result A) → ((a : A) × (r ≡ ok a)) ⊎ ((e : Fault) × (r ≡ fault e))
Result-cases (ok a) = inl (a, refl)
Result-cases (fault e) = inr (e, refl)

-- A chain of steps, one rule for each step.
pub Ensures-bind {ℓ κ μ} :
    {A : Type ℓ} {B : Type κ} (P : B → Type μ) (m : Result A) (f : A → Result B)
    → ((a : A) → m ≡ ok a → Ensures P (f a))
    → Ensures P (m >>= f)
Ensures-bind P (ok a) f h = h a refl
Ensures-bind P (fault e) f h = tt
