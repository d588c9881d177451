-- ===== src/Bytes.antt =====
-- adapter/interface/include/adapter_interface/adapter_interface.h: `struct BYTES`, its `operator==`
-- and `operator<`. The constructors, the copy constructor and the assignment copy the array, so a
-- BYTES is the value of its bytes; `size` is their number. A byte is a number below 256.
pub mod Order
use blockchain_db.Prelude.{
  ℕ, ◌<◌, Bool, true, false, List, [], ◌∷◌, length, ltb, ◌==◌, if◌then◌else◌,
}

pub record Bytes : Type 0 where
  pub value : List ℕ

abbrev pub size : Bytes → ℕ
size b = length b.value

abbrev pub IsByte : ℕ → Type 0
IsByte b = b < 256

-- The loop of `operator==`, over arrays of one size.
eq_loop : List ℕ → List ℕ → Bool
eq_loop (x ∷ xs) (y ∷ ys) = if x == y then eq_loop xs ys else false
eq_loop _ _ = true

unfoldable pub bytes_eq : Bytes → Bytes → Bool
unfolding eq_loop
bytes_eq lhs rhs = if size lhs == size rhs then eq_loop lhs.value rhs.value else false

-- The loop of `operator<`, over arrays of one size.
lt_loop : List ℕ → List ℕ → Bool
lt_loop (x ∷ xs) (y ∷ ys) = if ltb x y then true else if ltb y x then false else lt_loop xs ys
lt_loop _ _ = false

unfoldable pub bytes_lt : Bytes → Bytes → Bool
unfolding lt_loop
bytes_lt lhs rhs =
    if ltb (size lhs) (size rhs)
    then true
    else if size lhs == size rhs
    then lt_loop lhs.value rhs.value
    else false
