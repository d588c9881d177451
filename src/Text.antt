-- ===== src/Text.antt =====
-- `std::string` as the list of its characters, each a number below 256, with the library's functions
-- that the sources use: `operator<`, `find`, `substr`, `find_first_of`, `find_last_of`.
pub mod Order
pub mod Slices
use blockchain_db.Prelude.{
  ℕ, zero, suc, ◌+◌, Bool, true, false, Option, none, some, List, [], ◌∷◌, ◌++◌, length, take, drop,
  ltb, ◌==◌, if◌then◌else◌, ◌&&◌, Result, ok, fault, out_of_range,
}
use Prim.Native.Char.{code}
use Prim.Native.String.{String}
use Prim.Native.String

abbrev pub Text : Type 0
Text = List ℕ

-- A literal.
abbrev pub codes : String → Text
codes String.[] = []
codes (String.◌∷◌ c s) = code c ∷ codes s

unfoldable pub text_lt : Text → Text → Bool
text_lt [] [] = false
text_lt [] (y ∷ ys) = true
text_lt (x ∷ xs) [] = false
text_lt (x ∷ xs) (y ∷ ys) = if ltb x y then true else if ltb y x then false else text_lt xs ys

abbrev pub is_empty : Text → Bool
is_empty [] = true
is_empty (_ ∷ _) = false

-- `s.substr(pos, len)` throws past the end and stops at the end.
unfoldable pub substr : Text → ℕ → ℕ → Result Text
substr s pos len = if ltb (length s) pos then fault out_of_range else ok (take len (drop pos s))

-- `s.substr(pos)`.
unfoldable pub substr_from : Text → ℕ → Result Text
substr_from s pos = if ltb (length s) pos then fault out_of_range else ok (drop pos s)

unfoldable pub starts_with : Text → Text → Bool
starts_with [] s = true
starts_with (x ∷ xs) [] = false
starts_with (x ∷ xs) (y ∷ ys) = x == y && starts_with xs ys

-- `s.find(token)` for a token that is not empty; `none` is `npos`.
unfoldable pub find : Text → Text → Option ℕ
unfolding starts_with
find token [] = none
find token (x ∷ xs) =
    if starts_with token (x ∷ xs)
    then some 0
    else elim (find token xs) [ none ↦ none | some i ↦ some (suc i) ]
