-- ===== src/Text/Slices.antt =====
-- The parts of a text that is put together.
use blockchain_db.Prelude.{
  ℕ, zero, suc, ◌+◌, ◌≡◌, refl, sym, ◌∙◌, ap, List, [], ◌∷◌, drop, ltb, append-nil, ◌++◌, length,
  arith, length-append, take-append_left, drop-append_left, ok,
}
use blockchain_db.Text.{Text, substr, substr_from}

pub substr_middle :
    (a b c : Text) (at len : ℕ)
    → at ≡ length a
    → len ≡ length b
    → substr (a ++ (b ++ c)) at len ≡ ok b
unfolding substr
substr_middle a b c at len at_a of_b =
    rw (drop-append_left at a (b ++ c) at_a, take-append_left len b c of_b)
      (ground (arith, length-append a (b ++ c)))

pub substr_from_end : (a b : Text) (at : ℕ) → at ≡ length a → substr_from (a ++ b) at ≡ ok b
unfolding substr_from
substr_from_end a b at at_a = rw (drop-append_left at a b at_a) (ground (arith, length-append a b))

-- The part of a text behind another one.
drop_behind :
    {A : Type 0} (a s : List A) (at behind : ℕ)
    → at ≡ length a + behind
    → drop at (a ++ s) ≡ drop behind s
drop_behind [] s at behind e = let same_place : at ≡ behind = omega arith in rw same_place refl
drop_behind (x ∷ a) s zero behind e = absurd (omega arith)
drop_behind (x ∷ a) s (suc at) behind e = drop_behind a s at behind (omega arith)

ltb_behind : (n m at behind : ℕ) → at ≡ n + behind → ltb (n + m) at ≡ ltb m behind
ltb_behind n m at behind e = ground arith

pub substr_behind :
    (a s : Text) (at behind len : ℕ)
    → at ≡ length a + behind
    → substr (a ++ s) at len ≡ substr s behind len
unfolding substr
substr_behind a s at behind len e =
    rw
      (drop_behind a s at behind e, length-append a s, ltb_behind (length a) (length s) at behind e)
      refl

pub substr_front : (b c : Text) (len : ℕ) → len ≡ length b → substr (b ++ c) 0 len ≡ ok b
substr_front b c len e = substr_middle [] b c 0 len refl e

pub substr_all : (b : Text) (len : ℕ) → len ≡ length b → substr b 0 len ≡ ok b
substr_all b len e = ap (λ t. substr t 0 len) (sym (append-nil b)) ∙ substr_front b [] len e
