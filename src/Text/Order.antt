-- ===== src/Text/Order.antt =====
-- `operator<` of `std::string` is a strict total order.
use blockchain_db.Prelude.{◌≡◌, refl, true, false, [], ◌∷◌, arith}
use blockchain_db.Prelude.Order.{IsStrict, Ord}
use blockchain_db.Text.{Text, text_lt}

text_lt_irrefl : (a : Text) → text_lt a a ≡ false
unfolding text_lt
text_lt_irrefl [] = refl
text_lt_irrefl (x ∷ xs) = ground (arith, text_lt_irrefl xs)

text_lt_trans : (a b c : Text) → text_lt a b ≡ true → text_lt b c ≡ true → text_lt a c ≡ true
unfolding text_lt
text_lt_trans [] [] c h k = cc
text_lt_trans [] (y ∷ ys) [] h k = cc
text_lt_trans [] (y ∷ ys) (z ∷ zs) h k = refl
text_lt_trans (x ∷ xs) [] c h k = cc
text_lt_trans (x ∷ xs) (y ∷ ys) [] h k = cc
text_lt_trans (x ∷ xs) (y ∷ ys) (z ∷ zs) h k = ground (arith, text_lt_trans xs ys zs)

text_lt_total : (a b : Text) → text_lt a b ≡ false → text_lt b a ≡ false → a ≡ b
unfolding text_lt
text_lt_total [] [] h k = refl
text_lt_total [] (y ∷ ys) h k = cc
text_lt_total (x ∷ xs) [] h k = cc
text_lt_total (x ∷ xs) (y ∷ ys) h k = ground (arith, text_lt_total xs ys)

pub text_lt-IsStrict : IsStrict text_lt
text_lt-IsStrict = record {
  irrefl = text_lt_irrefl;
  lt_trans = text_lt_trans;
  eq_of_not_lt = text_lt_total;
}

instance unfoldable pub text_ord : Ord Text
text_ord = record { lt = text_lt; strict = text_lt-IsStrict }
