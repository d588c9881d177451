-- ===== src/Word/Padding.antt =====
-- What a word keeps of its text.
use blockchain_db.Prelude.{
  ℕ, zero, suc, ◌+◌, ◌≤◌, ◌≡◌, refl, ◌∙◌, ap, [], ◌∷◌, ◌++◌, length, take, replicate, ltb, ok,
  arith, false,
}
use blockchain_db.Text.{Text, substr}
use blockchain_db.Word.{width, convert_to_32byte}

take-append-replicate :
    (k : ℕ) (s : Text) (a b : ℕ)
    → k ≤ length s + a
    → k ≤ length s + b
    → take k (s ++ replicate a 48) ≡ take k (s ++ replicate b 48)
take-append-replicate zero s a b h g = refl
take-append-replicate (suc k) [] zero b h g = absurd (omega arith)
take-append-replicate (suc k) [] (suc a) zero h g = absurd (omega arith)
take-append-replicate (suc k) [] (suc a) (suc b) h g =
    ap (48 ∷◌) (take-append-replicate k [] a b (omega arith) (omega arith))
take-append-replicate (suc k) (x ∷ s) a b h g =
    ap (x ∷◌) (take-append-replicate k s a b (omega arith) (omega arith))

not_below_zero : (n : ℕ) → ltb n 0 ≡ false
not_below_zero n = ground arith

substr_start : (s : Text) (n : ℕ) → substr s 0 n ≡ ok (take n s)
unfolding substr
substr_start s n = rw (not_below_zero (length s)) refl

-- `convert_to_32byte` returns, for any text, the first 64 characters of the text and as many zeros
-- behind it: a shorter text is filled up, and of a longer one the end is lost.
pub convert_to_32byte_lem : (s : Text) → convert_to_32byte s ≡ ok (take 64 (s ++ replicate 64 48))
unfolding convert_to_32byte
convert_to_32byte_lem s =
    let enough : 64 ≤ length s + width (length s) = ground arith in
    substr_start (s ++ replicate (width (length s)) 48) 64
    ∙ ap ok (take-append-replicate 64 s (width (length s)) 64 enough (omega arith))
