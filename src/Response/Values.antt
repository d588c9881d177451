-- ===== src/Response/Values.antt =====
-- The values of a scan are found again, unless a value runs into its token.
use blockchain_db.Prelude.{
  ℕ, zero, suc, ◌+◌, ◌≤◌, ◌≡◌, refl, sym, ◌∙◌, ap, none, some, List, [], ◌∷◌, ◌++◌, length, take,
  drop, All, arith, append_assoc, length-append, take-append_left, drop-append_left,
}
use blockchain_db.Text.{Text, codes, find}
use blockchain_db.Response.{token, split_values}

-- The values as the contract joins them, and what comes behind them.
abbrev pub join : List Text → Text → Text
join [] behind = behind
join (v ∷ values) behind = v ++ (token ++ join values behind)

-- A text that may fill an answer up: it has no token.
abbrev pub IsFiller : Text → Type 0
IsFiller behind = find token behind ≡ none

-- The first token behind the value is its own.
abbrev pub IsClear : Text → Type 0
IsClear v = (rest : Text) → find token (v ++ (token ++ rest)) ≡ some (length v)

-- One turn of the loop at a text whose first token is at an index.
pub split_values-find :
    (fuel : ℕ) (s : Text) (i : ℕ)
    → find token s ≡ some i
    → split_values (suc fuel) s ≡ take i s ∷ split_values fuel (drop (i + length token) s)
unfolding split_values find
split_values-find fuel [] i found = cc
split_values-find fuel (c ∷ cs) i found = rw (split_values, found) refl

pub split_values-clear :
    (fuel : ℕ) (v rest : Text)
    → IsClear v
    → split_values (suc fuel) (v ++ (token ++ rest)) ≡ v ∷ split_values fuel rest
split_values-clear fuel v rest clear =
    split_values-find fuel (v ++ (token ++ rest)) (length v) (clear rest)
    ∙ rw
        (
          take-append_left (length v) v (token ++ rest) refl,
          ← append_assoc v token rest,
          drop-append_left (length v + length token) (v ++ token) rest
              (sym (length-append v token)),
        )
        refl

-- Without a token the loop ends.
pub split_values-none : (fuel : ℕ) (s : Text) → find token s ≡ none → split_values (suc fuel) s ≡ []
unfolding split_values find
split_values-none fuel [] missing = refl
split_values-none fuel (c ∷ cs) missing = rw (split_values, missing) refl

-- Values that do not run into their tokens, joined as the contract joins them with a text behind them
-- that has no token, and split again, are the values, whenever the fuel is more than the length of
-- the text.
pub split_values-join :
    (fuel : ℕ) (values : List Text) (behind : Text)
    → All IsClear values
    → IsFiller behind
    → length (join values behind) ≤ fuel
    → split_values (suc fuel) (join values behind) ≡ values
split_values-join fuel [] behind clear ends enough = split_values-none fuel behind ends
split_values-join zero (v ∷ values) behind clear ends enough =
    absurd (omega (arith, length-append v (token ++ join values behind)))
split_values-join (suc fuel) (v ∷ values) behind (clear, clears) ends enough =
    split_values-clear (suc fuel) v (join values behind) clear
    ∙ ap (v ∷◌) (
        split_values-join fuel values behind clears ends
          (omega (arith, length-append v (token ++ join values behind))))

-- A value that ends with the byte of '#' loses it: the token is found one byte early, and the byte
-- comes before the next value.
pub split_values-hash :
    (fuel : ℕ) (v rest : Text)
    → IsClear v
    → split_values (suc fuel) ((v ++ codes "23") ++ (token ++ rest))
      ≡ v ∷ split_values fuel (codes "23" ++ rest)
split_values-hash fuel v rest clear =
    ap (split_values (suc fuel)) (append_assoc v (codes "23") (token ++ rest))
    ∙ split_values-clear fuel v (codes "23" ++ rest) clear
