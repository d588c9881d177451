-- ===== src/Response/Clear.antt =====
-- A test for values that do not run into their tokens.
use blockchain_db.Prelude.{
  ℕ, suc, ◌+◌, ◌≤◌, ◌≡◌, ◌↔◌, refl, sym, ◌∙◌, ap, true, false, Option, none, some, List, [], ◌∷◌,
  ◌++◌, length, arith, append_assoc, length-append, Bool-cases, Option-cases, inl, inr, take, drop,
  length-take, ◌&&◌, ◌==◌,
}
use blockchain_db.Text.{Text, codes, find, starts_with}
use blockchain_db.Response.{token, split_values}
use blockchain_db.Response.Values.{
  IsClear, split_values-none, split_values-find, split_values-clear,
}

-- All of a token but its last character.
abbrev pub short_token : Text
short_token = codes "2323232"

abbrev one_later : Option ℕ → Option ℕ
one_later none = none
one_later (some i) = some (suc i)

starts_with-append :
    (xs s t : Text) → length xs ≤ length s → starts_with xs (s ++ t) ≡ starts_with xs s
unfolding starts_with
starts_with-append [] s t fits = refl
starts_with-append (x ∷ xs) [] t fits = absurd (omega arith)
starts_with-append (x ∷ xs) (y ∷ s) t fits =
    ap (x == y &&◌) (starts_with-append xs s t (omega arith))

find_hit : (xs : Text) (c : ℕ) (s : Text) → starts_with xs (c ∷ s) ≡ true → find xs (c ∷ s) ≡ some 0
unfolding find
find_hit xs c s hit = rw hit refl

find_miss :
    (xs : Text) (c : ℕ) (s : Text)
    → starts_with xs (c ∷ s) ≡ false
    → find xs (c ∷ s) ≡ one_later (find xs s)
unfolding find
find_miss xs c s miss = rw miss refl

-- The character behind decides nothing for the places within a value.
same_start :
    (c : ℕ) (v rest : Text)
    → starts_with token ((c ∷ v) ++ (token ++ rest)) ≡ starts_with token ((c ∷ v) ++ short_token)
same_start c v rest =
    ap (starts_with token) (sym (append_assoc (c ∷ v) short_token (51 ∷ rest)))
    ∙ starts_with-append token ((c ∷ v) ++ short_token) (51 ∷ rest)
        (omega (arith, length-append (c ∷ v) short_token))

one_later-none : (o : Option ℕ) → one_later o ≡ none → o ≡ none
one_later-none none e = refl
one_later-none (some i) e = cc

one_later-some : (o : Option ℕ) (n : ℕ) → one_later o ≡ some (suc n) → o ≡ some n
one_later-some none n e = cc
one_later-some (some i) n e = ap some (ground (arith, e))

clear_of_missing :
    (v rest : Text)
    → find token (v ++ short_token) ≡ none
    → find token (v ++ (token ++ rest)) ≡ some (length v)
unfolding starts_with
clear_of_missing [] rest missing = find_hit token 50 (codes "3232323" ++ rest) refl
clear_of_missing (c ∷ v) rest missing =
    elim (Bool-cases (starts_with token ((c ∷ v) ++ short_token))) [
      | inl e ↦ cc (missing, find_hit token c (v ++ short_token) e)
      | inr e ↦
          let later : find token (v ++ short_token) ≡ none =
            one_later-none (find token (v ++ short_token))
              (sym (find_miss token c (v ++ short_token) e) ∙ missing) in
          find_miss token c (v ++ (token ++ rest)) (same_start c v rest ∙ e)
          ∙ ap one_later (clear_of_missing v rest later)
    ]

missing_of_clear :
    (v rest : Text)
    → find token (v ++ (token ++ rest)) ≡ some (length v)
    → find token (v ++ short_token) ≡ none
unfolding find starts_with
missing_of_clear [] rest clear = refl
missing_of_clear (c ∷ v) rest clear =
    elim (Bool-cases (starts_with token ((c ∷ v) ++ short_token))) [
      | inl e ↦ cc (clear, find_hit token c (v ++ (token ++ rest)) (same_start c v rest ∙ e))
      | inr e ↦
          let later : find token (v ++ (token ++ rest)) ≡ some (length v) =
            one_later-some (find token (v ++ (token ++ rest))) (length v)
              (sym (find_miss token c (v ++ (token ++ rest)) (same_start c v rest ∙ e)) ∙ clear) in
          find_miss token c (v ++ short_token) e ∙ ap one_later (missing_of_clear v rest later)
    ]

-- A value does not run into its token, whatever text comes behind that, just when the token is not
-- found in the value with the token's first seven characters behind it.
pub IsClear_iff : (v : Text) → IsClear v ↔ (find token (v ++ short_token) ≡ none)
IsClear_iff v =
    (λ clear. missing_of_clear v [] (clear []), λ missing rest. clear_of_missing v rest missing)

-- The place where the first token is found, from the value that the loop takes.
place_of_value :
    (v s : Text) (i : ℕ) → length s ≡ length v + length token → take i s ≡ v → i ≡ length v
place_of_value v s i long taken =
    let taken_length : length (take i s) ≡ length v = ap length taken in
    omega (arith, long, taken_length, length-take i s)

same_head : (a b : Text) (ps qs : List Text) → a ∷ ps ≡ b ∷ qs → a ≡ b
same_head a b ps qs e = cc

found_at_end :
    (v : Text)
    → split_values 1 (v ++ (token ++ [])) ≡ v ∷ split_values 0 []
    → find token (v ++ (token ++ [])) ≡ some (length v)
found_at_end v kept = elim (Option-cases (find token (v ++ (token ++ [])))) [
  | inl e ↦ cc (kept, split_values-none 0 (v ++ (token ++ [])) e)
  | inr (i, e) ↦
      let taken : take i (v ++ (token ++ [])) ≡ v =
        same_head (take i (v ++ (token ++ []))) v
          (split_values 0 (drop (i + length token) (v ++ (token ++ [])))) (split_values 0 [])
          (sym (split_values-find 0 (v ++ (token ++ [])) i e) ∙ kept) in
      e ∙ ap some (place_of_value v (v ++ (token ++ [])) i (length-append v (token ++ [])) taken)
]

-- A value behind which its token stands is taken as it is by a turn of the loop of `split`, whatever
-- text comes behind, just when the token is not found in the value with the token's first seven
-- characters behind it.
pub split_values_iff :
    (v : Text)
    → (find token (v ++ short_token) ≡ none) ↔ (
        (fuel : ℕ) (rest : Text)
        → split_values (suc fuel) (v ++ (token ++ rest)) ≡ v ∷ split_values fuel rest)
split_values_iff v = (
  λ missing fuel rest. split_values-clear fuel v rest ((IsClear_iff v).1 missing),
  λ kept. missing_of_clear v [] (found_at_end v (kept 0 [])),
)
