-- ===== src/Ethereum/Reads/Search.antt =====
-- The search for the result in a response of the node.
use blockchain_db.Prelude.{
  ℕ, zero, suc, ◌-◌, ◌/◌, ◌%◌, ◌<◌, ◌≡◌, ◌≢◌, refl, true, false, none, some, [], ◌∷◌, ◌++◌, length,
  replicate, ltb, ◌==◌, All, All-append, arith, Bool-cases, inl, inr,
}
use blockchain_db.Bytes.{IsByte}
use blockchain_db.Text.{Text, starts_with}
use blockchain_db.Table.{Buffer}
use blockchain_db.Encoding.{hex_digit, byte_array_to_hex, int_to_hex, hex_digits}
use blockchain_db.Ethereum.Reads.{
  is_word, word_before_quote, line_end, line_match, regex_search, result_key,
}

abbrev pub IsWord : ℕ → Type 0
IsWord c = is_word c ≡ true

hex_digit-IsWord : (d : ℕ) → d < 16 → IsWord (hex_digit d)
unfolding hex_digit
hex_digit-IsWord d small = ground arith

pub byte_array_to_hex-IsWord : (bs : Buffer) → All IsByte bs → All IsWord (byte_array_to_hex bs)
unfolding byte_array_to_hex
byte_array_to_hex-IsWord [] bytes = tt
byte_array_to_hex-IsWord (b ∷ bs) (byte, bytes) = (
  hex_digit-IsWord (b / 16) (omega arith),
  (hex_digit-IsWord (b % 16) (omega arith), byte_array_to_hex-IsWord bs bytes),
)

replicate-IsWord : (k : ℕ) → All IsWord (replicate k 48)
replicate-IsWord zero = tt
replicate-IsWord (suc k) = (refl, replicate-IsWord k)

hex_digits-IsWord : (fuel n : ℕ) → All IsWord (hex_digits fuel n)
unfolding hex_digits
hex_digits-IsWord zero n = tt
hex_digits-IsWord (suc fuel) n = elim (Bool-cases (ltb n 16)) [
  | inl e ↦ rw e (hex_digit-IsWord n (ground arith), tt)
  | inr e ↦ rw e (
      All-append IsWord (hex_digits fuel (n / 16)) (hex_digit (n % 16) ∷ [])
        (hex_digits-IsWord fuel (n / 16)) (hex_digit-IsWord (n % 16) (omega arith), tt))
]

pub int_to_hex-IsWord : (n size : ℕ) → All IsWord (int_to_hex n size)
unfolding int_to_hex
int_to_hex-IsWord n size =
    All-append IsWord (replicate (size - length (hex_digits 16 n)) 48) (hex_digits 16 n)
      (replicate-IsWord (size - length (hex_digits 16 n))) (hex_digits-IsWord 16 n)

-- The search for the last match.
word_before_quote-IsWord :
    (w after : Text) → All IsWord w → word_before_quote (w ++ 34 ∷ after) ≡ some w
unfolding word_before_quote
word_before_quote-IsWord [] after words = refl
word_before_quote-IsWord (c ∷ w) after (word, words) =
    let no_quote : (c == 34) ≡ false = ground arith in
    rw (no_quote, word, word_before_quote-IsWord w after words) refl

line_match-IsWord :
    (w after : Text)
    → All IsWord w
    → line_match result_key (34 ∷ after) ≡ none
    → line_match result_key (w ++ 34 ∷ after) ≡ none
unfolding line_match starts_with
line_match-IsWord [] after words nothing = nothing
line_match-IsWord (c ∷ w) after (word, words) nothing =
    let no_quote : (34 == c) ≡ false = ground arith in
    let no_end : line_end c ≡ false = ground arith in
    rw (no_quote, no_end, line_match-IsWord w after words nothing) refl

line_match-before :
    (before s : Text) {w : Text}
    → All (λ c. line_end c ≡ false) before
    → line_match result_key s ≡ some w
    → line_match result_key (before ++ s) ≡ some w
unfolding line_match
line_match-before [] s line found = found
line_match-before (c ∷ before) s (here, line) found =
    rw (here, line_match-before before s line found) refl

line_match-result_key :
    (c : ℕ) (w after : Text)
    → All IsWord (c ∷ w)
    → line_match result_key (34 ∷ after) ≡ none
    → line_match result_key (result_key ++ (c ∷ w ++ 34 ∷ after)) ≡ some (c ∷ w)
unfolding line_match starts_with
line_match-result_key c w after words nothing =
    rw (line_match-IsWord (c ∷ w) after words nothing, word_before_quote-IsWord (c ∷ w) after words)
      refl

-- The search in a response that has the key once it is a line, with more of the word.
pub regex_search_lem :
    (before word after : Text)
    → All (λ c. line_end c ≡ false) before
    → All IsWord word
    → word ≢ []
    → line_match result_key (34 ∷ after) ≡ none
    → regex_search result_key (before ++ (result_key ++ (word ++ 34 ∷ after))) ≡ some word
unfolding regex_search
regex_search_lem before [] after line words some_word nothing = absurd (some_word refl)
regex_search_lem before (c ∷ w) after line words some_word nothing =
    rw
      (line_match-before before (result_key ++ (c ∷ w ++ 34 ∷ after)) line
        (line_match-result_key c w after words nothing))
      refl
