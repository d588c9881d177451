-- ===== src/Assifunc.antt =====
-- adapter/utils/src/assifunc.cpp and assifunc_ethereum.cpp: earlier encodings and an earlier `exec`,
-- which the sources keep beside those of encoding_helpers.cpp and shell_helpers.cpp.
use blockchain_db.Prelude.{
  ℕ, suc, ◌/◌, ◌%◌, ◌<◌, ◌≡◌, refl, ◌∙◌, ap, ltb→lt, Bool, false, Bool-cases, inl, inr, [], ◌∷◌,
  ◌++◌, ◌==◌, ltb, All, if◌then◌else◌, ℤ, Result, ok, fault, runtime_error, ◌>>=◌, arith,
}
use blockchain_db.Bytes.{IsByte}
use blockchain_db.Text.{Text}
use blockchain_db.Encoding.{
  hex_digit, hex_digits, pad, int_of, skip_space, read_byte, byte_array_to_hex,
}
use blockchain_db.Platform.{
  Platform, popened, is_success, strip, back_defined, exec_success as stripped_exec,
}

abbrev int_to_hex : ℕ → ℕ → Text
int_to_hex num size = pad size (hex_digits 16 num)

abbrev hex_to_int : Text → Result ℤ
hex_to_int hex = int_of (skip_space hex)

-- The loop writes each character as an unsigned number in two places.
unfoldable string_to_hex : Text → Text
unfolding hex_digits
string_to_hex [] = []
string_to_hex (c ∷ cs) = pad 2 (hex_digits 16 c) ++ string_to_hex cs

-- The bytes of the pairs but for the zeros.
unfoldable hex_to_string : Text → Text
hex_to_string [] = []
hex_to_string (c ∷ []) = let b = read_byte (c ∷ []) in if b == 0 then [] else b ∷ []
hex_to_string (c ∷ d ∷ s) =
    let rest = hex_to_string s in
    let b = read_byte (c ∷ d ∷ []) in if b == 0 then rest else b ∷ rest

one_digit : (fuel n : ℕ) → n < 16 → hex_digits (suc fuel) n ≡ hex_digit n ∷ []
unfolding hex_digits
one_digit fuel n h = ground arith

more_digits :
    (fuel n : ℕ)
    → ltb n 16 ≡ false
    → hex_digits (suc fuel) n ≡ hex_digits fuel (n / 16) ++ hex_digit (n % 16) ∷ []
unfolding hex_digits
more_digits fuel n e = rw e refl

two_digits :
    (b : ℕ) → b < 256 → pad 2 (hex_digits 16 b) ≡ hex_digit (b / 16) ∷ hex_digit (b % 16) ∷ []
unfolding hex_digits hex_digit
two_digits b h = elim (Bool-cases (ltb b 16)) [
  | inl e ↦
      let small = ltb→lt b 16 e in
      let high : b / 16 ≡ 0 = omega (arith, small) in
      let low : b % 16 ≡ b = omega (arith, small) in
      ap (pad 2) (one_digit 15 b small) ∙ rw (high, low) refl
  | inr e ↦
      let high : b / 16 < 16 = omega (arith, h) in
      ap (pad 2)
        (more_digits 15 b e ∙ ap (λ t. t ++ hex_digit (b % 16) ∷ []) (one_digit 14 (b / 16) high))
]

-- For characters that are bytes, the loop writes what the bytes' encoding writes.
string_to_hex-byte_array_to_hex : (s : Text) → All IsByte s → string_to_hex s ≡ byte_array_to_hex s
unfolding string_to_hex byte_array_to_hex
string_to_hex-byte_array_to_hex [] bytes = refl
string_to_hex-byte_array_to_hex (c ∷ cs) (b, bs) =
    rw (two_digits c b, string_to_hex-byte_array_to_hex cs bs) refl

module _ (P : Platform) where
  -- `exec(cmd, &exec_success)` of assifunc_ethereum.cpp.
  unfoldable exec_success : P.World → Text → Result (Bool × Text × P.World)
  exec_success w cmd = do
    (output, code, w') ← popened P (P.popen w cmd)
    ok (is_success code, output, w')

  -- `exec(cmd)` of assifunc_ethereum.cpp.
  unfoldable exec : P.World → Text → Result (Text × P.World)
  exec w cmd = do
    (success, result, w') ← exec_success w cmd
    if success then ok (result, w') else fault runtime_error

  -- The line ends are taken off, where there is anything else.
  abbrev stripped : Bool × Text × P.World → Result (Bool × Text × P.World)
  stripped (success, output, w) = do result ← back_defined (strip output); ok (success, result, w)

  stripped_later :
      (m : Result (Text × ℤ × P.World))
      → (m >>= λ r. back_defined (strip r.0) >>= λ result. ok (is_success r.1, result, r.2))
        ≡ (m >>= (λ r. ok (is_success r.1, r.0, r.2)) >>= stripped)
  stripped_later (ok r) = refl
  stripped_later (fault e) = refl

  -- The `exec` of the shell helpers is the earlier one without the line ends of the output.
  exec_success-stripped :
      (w : P.World) (cmd : Text) → stripped_exec P w cmd ≡ (exec_success w cmd >>= stripped)
  unfolding exec_success stripped_exec
  exec_success-stripped w cmd = stripped_later (popened P (P.popen w cmd))
