-- ===== src/Response/Whole.antt =====
-- `split` takes apart what the contract's tableScan puts together.
use blockchain_db.Prelude.{
  ℕ, suc, ◌+◌, ◌*◌, ◌/◌, ◌^◌, ◌<◌, ◌≡◌, ◌≢◌, refl, sym, ◌∙◌, ap, List, [], ◌∷◌, ◌++◌, map, length,
  replicate, All, arith, append_assoc, length-append, length-replicate, ok, pos,
}
use blockchain_db.Bytes.{IsByte}
use blockchain_db.Bytes.Order.{bytes_ord}
use blockchain_db.Text.{Text, substr, substr_from}
use blockchain_db.Text.Slices.{substr_middle, substr_from_end}
use blockchain_db.Map.{emplace}
use blockchain_db.Adapter.{Batch}
use blockchain_db.Table.{Buffer}
use blockchain_db.Encoding.{byte_array_to_hex, int_to_hex}
use blockchain_db.Encoding.RoundTrip.{
  hex_to_byte_array-byte_array_to_hex, length-byte_array_to_hex, length-int_to_hex,
  hex_to_int-int_to_hex,
}
use blockchain_db.Response.{read_keys, decoded, fill, split_count, split}
use blockchain_db.Response.Values.{join, IsClear, IsFiller, split_values-join}

abbrev pub concat : List Text → Text
concat [] = []
concat (k ∷ keys) = k ++ concat keys

-- The keys are found behind what has been read.
read_keys-concat :
    (i : ℕ) (before : Text) (keys : List Text) (behind : Text)
    → length before ≡ (i + 3) * 64
    → All (λ k. length k ≡ 64) keys
    → read_keys (before ++ (concat keys ++ behind)) 64 i (length keys) ≡ ok keys
unfolding read_keys
read_keys-concat i before [] behind at_i words = refl
read_keys-concat i before (k ∷ keys) behind at_i (word, words) =
    let here =
      substr_middle before k (concat keys ++ behind) ((i + 3) * 64) 64 (sym at_i) (sym word) in
    let rest =
      ap (λ t. read_keys t 64 (suc i) (length keys))
        (sym (append_assoc before k (concat keys ++ behind)))
      ∙ read_keys-concat (suc i) (before ++ k) keys behind (omega (arith, length-append before k))
          words in
    ap (λ t. read_keys (before ++ t) 64 i (suc (length keys))) (append_assoc k (concat keys) behind)
    ∙ rw (here, rest) refl

-- A row of a scan: a key of 32 bytes and a value whose text does not run into its token.
pub record IsStored (row : Buffer × Buffer) : Type 0 where
  pub of_32 : length row.0 ≡ 32
  pub key_bytes : All IsByte row.0
  pub value_bytes : All IsByte row.1
  pub clear : IsClear (byte_array_to_hex row.1)

decoded-byte_array_to_hex :
    (bs : Buffer) → All IsByte bs → decoded (byte_array_to_hex bs) ≡ ok (record { value = bs })
unfolding decoded
decoded-byte_array_to_hex bs bytes =
    rw
      (hex_to_byte_array-byte_array_to_hex bs (replicate (length (byte_array_to_hex bs) / 2) 0)
        bytes
        (length-replicate {A = ℕ} (length (byte_array_to_hex bs) / 2) 0
          ∙ omega (arith, length-byte_array_to_hex bs)))
      refl

-- The rows put into a map one after the other, of which the first with a key counts.
unfoldable pub collected : List (Buffer × Buffer) → Batch → Batch
collected [] ret = ret
collected ((k, v) ∷ rows) ret =
    collected rows (emplace (record { value = k }) (record { value = v }) ret)

abbrev pub keys_of : List (Buffer × Buffer) → List Text
keys_of rows = map (λ row. byte_array_to_hex row.0) rows

abbrev pub values_of : List (Buffer × Buffer) → List Text
values_of rows = map (λ row. byte_array_to_hex row.1) rows

fill-collected :
    (rows : List (Buffer × Buffer)) (ret : Batch)
    → All IsStored rows
    → fill (keys_of rows) (values_of rows) ret ≡ ok (collected rows ret)
unfolding fill collected
fill-collected [] ret stored = refl
fill-collected ((k, v) ∷ rows) ret (s, stored) =
    rw (decoded-byte_array_to_hex k s.key_bytes, decoded-byte_array_to_hex v s.value_bytes)
      (fill-collected rows (emplace (record { value = k }) (record { value = v }) ret) stored)

length-concat :
    (keys : List Text) → All (λ k. length k ≡ 64) keys → length (concat keys) ≡ length keys * 64
length-concat [] words = omega arith
length-concat (k ∷ keys) (word, words) =
    omega (arith, length-append k (concat keys), length-concat keys words)

keys_of_words :
    (rows : List (Buffer × Buffer)) → All IsStored rows → All (λ k. length k ≡ 64) (keys_of rows)
keys_of_words [] stored = tt
keys_of_words ((k, v) ∷ rows) (s, stored) =
    (omega (arith, length-byte_array_to_hex k, s.of_32), keys_of_words rows stored)

values_of_clear : (rows : List (Buffer × Buffer)) → All IsStored rows → All IsClear (values_of rows)
values_of_clear [] stored = tt
values_of_clear ((k, v) ∷ rows) (s, stored) = (s.clear, values_of_clear rows stored)

-- The answer of tableScan to the rows; the contents of three words do not matter.
abbrev pub answer : Text → Text → Text → List (Buffer × Buffer) → Text → Text
answer w0 w1 w2 rows behind =
    w0
    ++ (w1
        ++ (int_to_hex (length rows) 64
            ++ (concat (keys_of rows) ++ (w2 ++ join (values_of rows) behind))))

split_lem :
    (s : Text) (n : ℕ)
    → substr s 128 64 ≡ ok (int_to_hex n 64)
    → length s ≢ 0
    → n < 2 ^ 31
    → split s 64 ≡ split_count s 64 (pos n)
unfolding split
split_lem [] n count long few = absurd (long refl)
split_lem (c ∷ cs) n count long few = rw (count, hex_to_int-int_to_hex n 64 few) refl

split_count_lem :
    (s : Text) (rows : List (Buffer × Buffer)) (behind : Text)
    → read_keys s 64 0 (length rows) ≡ ok (keys_of rows)
    → substr_from s ((length rows + 4) * 64) ≡ ok (join (values_of rows) behind)
    → All IsStored rows
    → IsFiller behind
    → split_count s 64 (pos (length rows)) ≡ ok (collected rows [])
unfolding split_count
split_count_lem s rows behind keys values stored ends =
    rw
      (
        keys,
        values,
        split_values-join (length (join (values_of rows) behind)) (values_of rows) behind
            (values_of_clear rows stored) ends (omega arith),
      )
      (fill-collected rows [] stored)

length-keys_of : (rows : List (Buffer × Buffer)) → length (keys_of rows) ≡ length rows
length-keys_of [] = refl
length-keys_of (row ∷ rows) = ap suc (length-keys_of rows)

module _ (w0 w1 w2 : Text) (rows : List (Buffer × Buffer)) (behind : Text) (l0 : length w0 ≡ 64)
    (l1 : length w1 ≡ 64) (l2 : length w2 ≡ 64) (stored : All IsStored rows) where
  abbrev number : Text
  number = int_to_hex (length rows) 64

  abbrev keys : Text
  keys = concat (keys_of rows)

  abbrev values : Text
  values = join (values_of rows) behind

  has_number : substr (answer w0 w1 w2 rows behind) 128 64 ≡ ok number
  has_number =
      ap (λ t. substr t 128 64) (sym (append_assoc w0 w1 (number ++ (keys ++ (w2 ++ values)))))
      ∙ substr_middle (w0 ++ w1) number (keys ++ (w2 ++ values)) 128 64
          (omega (arith, length-append w0 w1)) (sym (length-int_to_hex (length rows)))

  has_keys : read_keys (answer w0 w1 w2 rows behind) 64 0 (length rows) ≡ ok (keys_of rows)
  has_keys =
      ap (λ t. read_keys t 64 0 (length rows))
        (sym (append_assoc w0 w1 (number ++ (keys ++ (w2 ++ values))))
          ∙ sym (append_assoc (w0 ++ w1) number (keys ++ (w2 ++ values))))
      ∙ ap (read_keys (((w0 ++ w1) ++ number) ++ (keys ++ (w2 ++ values))) 64 0)
          (sym (length-keys_of rows))
      ∙ read_keys-concat 0 ((w0 ++ w1) ++ number) (keys_of rows) (w2 ++ values)
          (omega (
            arith,
            length-append (w0 ++ w1) number,
            length-append w0 w1,
            length-int_to_hex (length rows),
          ))
          (keys_of_words rows stored)

  has_values : substr_from (answer w0 w1 w2 rows behind) ((length rows + 4) * 64) ≡ ok values
  has_values =
      ap (λ t. substr_from t ((length rows + 4) * 64))
        (sym (append_assoc w0 w1 (number ++ (keys ++ (w2 ++ values))))
          ∙ sym (append_assoc (w0 ++ w1) number (keys ++ (w2 ++ values)))
          ∙ sym (append_assoc ((w0 ++ w1) ++ number) keys (w2 ++ values))
          ∙ sym (append_assoc (((w0 ++ w1) ++ number) ++ keys) w2 values))
      ∙ substr_from_end ((((w0 ++ w1) ++ number) ++ keys) ++ w2) values ((length rows + 4) * 64) (
          omega (
            arith,
            length-append (((w0 ++ w1) ++ number) ++ keys) w2,
            length-append ((w0 ++ w1) ++ number) keys,
            length-append (w0 ++ w1) number,
            length-append w0 w1,
            length-int_to_hex (length rows),
            length-concat (keys_of rows) (keys_of_words rows stored),
            length-keys_of rows,
          ))

-- `split` at the answer to rows with keys of 32 bytes and values that do not run into their tokens,
-- fewer than 2 ^ 31 of them, returns the map of the rows, whatever text without a token fills the
-- answer up.
pub split-answer :
    (w0 w1 w2 : Text) (rows : List (Buffer × Buffer)) (behind : Text)
    → length w0 ≡ 64
    → length w1 ≡ 64
    → length w2 ≡ 64
    → length rows < 2 ^ 31
    → All IsStored rows
    → IsFiller behind
    → split (answer w0 w1 w2 rows behind) 64 ≡ ok (collected rows [])
split-answer w0 w1 w2 rows behind l0 l1 l2 few stored ends =
    split_lem (answer w0 w1 w2 rows behind) (length rows)
      (has_number w0 w1 w2 rows behind l0 l1 l2 stored)
      (λ h. absurd (
        omega (
          arith,
          length-append w0 (
              w1
              ++ (int_to_hex (length rows) 64
                  ++ (concat (keys_of rows) ++ (w2 ++ join (values_of rows) behind)))),
        )))
      few
    ∙ split_count_lem (answer w0 w1 w2 rows behind) rows behind
        (has_keys w0 w1 w2 rows behind l0 l1 l2 stored)
        (has_values w0 w1 w2 rows behind l0 l1 l2 stored) stored ends
