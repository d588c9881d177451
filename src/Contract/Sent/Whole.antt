-- ===== src/Contract/Sent/Whole.antt =====
-- The call data of putBatch as a whole.
use blockchain_db.Prelude.{
  ℕ, ◌+◌, ◌*◌, ◌≡◌, refl, sym, ◌∙◌, ap, suc, [], ◌∷◌, ◌++◌, length, All, ok, arith, append_assoc,
  length-append,
}
use mathlib.Core.Path.{subst}
use blockchain_db.Bytes.Order.{bytes_ord}
use blockchain_db.Text.{Text, substr}
use blockchain_db.Text.Slices.{substr_front, substr_middle}
use blockchain_db.Adapter.{Batch}
use blockchain_db.Encoding.{int_to_hex}
use blockchain_db.Encoding.RoundTrip.{length-int_to_hex}
use blockchain_db.Word.{value_size}
use blockchain_db.Ethereum.Writes.{no_put_batch, put_batch_data}
use blockchain_db.Contract.Sent.{key_word, length-key_word}
use blockchain_db.Contract.Sent.Parts.{words, offsets, strings, put_batch_loop_lem}
use blockchain_db.Contract.Sent.Batch.{
  AreWords, IsPutBatchOf, batch_keys, batch_values, AreWords-words, AreStrings-strings, IsShort,
}

length-words : (batch : Batch) → length (words batch) ≡ 64 * length batch
length-words [] = omega arith
length-words ((k, v) ∷ batch) =
    omega (arith, length-append (key_word k) (words batch), length-key_word k, length-words batch)

length-offsets :
    (count counter : ℕ) (batch : Batch) → length (offsets count counter batch) ≡ 64 * length batch
length-offsets count counter [] = omega arith
length-offsets count counter ((k, v) ∷ batch) =
    let number = count * 32 + 64 * counter in
    omega (
      arith,
      length-append (int_to_hex number 64) (offsets count (suc counter) batch),
      length-int_to_hex number,
      length-offsets count (suc counter) batch,
    )

length-batch_keys : (batch : Batch) → length (batch_keys batch) ≡ length batch
length-batch_keys [] = refl
length-batch_keys (e ∷ batch) = ap suc (length-batch_keys batch)

length-batch_values : (batch : Batch) → length (batch_values batch) ≡ length batch
length-batch_values [] = refl
length-batch_values (e ∷ batch) = ap suc (length-batch_values batch)

regrouped : (a b c d : Text) → a ++ (b ++ (c ++ d)) ≡ ((a ++ b) ++ c) ++ d
regrouped a b c d = sym (append_assoc a b (c ++ d)) ∙ sym (append_assoc (a ++ b) c d)

module _ (batch : Batch) where
  abbrev n : ℕ
  n = length batch

  abbrev number : Text
  number = int_to_hex n 64

  abbrev keys_place : Text
  keys_place = int_to_hex value_size 64

  abbrev values_place : Text
  values_place = int_to_hex (n * 32 + 96) 64

  abbrev tail : Text
  tail = number ++ (offsets n 0 batch ++ strings batch)

  abbrev arguments : Text
  arguments = keys_place ++ (values_place ++ (number ++ (words batch ++ tail)))

  abbrev before_words : Text
  before_words = (keys_place ++ values_place) ++ number

  abbrev before_values : Text
  before_values = before_words ++ words batch

  length-before_words : length before_words ≡ 192
  length-before_words = omega (
    arith,
    length-append (keys_place ++ values_place) number,
    length-append keys_place values_place,
    length-int_to_hex value_size,
    length-int_to_hex (n * 32 + 96),
    length-int_to_hex n,
  )

  length-before_values : length before_values ≡ 192 + 64 * n
  length-before_values =
      omega
        (arith, length-append before_words (words batch), length-before_words, length-words batch)

  at_words : arguments ≡ before_words ++ (words batch ++ tail)
  at_words = regrouped keys_place values_place number (words batch ++ tail)

  at_values : arguments ≡ before_values ++ tail
  at_values = at_words ∙ sym (append_assoc before_words (words batch) tail)

  at_offsets : arguments ≡ (before_values ++ number) ++ (offsets n 0 batch ++ strings batch)
  at_offsets =
      at_values ∙ sym (append_assoc before_values number (offsets n 0 batch ++ strings batch))

  at_strings : arguments ≡ ((before_values ++ number) ++ offsets n 0 batch) ++ strings batch
  at_strings =
      at_offsets ∙ sym (append_assoc (before_values ++ number) (offsets n 0 batch) (strings batch))

  length-before_offsets : length (before_values ++ number) ≡ 256 + 64 * n
  length-before_offsets =
      omega (arith, length-append before_values number, length-before_values, length-int_to_hex n)

  arguments-IsPutBatchOf :
      All IsShort batch → IsPutBatchOf arguments (batch_keys batch) (batch_values batch)
  arguments-IsPutBatchOf short = record {
    keys_at = value_size;
    values_at = n * 32 + 96;
    keys_offset =
        substr_front keys_place (values_place ++ (number ++ (words batch ++ tail))) 64
          (sym (length-int_to_hex value_size));
    values_offset =
        substr_middle keys_place values_place (number ++ (words batch ++ tail)) 64 64
          (sym (length-int_to_hex value_size)) (sym (length-int_to_hex (n * 32 + 96)));
    keys_count =
        ap (λ t. substr t 128 64)
          (sym (append_assoc keys_place values_place (number ++ (words batch ++ tail))))
        ∙ substr_middle (keys_place ++ values_place) number (words batch ++ tail) 128 64
            (omega (
              arith,
              length-append keys_place values_place,
              length-int_to_hex value_size,
              length-int_to_hex (n * 32 + 96),
            ))
            (sym (length-int_to_hex n))
        ∙ ap (λ m. ok (int_to_hex m 64)) (sym (length-batch_keys batch));
    values_count =
        ap (λ t. substr t (2 * (n * 32 + 96)) 64) at_values
        ∙ substr_middle before_values number (offsets n 0 batch ++ strings batch)
            (2 * (n * 32 + 96)) 64 (omega (arith, length-before_values)) (sym (length-int_to_hex n))
        ∙ ap (λ m. ok (int_to_hex m 64)) (sym (length-batch_values batch));
    key_words =
        subst (λ t. AreWords t 96 (batch_keys batch)) (sym at_words)
          (AreWords-words before_words tail batch 96 (omega (arith, length-before_words)));
    value_strings =
        AreStrings-strings arguments (before_values ++ number) (strings batch)
          ((before_values ++ number) ++ offsets n 0 batch) n 0 (n * 32 + 96 + 32) (n * 32 + 96 + 32)
          batch at_offsets at_strings (omega (arith, length-before_offsets))
          (omega (
            arith,
            length-before_offsets,
            length-append (before_values ++ number) (offsets n 0 batch),
            length-offsets n 0 batch,
          ))
          short;
  }

-- For every batch with values of 32 bytes at most, what `put_batch` writes behind the selector are the
-- arguments of the contract's putBatch for its keys, as bytes32, and its values.
pub put_batch_data-IsPutBatchOf :
    (batch : Batch)
    → All IsShort batch
    → (arguments : Text) × (put_batch_data batch ≡ ok arguments)
      × IsPutBatchOf arguments (batch_keys batch) (batch_values batch)
unfolding put_batch_data
put_batch_data-IsPutBatchOf batch short = (
  arguments batch,
  rw (put_batch_loop_lem (length batch) 0 batch no_put_batch) refl,
  arguments-IsPutBatchOf batch short,
)
