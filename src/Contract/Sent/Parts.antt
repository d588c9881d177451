-- ===== src/Contract/Sent/Parts.antt =====
-- The texts that the loop of the adapter's `put_batch` puts together.
use blockchain_db.Prelude.{
  ℕ, suc, ◌+◌, ◌*◌, ◌≡◌, sym, ◌∙◌, ap, [], ◌∷◌, ◌++◌, take, replicate, ok, append_assoc, append-nil,
  take-append_left,
}
use blockchain_db.Bytes.{Bytes, size}
use blockchain_db.Bytes.Order.{bytes_ord}
use blockchain_db.Text.{Text}
use blockchain_db.Adapter.{Batch}
use blockchain_db.Encoding.{byte_array_to_hex, int_to_hex}
use blockchain_db.Encoding.RoundTrip.{length-int_to_hex}
use blockchain_db.Word.{convert_to_32byte}
use blockchain_db.Word.Padding.{convert_to_32byte_lem}
use blockchain_db.Ethereum.Writes.{PutBatch, put_batch_loop}
use blockchain_db.Contract.Sent.{key_word, convert_to_32byte-key_word}

-- The three parts that the loop puts together.
abbrev pub words : Batch → Text
words [] = []
words ((k, v) ∷ batch) = key_word k ++ words batch

abbrev pub offsets : ℕ → ℕ → Batch → Text
offsets count counter [] = []
offsets count counter ((k, v) ∷ batch) =
    int_to_hex (count * 32 + 64 * counter) 64 ++ offsets count (suc counter) batch

abbrev pub block : Bytes → Text
block v = take 64 (byte_array_to_hex v.value ++ replicate 64 48)

abbrev pub strings : Batch → Text
strings [] = []
strings ((k, v) ∷ batch) = int_to_hex (size v) 64 ++ (block v ++ strings batch)

convert_to_32byte-int_to_hex : (n : ℕ) → convert_to_32byte (int_to_hex n 64) ≡ ok (int_to_hex n 64)
convert_to_32byte-int_to_hex n =
    convert_to_32byte_lem (int_to_hex n 64)
    ∙ ap ok (take-append_left 64 (int_to_hex n 64) (replicate 64 48) (sym (length-int_to_hex n)))

abbrev part_texts : Text → Text → Text → PutBatch
part_texts k o u = record { key_string = k; value_offset = o; value_string = u }

put_batch_parts : {k l o p u v : Text} → k ≡ l → o ≡ p → u ≡ v → part_texts k o u ≡ part_texts l p v
put_batch_parts e f g = λ i. record { key_string = e i; value_offset = f i; value_string = g i }

pub put_batch_loop_lem :
    (count counter : ℕ) (batch : Batch) (parts : PutBatch)
    → put_batch_loop count counter batch parts
      ≡ ok (record {
        key_string = parts.key_string ++ words batch;
        value_offset = parts.value_offset ++ offsets count counter batch;
        value_string = parts.value_string ++ strings batch;
      })
unfolding put_batch_loop
put_batch_loop_lem count counter [] parts = ap ok (
    put_batch_parts (sym (append-nil parts.key_string)) (sym (append-nil parts.value_offset))
      (sym (append-nil parts.value_string)))
put_batch_loop_lem count counter ((k, v) ∷ batch) parts =
    rw
      (
        convert_to_32byte-key_word k,
        convert_to_32byte-int_to_hex (count * 32 + 64 * counter),
        convert_to_32byte-int_to_hex (size v),
        convert_to_32byte_lem (byte_array_to_hex v.value),
      )
      (put_batch_loop_lem count (suc counter) batch (record {
        key_string = parts.key_string ++ key_word k;
        value_offset = parts.value_offset ++ int_to_hex (count * 32 + 64 * counter) 64;
        value_string = parts.value_string ++ (int_to_hex (size v) 64 ++ block v);
      })
        ∙ ap ok (
            put_batch_parts (append_assoc parts.key_string (key_word k) (words batch))
              (append_assoc parts.value_offset (int_to_hex (count * 32 + 64 * counter) 64)
                (offsets count (suc counter) batch))
              (append_assoc parts.value_string (int_to_hex (size v) 64 ++ block v) (strings batch)
                ∙ ap (parts.value_string ++◌)
                    (append_assoc (int_to_hex (size v) 64) (block v) (strings batch)))))
