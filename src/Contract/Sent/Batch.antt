-- ===== src/Contract/Sent/Batch.antt =====
-- The call data of the contract's putBatch, as the adapter writes them.
use blockchain_db.Prelude.{
  ℕ, zero, suc, ◌+◌, ◌*◌, ◌≡◌, ◌≤◌, refl, sym, ◌∙◌, ap, List, [], ◌∷◌, ◌++◌, map, length, take,
  replicate, All, ok, arith, append_assoc, length-append, length-take, length-replicate,
}
use mathlib.Core.Path.{subst}
use blockchain_db.Bytes.{Bytes, size}
use blockchain_db.Bytes.Order.{bytes_ord}
use blockchain_db.Text.{Text, substr}
use blockchain_db.Text.Slices.{substr_middle}
use blockchain_db.Adapter.{Batch}
use blockchain_db.Table.{Buffer}
use blockchain_db.Encoding.{byte_array_to_hex, int_to_hex}
use blockchain_db.Encoding.RoundTrip.{length-byte_array_to_hex, length-int_to_hex}
use blockchain_db.Contract.Sent.{as_bytes32, IsStringAt, key_word, length-key_word}
use blockchain_db.Contract.Sent.Parts.{words, offsets, block, strings}

-- The words of a list of keys, from a place on.
abbrev pub AreWords : Text → ℕ → List Bytes → Type 0
AreWords arguments at [] = Unit
AreWords arguments at (k ∷ keys) =
    (substr arguments (2 * at) 64 ≡ ok (byte_array_to_hex k.value))
    × AreWords arguments (at + 32) keys

-- A list of strings: an offset of each, counted from the place of the first offset.
abbrev pub AreStrings : Text → ℕ → ℕ → List Buffer → Type 0
AreStrings arguments base at [] = Unit
AreStrings arguments base at (v ∷ values) =
    ((offset : ℕ) × (substr arguments (2 * at) 64 ≡ ok (int_to_hex offset 64))
      × IsStringAt arguments (base + offset) v)
    × AreStrings arguments base (at + 32) values

-- The arguments of putBatch: a list of keys and a list of strings, each after its length.
pub record IsPutBatchOf (arguments : Text) (keys : List Bytes) (values : List Buffer) : Type 0 where
  pub keys_at : ℕ
  pub values_at : ℕ
  pub keys_offset : substr arguments 0 64 ≡ ok (int_to_hex keys_at 64)
  pub values_offset : substr arguments 64 64 ≡ ok (int_to_hex values_at 64)
  pub keys_count : substr arguments (2 * keys_at) 64 ≡ ok (int_to_hex (length keys) 64)
  pub values_count : substr arguments (2 * values_at) 64 ≡ ok (int_to_hex (length values) 64)
  pub key_words : AreWords arguments (keys_at + 32) keys
  pub value_strings : AreStrings arguments (values_at + 32) (values_at + 32) values

abbrev pub batch_keys : Batch → List Bytes
batch_keys batch = map (λ e. as_bytes32 e.0) batch

abbrev pub batch_values : Batch → List Buffer
batch_values batch = map (λ e. e.1.value) batch

pub AreWords-words :
    (before behind : Text) (batch : Batch) (at : ℕ)
    → 2 * at ≡ length before
    → AreWords (before ++ (words batch ++ behind)) at (batch_keys batch)
AreWords-words before behind [] at here = tt
AreWords-words before behind ((k, v) ∷ batch) at here =
    let e : before ++ ((key_word k ++ words batch) ++ behind)
        ≡ (before ++ key_word k) ++ (words batch ++ behind) =
      ap (before ++◌) (append_assoc (key_word k) (words batch) behind)
      ∙ sym (append_assoc before (key_word k) (words batch ++ behind)) in
    (
      ap (λ t. substr t (2 * at) 64)
            (ap (before ++◌) (append_assoc (key_word k) (words batch) behind))
          ∙ substr_middle before (key_word k) (words batch ++ behind) (2 * at) 64 here
              (sym (length-key_word k)),
      subst (λ t. AreWords t (at + 32) (batch_keys batch)) (sym e)
          (AreWords-words (before ++ key_word k) behind batch (at + 32)
            (omega (arith, here, length-append before (key_word k), length-key_word k))),
    )

-- A value that putBatch gets as it is: of 32 bytes at most.
abbrev pub IsShort : Bytes × Bytes → Type 0
IsShort e = size e.1 ≤ 32

take_beyond :
    (n : ℕ) (s t : Text) → length s ≤ n → (filler : Text) × (take n (s ++ t) ≡ s ++ filler)
take_beyond n [] t within = (take n t, refl)
take_beyond zero (x ∷ s) t within = absurd (omega arith)
take_beyond (suc n) (x ∷ s) t within =
    let (filler, filled) = take_beyond n s t (omega arith) in (filler, ap (x ∷◌) filled)

block_lem :
    (v : Bytes) → size v ≤ 32 → (filler : Text) × (block v ≡ byte_array_to_hex v.value ++ filler)
block_lem v short =
    take_beyond 64 (byte_array_to_hex v.value) (replicate 64 48)
      (omega (arith, short, length-byte_array_to_hex v.value))

length-block : (v : Bytes) → length (block v) ≡ 64
length-block v = omega (
  arith,
  length-take 64 (byte_array_to_hex v.value ++ replicate 64 48),
  length-append (byte_array_to_hex v.value) (replicate 64 48),
  length-replicate {A = ℕ} 64 48,
)

IsStringAt-block :
    (arguments before behind : Text) (v : Bytes) (at : ℕ)
    → arguments ≡ before ++ (int_to_hex (size v) 64 ++ (block v ++ behind))
    → 2 * at ≡ length before
    → size v ≤ 32
    → IsStringAt arguments at v.value
IsStringAt-block arguments before behind v at e here short =
    let (filler, filled) = block_lem v short in
    let l = int_to_hex (size v) 64 in
    record {
      length_word =
          ap (λ t. substr t (2 * at) 64) e
          ∙ substr_middle before l (block v ++ behind) (2 * at) 64 here
              (sym (length-int_to_hex (size v)));
      content =
          ap (λ t. substr t (2 * at + 64) (2 * size v))
            (e
              ∙ ap (λ t. before ++ (l ++ t))
                  (ap (◌++ behind) filled ∙ append_assoc (byte_array_to_hex v.value) filler behind)
              ∙ sym (append_assoc before l (byte_array_to_hex v.value ++ (filler ++ behind))))
          ∙ substr_middle (before ++ l) (byte_array_to_hex v.value) (filler ++ behind) (2 * at + 64)
              (2 * size v) (omega (arith, here, length-append before l, length-int_to_hex (size v)))
              (sym (length-byte_array_to_hex v.value));
    }

pub AreStrings-strings :
    (arguments before behind before_strings : Text) (count counter base at : ℕ) (batch : Batch)
    → arguments ≡ before ++ (offsets count counter batch ++ behind)
    → arguments ≡ before_strings ++ strings batch
    → 2 * at ≡ length before
    → 2 * (base + (count * 32 + 64 * counter)) ≡ length before_strings
    → All IsShort batch
    → AreStrings arguments base at (batch_values batch)
AreStrings-strings arguments before behind before_strings count counter base at [] e f here there
      short =
    tt
AreStrings-strings arguments before behind before_strings count counter base at ((k, v) ∷ batch) e f
      here there (fits, short) =
    let number = count * 32 + 64 * counter in
    let o = int_to_hex number 64 in
    let l = int_to_hex (size v) 64 in
    let later = offsets count (suc counter) batch in
    let e' : arguments ≡ before ++ (o ++ (later ++ behind)) =
      e ∙ ap (before ++◌) (append_assoc o later behind) in
    let f' : arguments ≡ before_strings ++ (l ++ (block v ++ strings batch)) = f in
    (
      (
        number,
        ap (λ t. substr t (2 * at) 64) e'
            ∙ substr_middle before o (later ++ behind) (2 * at) 64 here
                (sym (length-int_to_hex number)),
        IsStringAt-block arguments before_strings (strings batch) v (base + number) f' there fits,
      ),
      AreStrings-strings arguments (before ++ o) behind ((before_strings ++ l) ++ block v) count
          (suc counter) base (at + 32) batch (e' ∙ sym (append_assoc before o (later ++ behind)))
          (f'
            ∙ sym (append_assoc before_strings l (block v ++ strings batch))
            ∙ sym (append_assoc (before_strings ++ l) (block v) (strings batch)))
          (omega (arith, here, length-append before o, length-int_to_hex number))
          (omega (
            arith,
            there,
            length-append (before_strings ++ l) (block v),
            length-append before_strings l,
            length-int_to_hex (size v),
            length-block v,
          ))
          short,
    )
