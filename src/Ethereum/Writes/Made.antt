-- ===== src/Ethereum/Writes/Made.antt =====
-- What `put` makes of each pair before it sends anything.
use blockchain_db.Prelude.{
  ℕ, zero, suc, ◌+◌, ◌≤◌, ◌<◌, ◌^◌, ◌≡◌, refl, sym, ◌∙◌, ap, Bool, true, false, none, some, [], ◌∷◌,
  length, take, replicate, ◌++◌, get_elem?, All, Result, ok, arith, ◌>>=◌, >>=-eq-ok, Bool-cases,
  inl, inr,
}
use mathlib.Core.Path.{subst}
use mathlib.Core.Option.{some-injective}
use blockchain_db.Prelude.Order.{same, same_iff, same_refl}
use blockchain_db.Bytes.{Bytes, size}
use blockchain_db.Text.{Text, codes}
use blockchain_db.Text.Order.{text_ord}
use blockchain_db.Map.{Map, find, emplace}
use blockchain_db.Map.Lookup.{find-emplace, emplace-All}
use blockchain_db.Adapter.{Batch}
use blockchain_db.Encoding.{byte_array_to_hex, int_to_hex}
use blockchain_db.Platform.{Platform}
use blockchain_db.Word.{value_size}
use blockchain_db.Word.Padding.{convert_to_32byte_lem}
use blockchain_db.Ethereum.{Ethereum, send_transaction}
use blockchain_db.Ethereum.Params.{RpcParams, no_params, to_string}
use blockchain_db.Ethereum.Params.Decimal.{to_string-injective}
use blockchain_db.Ethereum.Reads.{update_nonce}
use blockchain_db.Ethereum.Writes.{ParamsMap, put_params, transform}

-- An entry that is there stays.
pub find-emplace_kept {ℓ} :
    {V : Type ℓ} (t j : Text) (v w : V) (m : Map Text V)
    → find j m ≡ some w
    → find j (emplace t v m) ≡ some w
find-emplace_kept t j v w m there = elim (Bool-cases (same t j)) [
  | inl e ↦
      let same_text : t ≡ j = (same_iff t j).0 e in rw (find-emplace, e, same_text, there) refl
  | inr e ↦ rw (find-emplace, e) there
]

pub find-emplace_new {ℓ} :
    {V : Type ℓ} (t : Text) (v : V) (m : Map Text V)
    → find t m ≡ none
    → find t (emplace t v m) ≡ some v
find-emplace_new t v m absent = rw (find-emplace, same_refl t, absent) refl

pub find-emplace_other {ℓ} :
    {V : Type ℓ} (t j : Text) (v : V) (m : Map Text V)
    → same t j ≡ false
    → find j (emplace t v m) ≡ find j m
find-emplace_other t j v m differs = rw (find-emplace, differs) refl

-- The parameters of a pair.
abbrev pub pair_params : Bytes → Bytes → ℕ → RpcParams
pair_params k v i = record no_params {
  method = send_transaction;
  call_data =
      codes "0xdb82ecc3"
      ++ (take 64 (byte_array_to_hex k.value ++ replicate 64 48)
          ++ (int_to_hex value_size 64 ++ (int_to_hex (size v) 64 ++ byte_array_to_hex v.value)));
  transaction_id = to_string i;
}

pub put_params_lem : (k v : Bytes) (i : ℕ) → put_params k v i ≡ ok (pair_params k v i)
unfolding put_params
put_params_lem k v i = rw (convert_to_32byte_lem (byte_array_to_hex k.value)) refl

abbrev pub IsSender : Text × (RpcParams × Bool) → Type 0
IsSender e = e.1.0.method ≡ send_transaction

-- No number from one on is the id of an entry.
abbrev HasRoom : ℕ → ParamsMap → Type 0
HasRoom i bt = (j : ℕ) → i ≤ j → j < 2 ^ 64 → find (to_string j) bt ≡ none

not_same_id : (i j : ℕ) → i < j → j < 2 ^ 64 → same (to_string i) (to_string j) ≡ false
not_same_id i j less small = elim (Bool-cases (same (to_string i) (to_string j))) [
  | inl e ↦
      let equal : i ≡ j =
        to_string-injective i j (omega arith) small ((same_iff (to_string i) (to_string j)).0 e) in
      absurd (omega (arith, equal))
  | inr e ↦ e
]

with_pair : Bytes → Bytes → ℕ → ParamsMap → ParamsMap
with_pair k v i bt = emplace (to_string i) (pair_params k v i, true) bt

with_pair-HasRoom :
    (k v : Bytes) (i : ℕ) (bt : ParamsMap) → HasRoom i bt → HasRoom (suc i) (with_pair k v i bt)
unfolding with_pair
with_pair-HasRoom k v i bt room j later small =
    find-emplace_other (to_string i) (to_string j) (pair_params k v i, true) bt
      (not_same_id i j (omega arith) small)
    ∙ room j (omega arith) small

module _ (P : Platform) where
  -- One turn of the loop that fills the maps.
  transform_step :
      (k v : Bytes) (batch : Batch) (i : ℕ) (bt : ParamsMap) (km : Map Text Text) (s : Ethereum P)
      {r : ParamsMap × Map Text Text × Ethereum P}
      → transform P ((k, v) ∷ batch) i bt km s ≡ ok r
      → (km' : Map Text Text) × (s' : Ethereum P) × (transform P batch
            (suc i)
            (with_pair k v i bt)
            km'
            s'
          ≡ ok r)
  unfolding transform with_pair
  transform_step k v batch i bt km s run =
      let (s', nonced, rest) = >>=-eq-ok (update_nonce P s) (λ s'. transform_pair s') run in
      (
        emplace (to_string i) (byte_array_to_hex k.value) km,
        s',
        sym (ap (λ r. r >>= made s') (put_params_lem k v i)) ∙ rest,
      )
    where
      made : Ethereum P → RpcParams → Result (ParamsMap × Map Text Text × Ethereum P)
      made s' params =
          transform P batch (suc i) (emplace params.transaction_id (params, true) bt)
            (emplace params.transaction_id (byte_array_to_hex k.value) km) s'

      transform_pair : Ethereum P → Result (ParamsMap × Map Text Text × Ethereum P)
      transform_pair s' = put_params k v i >>= made s'

  transform-kept :
      (batch : Batch) (i : ℕ) (bt : ParamsMap) (km : Map Text Text) (s : Ethereum P) (j : Text)
      (x : RpcParams × Bool) {bt' : ParamsMap} {km' : Map Text Text} {s' : Ethereum P}
      → transform P batch i bt km s ≡ ok (bt', km', s')
      → find j bt ≡ some x
      → find j bt' ≡ some x
  unfolding transform with_pair
  transform-kept [] i bt km s j x run there = cc
  transform-kept ((k, v) ∷ batch) i bt km s j x run there =
      let (km1, s1, rest) = transform_step k v batch i bt km s run in
      transform-kept batch (suc i) (with_pair k v i bt) km1 s1 j x rest
        (find-emplace_kept (to_string i) j (pair_params k v i, true) x bt there)

  -- Every entry is a transaction.
  pub transform-IsSender :
      (batch : Batch) (i : ℕ) (bt : ParamsMap) (km : Map Text Text) (s : Ethereum P)
      {bt' : ParamsMap} {km' : Map Text Text} {s' : Ethereum P}
      → transform P batch i bt km s ≡ ok (bt', km', s')
      → All IsSender bt
      → All IsSender bt'
  unfolding transform with_pair
  transform-IsSender [] i bt km s {bt'} run senders =
      let e : bt ≡ bt' = cc in subst (All IsSender) e senders
  transform-IsSender ((k, v) ∷ batch) i bt km s run senders =
      let (km1, s1, rest) = transform_step k v batch i bt km s run in
      transform-IsSender batch (suc i) (with_pair k v i bt) km1 s1 rest
        (emplace-All IsSender (to_string i) (pair_params k v i, true) bt refl senders)

  -- Every pair has its parameters in the map, under its number.
  pub transform-pair_params :
      (batch : Batch) (i : ℕ) (bt : ParamsMap) (km : Map Text Text) (s : Ethereum P) (n m : ℕ)
      (k v : Bytes) {bt' : ParamsMap} {km' : Map Text Text} {s' : Ethereum P}
      → i + length batch ≤ 2 ^ 64
      → HasRoom i bt
      → transform P batch i bt km s ≡ ok (bt', km', s')
      → get_elem? batch n ≡ some (k, v)
      → m ≡ i + n
      → find (to_string m) bt' ≡ some (pair_params k v m, true)
  unfolding with_pair
  transform-pair_params [] i bt km s n m k v few room run here number = cc
  transform-pair_params ((k0, v0) ∷ batch) i bt km s zero m k v few room run here number =
      let (km1, s1, rest) = transform_step k0 v0 batch i bt km s run in
      let first : m ≡ i = omega arith in
      let small : i < 2 ^ 64 = omega arith in
      let absent : find (to_string i) bt ≡ none = room i (omega arith) small in
      let pair : ◌≡◌ {A = Bytes × Bytes} (k0, v0) (k, v) = some-injective (k0, v0) (k, v) here in
      rw first (
        transform-kept batch (suc i) (with_pair k0 v0 i bt) km1 s1 (to_string i)
          (pair_params k0 v0 i, true) rest
          (find-emplace_new (to_string i) (pair_params k0 v0 i, true) bt absent)
        ∙ ap (λ e. some (pair_params e.0 e.1 i, true)) pair)
  transform-pair_params ((k0, v0) ∷ batch) i bt km s (suc n) m k v few room run here number =
      let (km1, s1, rest) = transform_step k0 v0 batch i bt km s run in
      transform-pair_params batch (suc i) (with_pair k0 v0 i bt) km1 s1 n m k v (omega arith)
        (with_pair-HasRoom k0 v0 i bt room) rest here (omega arith)
