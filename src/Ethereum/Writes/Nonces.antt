-- ===== src/Ethereum/Writes/Nonces.antt =====
-- The nonces of the transactions of a batch.
use blockchain_db.Prelude.{
  ℕ, ◌+◌, ◌%◌, ◌^◌, ◌≡◌, refl, Bool, true, some, List, [], ◌∷◌, length, All, ok,
}
use blockchain_db.Prelude.Order.{same_iff}
use blockchain_db.Text.{Text}
use blockchain_db.Text.Order.{text_ord}
use blockchain_db.Map.{Map, find, contains}
use blockchain_db.Platform.{Platform}
use blockchain_db.Ethereum.{Ethereum, send_transaction, filled_in, numbered, json_of}
use blockchain_db.Ethereum.Params.{RpcParams}
use blockchain_db.Ethereum.Params.Object.{IsObjectOf}
use blockchain_db.Ethereum.Writes.{ParamsMap, create_rpc_batch}

module _ (P : Platform) where
  -- An entry that is a transaction, with its key.
  abbrev pub IsKeyed : Map Text Text → Text × (RpcParams × Bool) → Type 0
  IsKeyed key_map (id, (params, set_gas)) =
      (params.method ≡ send_transaction) × (k : Text) × (find id key_map ≡ some k)

  -- The texts of the transactions of a batch, which take the nonces from the one with a distance to
  -- the adapter's on.
  unfoldable numbered_texts : Ethereum P → ℕ → ParamsMap → List Text
  numbered_texts s n [] = []
  numbered_texts s n ((id, (params, set_gas)) ∷ batch) =
      json_of P (record (filled_in P s set_gas params) { nonce = (s.nonce + n) % 2 ^ 64 })
      ∷ numbered_texts s (n + 1) batch

  abbrev pub at_nonce : Ethereum P → ℕ → Ethereum P
  at_nonce s n = record s { nonce = n }

  pub numbered_lem :
      (s : Ethereum P) (params : RpcParams)
      → params.method ≡ send_transaction
      → numbered P s params
        ≡ (record params { nonce = (s.nonce + 1) % 2 ^ 64 }, at_nonce s ((s.nonce + 1) % 2 ^ 64))
  unfolding numbered
  numbered_lem s params sends = rw ((same_iff params.method send_transaction).1 sends) refl

  numbered_text : Ethereum P → RpcParams → Bool → Text
  numbered_text s params set_gas =
      json_of P (record (filled_in P s set_gas params) { nonce = (s.nonce + 1) % 2 ^ 64 })

  abbrev Created : ParamsMap → Map Text Text → Map Text Text → Map Text Text → Ethereum P → Type 0
  Created batch key_map bt kt s =
      (rpc_batch : Map Text Text) × (rpc_keys : Map Text Text) × (create_rpc_batch P batch key_map
          bt kt s
        ≡ ok (rpc_batch, rpc_keys, at_nonce s ((s.nonce + length batch) % 2 ^ 64)))
      × All (λ t. contains t rpc_batch ≡ true) (numbered_texts s 1 batch)
      × ((t : Text) → contains t bt ≡ true → contains t rpc_batch ≡ true)

  -- Texts for the transactions of a batch, in its order: each is the object with the transaction's
  -- parameters as they are filled in, numbered from a distance to the adapter's nonce on.
  unfoldable pub AreObjects : Ethereum P → ℕ → ParamsMap → List Text → Type 0
  AreObjects s n [] [] = Unit
  AreObjects s n [] (t ∷ texts) = ⊥
  AreObjects s n (e ∷ batch) [] = ⊥
  AreObjects s n ((id, (params, set_gas)) ∷ batch) (t ∷ texts) =
      IsObjectOf t (record (filled_in P s set_gas params) { nonce = (s.nonce + n) % 2 ^ 64 })
      × AreObjects s (n + 1) batch texts
