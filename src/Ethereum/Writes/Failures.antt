-- ===== src/Ethereum/Writes/Failures.antt =====
-- `put` when some transactions fail.
use blockchain_db.Prelude.{
  ◌≡◌, Bool, true, not, List, [], ◌∷◌, if◌then◌else◌, ℤ, pos, Result, ok, fault, undefined, ◌&&◌,
  ◌>>=◌,
}
use blockchain_db.Text.{Text}
use blockchain_db.Map.{Map}
use blockchain_db.Adapter.{Batch}
use blockchain_db.Encoding.{byte_array_to_hex}
use blockchain_db.Platform.{Platform}
use blockchain_db.Ethereum.{Ethereum}
use blockchain_db.Ethereum.Reads.{check_connection}
use blockchain_db.Ethereum.Writes.{
  ParamsMap, is_among, transform, create_rpc_batch, send_rpc_batch, put_answer,
}

-- Whether the transactions of all pairs have failed.
pub all_failed : List Text → Batch → Bool
all_failed failed_keys [] = true
all_failed failed_keys ((k, v) ∷ batch) =
    is_among (byte_array_to_hex k.value) failed_keys && all_failed failed_keys batch

module _ (P : Platform) where
  -- What happens in a `put` to an available node up to the list of the keys whose transactions have
  -- failed.
  pub record IsSent (s : Ethereum P) (batch : Batch) (failed_keys : List Text) (after : Ethereum P)
      : Type 0 where
    pub available : Ethereum P
    pub nonced : Ethereum P
    pub numbered : Ethereum P
    pub batch_transform : ParamsMap
    pub key_map : Map Text Text
    pub rpc_batch : Map Text Text
    pub rpc_keys : Map Text Text
    pub connects : check_connection P s ≡ ok (true, available)
    pub transforms : transform P batch 0 [] [] available ≡ ok (batch_transform, key_map, nonced)
    pub creates :
        create_rpc_batch P batch_transform key_map [] [] nonced ≡ ok (rpc_batch, rpc_keys, numbered)
    pub sends : send_rpc_batch P rpc_batch rpc_keys numbered ≡ ok (failed_keys, after)

  abbrev Answer : Type 0
  Answer = ℤ × Batch × Ethereum P

  abbrev left_with : Ethereum P → Batch → Result Answer
  left_with s left = ok (pos 1, left, s)

  erased : List Text → Batch → Result Batch
  erased failed_keys batch = if all_failed failed_keys batch then ok batch else fault undefined

  abbrev sent_answer : Batch → List Text × Ethereum P → Result Answer
  sent_answer batch (response, s4) = put_answer P batch response s4

  abbrev created_answer : Batch → Map Text Text × Map Text Text × Ethereum P → Result Answer
  created_answer batch (rpc_batch, rpc_keys, s3) =
      send_rpc_batch P rpc_batch rpc_keys s3 >>= sent_answer batch

  abbrev transformed_answer : Batch → ParamsMap × Map Text Text × Ethereum P → Result Answer
  transformed_answer batch (batch_transform, key_map, s2) =
      create_rpc_batch P batch_transform key_map [] [] s2 >>= created_answer batch

  abbrev connected_answer : Batch → Bool × Ethereum P → Result Answer
  connected_answer batch (available, s1) =
      if not available
      then ok (pos 1, batch, s1)
      else (transform P batch 0 [] [] s1 >>= transformed_answer batch)
