-- ===== src/Contract.antt =====
-- adapter/ethereum/contract/truffle/contracts/TableStorage.sol: the contract `SimpleStorage`, which
-- holds a table. A call that reverts is `none`: it leaves the contract as it was.
pub mod Batches
pub mod Collected
pub mod Counts
pub mod Listed
pub mod Meaning
pub mod Scanned
pub mod Sent
use blockchain_db.Prelude.{
  ℕ, zero, suc, ◌-◌, Bool, true, false, Option, none, some, List, [], ◌∷◌, ◌++◌, length, get_elem?,
  ◌==◌, if◌then◌else◌,
}
use blockchain_db.Prelude.Order.{same}
use blockchain_db.Bytes.{Bytes}
use blockchain_db.Bytes.Order.{bytes_ord}
use blockchain_db.Text.{codes}
use blockchain_db.Table.{Buffer}

pub record Value : Type 0 where
  pub blocknumber : ℕ
  pub value : Buffer

-- A value that was never written or is deleted.
abbrev pub no_value : Value
no_value = record { blocknumber = 0; value = [] }

-- `data` and `keyList`. A key is a bytes32.
pub record Contract : Type 0 where
  pub data_of : Bytes → Value
  pub key_list : List Bytes

abbrev pub deployed : Contract
deployed = record { data_of = λ key. no_value; key_list = [] }

-- `data[key] = v`.
abbrev pub stored : (Bytes → Value) → Bytes → Value → Bytes → Value
stored data_of key v = λ j. if same key j then v else data_of j

abbrev pub is_written : Contract → Bytes → Bool
is_written c key = if (c.data_of key).blocknumber == 0 then false else true

-- `put` in a block with a number.
unfoldable pub put : ℕ → Bytes → Buffer → Contract → Contract
put block key value c = record {
  key_list = if is_written c key then c.key_list else c.key_list ++ key ∷ [];
  data_of = stored c.data_of key (record { blocknumber = block; value = value });
}

unfoldable pub get : Bytes → Contract → Option Buffer
get key c = if is_written c key then some (c.data_of key).value else none

abbrev pub separator : Buffer
separator = codes "####"

-- The loop of `tableScan` that joins the values, from a key on.
unfoldable pub joined : List Bytes → Buffer → Contract → Buffer
joined [] tmp c = tmp
joined (k ∷ keys) tmp c = joined keys (tmp ++ ((c.data_of k).value ++ separator)) c

unfoldable pub table_scan : Contract → List Bytes × Buffer
unfolding joined
table_scan c = (c.key_list, joined c.key_list [] c)

-- The loop of `remove` that looks for the key.
unfoldable pub index_of : Bytes → List Bytes → Option ℕ
index_of key [] = none
index_of key (k ∷ keys) =
    if same k key then some 0 else elim (index_of key keys) [ none ↦ none | some i ↦ some (suc i) ]

unfoldable pub assign_at : ℕ → Bytes → List Bytes → List Bytes
assign_at i key [] = []
assign_at zero key (k ∷ keys) = key ∷ keys
assign_at (suc i) key (k ∷ keys) = k ∷ assign_at i key keys

unfoldable pub pop : List Bytes → List Bytes
pop [] = []
pop (k ∷ []) = []
pop (k ∷ j ∷ keys) = k ∷ pop (j ∷ keys)

-- The last element moves to the place of the key. An index past the end, and `size - 1` of an empty
-- list, revert.
unfoldable pub swap_out : Option ℕ → List Bytes → Option (List Bytes)
unfolding assign_at pop
swap_out none keys = none
swap_out (some index) keys = elim (get_elem? keys (length keys - 1)) [
  | none ↦ none
  | some last ↦ some (pop (assign_at index last keys))
]

abbrev pub with_keys : Bytes → Contract → Option (List Bytes) → Option Contract
with_keys key c none = none
with_keys key c (some keys) =
    some (record { key_list = keys; data_of = stored c.data_of key no_value })

unfoldable pub remove : Bytes → Contract → Option Contract
unfolding index_of swap_out
remove key c =
    if is_written c key
    then with_keys key c (swap_out (index_of key c.key_list) c.key_list)
    else none

-- The loop of `putBatch`; `values[i]` reverts past the end.
unfoldable pub put_batch : ℕ → List Bytes → List Buffer → Contract → Option Contract
unfolding put
put_batch block [] values c = some c
put_batch block (k ∷ keys) [] c = none
put_batch block (k ∷ keys) (v ∷ values) c = put_batch block keys values (put block k v c)

-- A call in a block, and the contract after it.
pub data Call : Type 0 where
  put_call : Bytes → Buffer → Call
  remove_call : Bytes → Call
  put_batch_call : List Bytes → List Buffer → Call

abbrev pub or_reverted : Contract → Option Contract → Contract
or_reverted c none = c
or_reverted c (some after) = after

unfoldable pub executed : ℕ → Call → Contract → Contract
unfolding put remove put_batch
executed block (put_call key value) c = put block key value c
executed block (remove_call key) c = or_reverted c (remove key c)
executed block (put_batch_call keys values) c = or_reverted c (put_batch block keys values c)

-- The calls of a history, each with the number of its block.
unfoldable pub run : List (ℕ × Call) → Contract → Contract
unfolding executed
run [] c = c
run ((block, call) ∷ calls) c = run calls (executed block call c)
