-- ===== src/Examples/Memory.antt =====
-- An adapter that keeps its table in memory, and two adapters in use.
use blockchain_db.Prelude.{◌≢◌, false, some, ℕ, List, [], ◌∷◌, pos, true, ok}
use blockchain_db.Bytes.{Bytes, size}
use blockchain_db.Bytes.Order.{bytes_ord}
use blockchain_db.Text.{Text, codes}
use blockchain_db.Map.{assign, erase}
use blockchain_db.Adapter.{BcAdapter, Batch}
use blockchain_db.Commit.{Adapters}
use blockchain_db.Table.{Table, Field}

pub put_entries : Batch → Batch → Batch
put_entries [] rows = rows
put_entries ((k, v) ∷ batch) rows = assign k v (put_entries batch rows)

abbrev pub memory : BcAdapter
memory = record {
  State = Batch;
  fresh = [];
  init = λ rows connection name. ok (true, rows);
  shutdown = λ rows. ok (true, rows);
  put = λ rows batch. ok (pos 0, [], put_entries batch rows);
  get_all = λ rows. ok (pos 0, rows, rows);
  remove = λ rows key. ok (pos 0, erase key rows);
  create_table = λ rows name. ok (pos 0, name, rows);
  load_table = λ rows name address. ok (pos 0, rows);
}

abbrev pub stock : Text
stock = codes "./shop/stock"

abbrev pub bytes : List ℕ → Bytes
bytes b = record { value = b }

-- The table holds one row already.
abbrev pub open_adapters : Adapters memory
open_adapters = (stock, (bytes (7 ∷ 9 ∷ []), bytes (9 ∷ 9 ∷ [])) ∷ []) ∷ []

-- A hash for the SHA-256 of the examples.
abbrev pub hash : List ℕ → Bytes
hash d = bytes (7 ∷ d)

pub hash_long : (d : List ℕ) → size (hash d) ≢ 0
hash_long d h = cc

-- Two columns of one byte behind one byte of NULL bits, the first of them the key.
abbrev pub id_field : Field
id_field = record { field_index = 0; offset = 1; pack_length = 1; is_varchar = false }

abbrev pub stock_table : Table
stock_table = record {
  db = codes "shop";
  table_name = codes "stock";
  null_bytes = 1;
  reclength = 3;
  field =
      id_field ∷ record { field_index = 1; offset = 2; pack_length = 1; is_varchar = false } ∷ [];
  key_info = some (record { key_parts = id_field ∷ []; key_length = 1 } ∷ []);
  primary_key = 0;
}
