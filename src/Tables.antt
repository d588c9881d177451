-- ===== src/Tables.antt =====
-- engine/src/ha_blockchain.cc: `create`, `open`, `close` and `get_path_to_file_with_table_metadata`;
-- adapter/factory: `AdapterFactory`. The files of the server are a parameter.
pub mod Loaded
pub mod Opened
pub mod Factory
pub mod Metadata
use blockchain_db.Prelude.{
  ℕ, zero, suc, ◌+◌, ◌-◌, ◌%◌, ◌^◌, Bool, true, false, not, Option, none, some, List, [], ◌∷◌, ◌++◌,
  length, ◌==◌, if◌then◌else◌, Result, ok, ◌>>=◌,
}
use blockchain_db.Prelude.Order.{same}
use blockchain_db.Text.{Text, codes, substr, substr_from}
use blockchain_db.Text
use blockchain_db.Text.Order.{text_ord}
use blockchain_db.Map.{find, emplace, erase, is_some}
use blockchain_db.Adapter.{BcAdapter}
use blockchain_db.Commit.{Adapters}
use blockchain_db.Table.{Table, full_table_name}
use blockchain_db.Platform.{Platform, thrown}
use blockchain_db.Tables.Factory.{BcType, get_bc_type, create_adapter}
use blockchain_db.Tables.Metadata.{
  Server, metadata_path, between_slashes, after_last_slash, connection_part,
}

module _ (P : Platform) (S : Server) (B : BcAdapter) where
  abbrev pub json_text : P.Json → Text → Result Text
  json_text json key = do value ← thrown (P.index json key); thrown (P.get_string value)

  -- The table address that `create` goes on with and its early return, which is `none`. To join a
  -- table, the address is read into a variable that hides the one of the function.
  pub new_address : P.Json → Text → Text → Result (Option Text)
  new_address json connection_string table_name = do
    bc_type ← json_text json (codes "bc_type")
    if is_some (Text.find (codes "table_address") connection_string)
        then (do hidden ← json_text json (codes "table_address"); ok (some []))
        else elim (create_adapter B (get_bc_type bc_type)) [
          | none ↦ ok none
          | some bc_adapter ↦ do
            (initialized, ready) ← B.init bc_adapter S.data_home connection_string
            if not initialized then ok none else (do
              (code, table_address, created) ← B.create_table ready table_name
              ok (some table_address))
        ]

  -- The file of the metadata, rewritten with the table address in its connection string.
  pub rewrite_metadata : P.Json → Text → Text → Text → S.Disk → Result S.Disk
  rewrite_metadata json table_address db_name table_name disk = do
    json' ← thrown (P.put_string json (codes "table_address") table_address)
    path ← metadata_path S P.replace_all db_name table_name disk
    let table_metadata = P.replace_all (S.first_line disk path) (codes "\\") []
    connection_string_data ← connection_part table_metadata
    ok (S.write disk path (P.replace_all table_metadata connection_string_data (P.dump json')))

  abbrev finish_create : P.Json → Option Text → Text → Text → S.Disk → Result (ℕ × S.Disk)
  finish_create json none db_name table_name disk = ok (1, disk)
  finish_create json (some table_address) db_name table_name disk = do
    disk' ← rewrite_metadata json table_address db_name table_name disk
    ok (0, disk')

  -- `create` of a table with a name and the connection string of its statement.
  unfoldable pub create : Text → Text → S.Disk → Result (ℕ × S.Disk)
  unfolding new_address rewrite_metadata
  create name connection_string disk = do
    db_name ← between_slashes name
    table_name ← after_last_slash name
    elim (P.parse connection_string) [
      | none ↦ ok (1, disk)
      | some json ↦ do
        address ← new_address json connection_string table_name
        finish_create json address db_name table_name disk
    ]

  -- The new adapter of a table, or the early return.
  unfoldable pub opened_adapter : Text → Text → Result (Option B.State)
  opened_adapter connection_string table_name = elim (P.parse connection_string) [
    | none ↦ ok none
    | some json ↦ do
      bc_type ← json_text json (codes "bc_type")
      table_address ← json_text json (codes "table_address")
      elim (create_adapter B (get_bc_type bc_type)) [
        | none ↦ ok none
        | some bc_adapter ↦ do
          (initialized, ready) ← B.init bc_adapter S.data_home connection_string
          if not initialized then ok none else (do
            (code, loaded) ← B.load_table ready table_name table_address
            ok (some loaded))
      ]
  ]

  -- The adapter map afterwards: an adapter that the table had already stays.
  abbrev pub with_adapter : Text → Adapters B → Option B.State → ℕ × Adapters B
  with_adapter name adapters none = (1, adapters)
  with_adapter name adapters (some bc_adapter) = (0, emplace name bc_adapter adapters)

  unfoldable pub open_table : Text → S.Disk → Adapters B → Result (ℕ × Adapters B)
  unfolding opened_adapter
  open_table name disk adapters = do
    db_name ← between_slashes name
    table_name ← after_last_slash name
    path ← metadata_path S P.replace_all db_name table_name disk
    part ← connection_part (S.first_line disk path)
    let connection_string = P.replace_all (P.replace_all part (codes "\\\\") []) (codes "\\") []
    bc_adapter ← opened_adapter connection_string table_name
    ok (with_adapter name adapters bc_adapter)

module _ (B : BcAdapter) where
  -- The adapter of a table, if it is in the map, is shut down and leaves the map.
  abbrev shut_down : Text → Adapters B → Option B.State → Result (Adapters B)
  shut_down name adapters none = ok adapters
  shut_down name adapters (some bc_adapter) = do
    (done, stopped) ← B.shutdown bc_adapter
    ok (erase name adapters)

  pub close : Table → Adapters B → Result (ℕ × Adapters B)
  close table adapters = do
    adapters' ← shut_down (full_table_name table) adapters (find (full_table_name table) adapters)
    ok (0, adapters')
