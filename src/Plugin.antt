-- ===== src/Plugin.antt =====
-- engine/src/ha_blockchain.cc: what the plugin registers with the server (`blockchain_init_func`), the
-- test for system tables, and the methods of the handler that do not look at the table.
use blockchain_db.Prelude.{
  ℕ, ◌≡◌, refl, Bool, true, false, List, [], ◌∷◌, ◌==◌, ◌&&◌, if◌then◌else◌, Result, ok, fault,
  undefined,
}
use blockchain_db.Prelude.Order.{same}
use blockchain_db.Text.{Text}
use blockchain_db.Text.Order.{text_ord}
use blockchain_db.Adapter.{BcAdapter}
use blockchain_db.Commit.{Thd, Adapters, bc_commit, bc_rollback}
use blockchain_db.Rows.{Status, success, wrong_command}

-- `st_handler_tablename`. The name of the database is compared as a pointer: `db` is its address, 0 for
-- a null pointer.
record SystemTable : Type 0 where
  db : ℕ
  tablename : Text

abbrev ha_blockchain_system_tables : List SystemTable
ha_blockchain_system_tables = record { db = 0; tablename = [] } ∷ []

-- The loop, which ends at the null pointer.
unfoldable is_listed : List SystemTable → ℕ → Text → Result Bool
is_listed [] db table_name = fault undefined
is_listed (t ∷ systab) db table_name =
    let rest = is_listed systab db table_name in
    if t.db == 0
    then ok false
    else if (t.db == db) && same t.tablename table_name
    then ok true
    else rest

unfoldable blockchain_is_supported_system_table : ℕ → Text → Bool → Result Bool
unfolding is_listed
blockchain_is_supported_system_table db table_name is_sql_layer_system_table =
    if is_sql_layer_system_table
    then ok false
    else is_listed ha_blockchain_system_tables db table_name

-- No table is a system table of the engine, whatever its name.
blockchain_is_supported_system_table_lem :
    (db : ℕ) (table_name : Text) (is_sql_layer_system_table : Bool)
    → blockchain_is_supported_system_table db table_name is_sql_layer_system_table ≡ ok false
unfolding blockchain_is_supported_system_table is_listed
blockchain_is_supported_system_table_lem db table_name true = refl
blockchain_is_supported_system_table_lem db table_name false = refl

-- HTON_CAN_RECREATE and HTON_ALTER_NOT_SUPPORTED.
data HtonFlag : Type 0 where
  can_recreate alter_not_supported : HtonFlag

-- The transaction stays in its slot.
abbrev bc_close_connection : Thd → Status × Thd
bc_close_connection thd = (success, thd)

module _ (B : BcAdapter) where
  -- What the plugin sets of `handlerton`, but for the function that makes a handler; `state` says that
  -- it is SHOW_OPTION_YES.
  record Handlerton : Type 0 where
    state : Bool
    flags : List HtonFlag
    is_supported_system_table : ℕ → Text → Bool → Result Bool
    commit : Thd → Bool → Adapters B → Result (ℕ × Thd × Adapters B)
    rollback : Thd → Bool → ℕ × Thd
    close_connection : Thd → Status × Thd

  abbrev blockchain_init_func : Handlerton → Status × Handlerton
  blockchain_init_func hton = (
    success,
    record {
      state = true;
      flags = can_recreate ∷ alter_not_supported ∷ [];
      is_supported_system_table = blockchain_is_supported_system_table;
      commit = bc_commit B;
      rollback = bc_rollback;
      close_connection = bc_close_connection;
    },
  )

-- The `records` of the handler's `stats`.
abbrev info : ℕ → Status × ℕ
info records = (success, 10)

abbrev extra : Status
extra = success

abbrev delete_all_rows : Status
delete_all_rows = wrong_command

-- The table is left on the blockchain.
abbrev delete_table : Status
delete_table = success

abbrev rename_table : Status
rename_table = wrong_command

abbrev records_in_range : ℕ
records_in_range = 1000

abbrev start_stmt : Status
start_stmt = success

-- The place behind the locks: none is added.
abbrev store_lock {ℓ} : {Lock : Type ℓ} → List Lock → List Lock
store_lock to = to
