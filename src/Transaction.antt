-- ===== src/Transaction.antt =====
-- engine/include/transaction.h and engine/src/transaction.cc: the statements of a transaction and the
-- copies of the tables that it uses.
use blockchain_db.Prelude.{ℕ, List, [], ◌∷◌, ◌++◌, ◌==◌, ◌||◌, if◌then◌else◌}
use blockchain_db.Bytes.{Bytes, size}
use blockchain_db.Bytes.Order.{bytes_ord}
use blockchain_db.Text.{Text, is_empty}
use blockchain_db.Text.Order.{text_ord}
use blockchain_db.Map.{Map, contains, emplace}

pub data StatementType : Type 0 where
  write remove : StatementType

pub record Statement : Type 0 where
  pub type : StatementType
  pub tablename : Text
  pub key : Bytes
  pub value : Bytes

-- A copy of a table: `std::map<BYTES, BYTES>`.
abbrev pub TableMap : Type 0
TableMap = Map Bytes Bytes

pub record Transaction : Type 0 where
  pub statements : List Statement
  pub table_cache : Map Text TableMap
  pub lock_count : ℕ

-- `new Transaction()` and `init`.
abbrev pub new_transaction : Transaction
new_transaction = record { statements = []; table_cache = []; lock_count = 0 }

-- `BYTES(nullptr, 0)`.
abbrev pub no_bytes : Bytes
no_bytes = record { value = [] }

-- A table that is there already is kept; the code says which.
unfoldable pub add_table : Text → TableMap → Transaction → ℕ × Transaction
add_table tablename table_map txn = (
  if contains tablename txn.table_cache then 1 else 0,
  record txn { table_cache = emplace tablename table_map txn.table_cache },
)

unfoldable pub add_write : Text → Bytes → Bytes → Transaction → ℕ × Transaction
add_write tablename key value txn = if is_empty tablename || size key == 0 then (1, txn) else (
  0,
  record txn {
    statements =
        txn.statements
        ++ record { type = write; tablename = tablename; key = key; value = value } ∷ [];
  },
)

unfoldable pub add_remove : Text → Bytes → Transaction → ℕ × Transaction
add_remove tablename key txn = if is_empty tablename || size key == 0 then (1, txn) else (
  0,
  record txn {
    statements =
        txn.statements
        ++ record { type = remove; tablename = tablename; key = key; value = no_bytes } ∷ [];
  },
)
