-- ===== src/Commit/Meaning.antt =====
-- What the statements of a transaction mean for one table, with no batches and no adapters.
use blockchain_db.Prelude.{◌≡◌, none, some, List, [], ◌∷◌, true, if◌then◌else◌}
use blockchain_db.Prelude.Order.{same}
use blockchain_db.Bytes.Order.{bytes_ord}
use blockchain_db.Text.{Text}
use blockchain_db.Text.Order.{text_ord}
use blockchain_db.Map.{find, emplace}
use blockchain_db.Transaction.{Statement, StatementType, write, remove}
use blockchain_db.Adapter.{Batch, Contents, updated, overlaid}

-- One statement, executed at once on the table that it names.
abbrev pub change : StatementType → Statement → Contents → Contents
change write s c = updated c s.key (some s.value)
change remove s c = updated c s.key none

abbrev pub execute : Text → Statement → Contents → Contents
execute table s c = if same s.tablename table then change s.type s c else c

-- The statements executed in their order.
unfoldable pub sequential : Text → List Statement → Contents → Contents
sequential table [] c = c
sequential table (s ∷ rest) c = sequential table rest (execute table s c)

-- The statements executed so that of the writes to a key since the last removal the first counts:
-- `pending` holds the writes since then.
pub record Pending : Type 0 where
  pub batch : Batch
  pub base : Contents

abbrev pub defer : StatementType → Statement → Pending → Pending
defer write s p = record { batch = emplace s.key s.value p.batch; base = p.base }
defer remove s p = record { batch = []; base = updated (overlaid p.batch p.base) s.key none }

abbrev pub defer_if : Text → Statement → Pending → Pending
defer_if table s p = if same s.tablename table then defer s.type s p else p

unfoldable pub first_writes : Text → List Statement → Pending → Contents
first_writes table [] p = overlaid p.batch p.base
first_writes table (s ∷ rest) p = first_writes table rest (defer_if table s p)

-- No key of the table is written twice with no removal from the table in between.
abbrev pub Fresh : StatementType → Statement → Batch → Type 0
Fresh write s batch = find s.key batch ≡ none
Fresh remove s batch = Unit

abbrev pub fresh_batch : StatementType → Statement → Batch → Batch
fresh_batch write s batch = emplace s.key s.value batch
fresh_batch remove s batch = []

abbrev pub WritesOnce : Text → List Statement → Batch → Type 0
WritesOnce table [] batch = Unit
WritesOnce table (s ∷ rest) batch =
    (same s.tablename table ≡ true → Fresh s.type s batch)
    × WritesOnce table rest (if same s.tablename table then fresh_batch s.type s batch else batch)
