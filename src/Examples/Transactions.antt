-- ===== src/Examples/Transactions.antt =====
-- A transaction that locks the table, inserts a row and ends.
use blockchain_db.Prelude.{◌≡◌, refl, true, false, none, some, [], ◌∷◌, ok, ◌>>=◌, arith}
use blockchain_db.Bytes.{Bytes, bytes_lt}
use blockchain_db.Prelude.Order.{same}
use blockchain_db.Text.{Text, text_lt}
use blockchain_db.Text.Order.{text_ord}
use blockchain_db.Bytes.Order.{bytes_ord}
use blockchain_db.Map.{find, assign, emplace}
use blockchain_db.Map.Lookup.{find-nil}
use blockchain_db.Transaction.{Transaction, TableMap, write, add_write, add_table, Statement}
use blockchain_db.Adapter.{Contents}
use blockchain_db.Commit.{Thd, Adapters, bc_commit}
use blockchain_db.Commit.Meaning.{sequential, first_writes}
use blockchain_db.Commit.Calls.{Calls, effect_on, run_calls}
use blockchain_db.Commit.Correct.{IsReady, start, bc_commit-sequential, bc_commit-first_writes}
use blockchain_db.Commit.Lost.{twice, bc_commit-loses_second_write}
use blockchain_db.Table.{read, memcpy}
use blockchain_db.Rows.{success, write_row, get_primary_key}
use blockchain_db.Rows.Invariant.{SlotIsCoherent, RowStep, written, RowStep-IsCoherent}
use blockchain_db.Lock.{external_lock}
use blockchain_db.Session.Reads.{IsSynced, Reach-IsSynced}
use blockchain_db.Session.{Step, Reach, locked, row, stop, next}
use blockchain_db.Session.Ends.{IsDue, IsCommitted, transaction_commits}
use blockchain_db.Examples.Memory.{
  memory, stock, bytes, open_adapters, hash, hash_long, stock_table,
}

abbrev started_thd : Thd
started_thd = record { in_transaction = true; ha_ptr = none; registered = [] }

-- After the lock.
abbrev locked_txn : Transaction
locked_txn = record {
  statements = [];
  table_cache = (stock, (bytes (7 ∷ 9 ∷ []), bytes (9 ∷ 9 ∷ [])) ∷ []) ∷ [];
  lock_count = 1;
}

abbrev locked_thd : Thd
locked_thd = record {
  in_transaction = true;
  ha_ptr = some locked_txn;
  registered = false ∷ true ∷ [];
}

-- After the insertion of the row with the bytes 5 and 6.
abbrev insertion : Statement
insertion = record {
  type = write;
  tablename = stock;
  key = bytes (7 ∷ 5 ∷ []);
  value = bytes (5 ∷ 6 ∷ []);
}

abbrev pub inserted_txn : Transaction
inserted_txn = record {
  statements = insertion ∷ [];
  table_cache =
      (
        stock,
        (bytes (7 ∷ 5 ∷ []), bytes (5 ∷ 6 ∷ [])) ∷ (bytes (7 ∷ 9 ∷ []), bytes (9 ∷ 9 ∷ [])) ∷ [],
      )
      ∷ [];
  lock_count = 1;
}

abbrev pub inserted_thd : Thd
inserted_thd = record {
  in_transaction = true;
  ha_ptr = some inserted_txn;
  registered = false ∷ true ∷ [];
}

lock-Step : Step memory hash (started_thd, open_adapters) (locked_thd, open_adapters)
unfolding external_lock find assign add_table same text_ord text_lt bytes_ord bytes_lt emplace
lock-Step = locked 1 stock_table success refl

insert_run :
    write_row hash stock_table (0 ∷ 5 ∷ 6 ∷ []) (some locked_txn) ≡ ok (success, some inserted_txn)
unfolding write_row get_primary_key read memcpy find assign add_write same text_ord text_lt
    bytes_ord bytes_lt
insert_run = refl

row_inserted : RowStep hash locked_thd.ha_ptr inserted_thd.ha_ptr
row_inserted = written stock_table (0 ∷ 5 ∷ 6 ∷ []) success insert_run

insert_steps : Reach memory hash (started_thd, open_adapters) (inserted_thd, open_adapters)
insert_steps = next (next stop lock-Step) (row row_inserted)

insert_IsDue : IsDue memory inserted_thd true inserted_txn open_adapters
unfolding find same text_ord text_lt
insert_IsDue = record { due = refl; here = refl; opened = (refl, tt); once = λ t. (λ e. refl, tt) }

abbrev begun : Thd × Adapters memory
begun = (started_thd, open_adapters)

abbrev inserted : Thd × Adapters memory
inserted = (inserted_thd, open_adapters)

transaction_commits_example :
    (calls : Calls) × (bc_commit memory inserted_thd true open_adapters ≡ (
      run_calls memory calls open_adapters >>= λ ads'.
      ok (0, record inserted_thd { ha_ptr = none }, ads')))
    × ((t : Text) (copy : TableMap)
        → find t inserted_txn.table_cache ≡ some copy
        → IsCommitted memory hash hash_long begun inserted calls t copy)
    × ((t : Text) (c : Contents) → find t inserted_txn.table_cache ≡ none → effect_on t calls c ≡ c)
transaction_commits_example =
    transaction_commits memory hash hash_long begun inserted true inserted_txn refl insert_steps
      insert_IsDue

insert_IsReady : IsReady memory inserted_thd true inserted_txn open_adapters
unfolding find same text_ord text_lt
insert_IsReady = record { due = refl; here = refl; named = (omega arith, tt); opened = (refl, tt) }

bc_commit-sequential_example :
    (calls : Calls) × (bc_commit memory inserted_thd true open_adapters ≡ (
      run_calls memory calls open_adapters >>= λ ads'.
      ok (0, record inserted_thd { ha_ptr = none }, ads')))
    × ((t : Text) (c : Contents) → effect_on t calls c ≡ sequential t inserted_txn.statements c)
bc_commit-sequential_example =
    bc_commit-sequential memory inserted_thd true inserted_txn open_adapters insert_IsReady
      (λ t. (λ e. find-nil {V = Bytes} (bytes (7 ∷ 5 ∷ [])), tt))

bc_commit-first_writes_example :
    (calls : Calls) × (bc_commit memory inserted_thd true open_adapters ≡ (
      run_calls memory calls open_adapters >>= λ ads'.
      ok (0, record inserted_thd { ha_ptr = none }, ads')))
    × ((t : Text) (c : Contents)
        → effect_on t calls c ≡ first_writes t inserted_txn.statements (start c))
bc_commit-first_writes_example =
    bc_commit-first_writes memory inserted_thd true inserted_txn open_adapters insert_IsReady

Reach-IsSynced_example : IsSynced memory hash hash_long begun inserted
Reach-IsSynced_example = Reach-IsSynced memory hash hash_long begun inserted refl insert_steps

at_lock : IsSynced memory hash hash_long begun (locked_thd, open_adapters)
at_lock =
    Reach-IsSynced memory hash hash_long begun (locked_thd, open_adapters) refl
      (next stop lock-Step)

RowStep-IsCoherent_example : SlotIsCoherent at_lock.snapshot (some inserted_txn)
RowStep-IsCoherent_example =
    RowStep-IsCoherent hash hash_long at_lock.snapshot row_inserted at_lock.slot

abbrev twice_txn : Transaction
twice_txn = record {
  statements = twice stock (bytes (7 ∷ 5 ∷ [])) (bytes (5 ∷ 6 ∷ [])) (bytes (5 ∷ 8 ∷ []));
  table_cache = [];
  lock_count = 1;
}

abbrev twice_thd : Thd
twice_thd = record started_thd { ha_ptr = some twice_txn }

twice_IsReady : IsReady memory twice_thd true twice_txn open_adapters
unfolding find same text_ord text_lt
twice_IsReady = record {
  due = refl;
  here = refl;
  named = (omega arith, (omega arith, tt));
  opened = (refl, (refl, tt));
}

bc_commit-loses_second_write_example :
    (calls : Calls) × (bc_commit memory twice_thd true open_adapters ≡ (
      run_calls memory calls open_adapters >>= λ ads'.
      ok (0, record twice_thd { ha_ptr = none }, ads')))
    × ((c : Contents)
        → (effect_on stock calls c (bytes (7 ∷ 5 ∷ [])) ≡ some (bytes (5 ∷ 6 ∷ [])))
          × (sequential stock twice_txn.statements c (bytes (7 ∷ 5 ∷ []))
              ≡ some (bytes (5 ∷ 8 ∷ []))))
bc_commit-loses_second_write_example =
    bc_commit-loses_second_write memory twice_thd true twice_txn open_adapters stock
      (bytes (7 ∷ 5 ∷ [])) (bytes (5 ∷ 6 ∷ [])) (bytes (5 ∷ 8 ∷ [])) twice_IsReady refl
