-- ===== src/Commit/Planned.antt =====
-- The calls of a commit, from its statements alone, and that `bc_commit` makes them.
use blockchain_db.Prelude.{
  ℕ, ◌≤◌, ◌≡◌, refl, sym, ap, ◌∙◌, Bool, none, some, List, [], ◌∷◌, ◌++◌, All, length, ℤ, false,
  Result, ok, fault, ◌>>=◌, Result-cases, Option-cases, inl, inr, not, ◌&&◌,
}
use blockchain_db.Bytes.Order.{bytes_ord}
use blockchain_db.Text.{Text}
use blockchain_db.Text.Order.{text_ord}
use blockchain_db.Map.{Map, find, emplace, assign}
use blockchain_db.Map.Lookup.{contains-assign}
use blockchain_db.Transaction.{Statement, StatementType, Transaction, write, remove}
use blockchain_db.Adapter.{BcAdapter, Batch}
use blockchain_db.Commit.{
  Thd, Adapters, WriteBatches, or_empty, flush_batch, run_statement, commit_loop, flush_all, finish,
  bc_commit,
}
use blockchain_db.Commit.Calls.{
  Call, Calls, puts, removes, flush_calls, run_on, run_calls, run_on-flush_calls, run_on-append,
}
use blockchain_db.Commit.Loop.{AllOpened, AllOpened-kept, of_contains, name_read}

abbrev pub Batches : Type 0
Batches = Map Text Batch

abbrev pub waiting : Text → Batches → Batch
waiting t bs = or_empty (find t bs)

-- The calls for the batches that are left.
unfoldable pub last_calls : Batches → Calls
last_calls [] = []
last_calls ((t, []) ∷ bs) = last_calls bs
last_calls ((t, e ∷ batch) ∷ bs) = (t, puts (e ∷ batch) ∷ []) ∷ last_calls bs

abbrev pub deferred : Statement → Batches → Batches
deferred s bs = assign s.tablename (emplace s.key s.value (waiting s.tablename bs)) bs

abbrev pub removal_calls : Statement → Batches → List Call
removal_calls s bs = flush_calls (waiting s.tablename bs) ++ removes s.key ∷ []

-- The calls of one statement and of those after it, of which `rest` makes the calls.
abbrev pub plan_statement : StatementType → Statement → Batches → (Batches → Calls) → Calls
plan_statement write s bs rest = rest (deferred s bs)
plan_statement remove s bs rest =
    (s.tablename, removal_calls s bs) ∷ rest (assign s.tablename [] bs)

unfoldable pub plan : List Statement → Batches → Calls
plan [] bs = last_calls bs
plan (s ∷ ss) bs = plan_statement s.type s bs (plan ss)

module _ (B : BcAdapter) where
  flush_all-last_calls :
      (bs : Batches) (ads : Adapters B) → flush_all B bs ads ≡ run_calls B (last_calls bs) ads
  unfolding flush_all run_calls last_calls
  flush_all-last_calls [] ads = refl
  flush_all-last_calls ((t, []) ∷ bs) ads = flush_all-last_calls bs ads
  flush_all-last_calls ((t, e ∷ batch) ∷ bs) ads = elim (Option-cases (find t ads)) [
    | inl none_open ↦ rw (none_open, flush_all, run_calls) refl
    | inr (a, here) ↦ elim (Result-cases (flush_batch B (e ∷ batch) a)) [
      | inl (a', run) ↦
          rw (here, flush_all, run_calls, run_on-flush_calls B (e ∷ batch) a, run)
            (flush_all-last_calls bs (assign t a' ads))
      | inr (f, run) ↦ rw (here, flush_all, run_calls, run_on-flush_calls B (e ∷ batch) a, run) refl
    ]
  ]

  abbrev done : Thd → Adapters B → Result (ℕ × Thd × Adapters B)
  done thd ads = ok (0, record thd { ha_ptr = none }, ads)

  abbrev next :
      List Statement → Adapters B × WriteBatches B → Result (ℕ × Adapters B × WriteBatches B)
  next ss (ads, bs) = commit_loop B ss ads bs

  open_step :
      (s : Statement) (ss : List Statement) (a : B.State) (ads : Adapters B) (bs : WriteBatches B)
      → 2 ≤ length s.tablename
      → find s.tablename ads ≡ some a
      → commit_loop B (s ∷ ss) ads bs ≡ (run_statement B s.type s a ads bs >>= next ss)
  unfolding commit_loop
  open_step s ss a ads bs long here =
      let (rest, read) = name_read B s.tablename long in rw (read, commit_loop, here) refl

  run_removal :
      (s : Statement) (a : B.State) (bs : Batches)
      → run_on B (removal_calls s bs) a
        ≡ (flush_batch B (waiting s.tablename bs) a >>= λ f. run_on B (removes s.key ∷ []) f)
  run_removal s a bs =
      run_on-append B (flush_calls (waiting s.tablename bs)) (removes s.key ∷ []) a
      ∙ ap (λ r. r >>= run_on B (removes s.key ∷ []))
          (run_on-flush_calls B (waiting s.tablename bs) a)

  abbrev Planned : Thd → List Statement → Type 0
  Planned thd ss =
      (ads : Adapters B) (bs : Batches)
      → AllOpened B ss ads
      → (commit_loop B ss ads bs >>= finish B thd) ≡ (run_calls B (plan ss bs) ads >>= done thd)

  open_group :
      (t : Text) (calls : List Call) (rest : Calls) (a : B.State) (ads : Adapters B)
      → find t ads ≡ some a
      → run_calls B ((t, calls) ∷ rest) ads
        ≡ (run_on B calls a >>= λ a'. run_calls B rest (assign t a' ads))
  unfolding run_calls
  open_group t calls rest a ads here = rw (here, run_calls) refl

  abbrev removed_next :
      Statement
      → List Statement
      → Adapters B
      → Batches
      → ℤ × B.State
      → Result (ℕ × Adapters B × WriteBatches B)
  removed_next s ss ads bs (code, c) =
      commit_loop B ss (assign s.tablename c ads) (assign s.tablename [] bs)

  -- A flush and a removal, on both sides.
  removal_plan :
      (thd : Thd) (s : Statement) (ss : List Statement) (ads : Adapters B) (bs : Batches)
      (flushed : Result B.State)
      → AllOpened B ss ads
      → Planned thd ss
      → ((flushed >>= λ f. B.remove f s.key >>= removed_next s ss ads bs) >>= finish B thd) ≡ (
          ((flushed >>= run_on B (removes s.key ∷ [])) >>= λ c.
          run_calls B (plan ss (assign s.tablename [] bs)) (assign s.tablename c ads))
          >>= done thd)
  unfolding run_on
  removal_plan thd s ss ads bs (fault f) haves later = refl
  removal_plan thd s ss ads bs (ok b) haves later = elim (Result-cases (B.remove b s.key)) [
    | inr (f, run) ↦ rw run refl
    | inl ((code, c), run) ↦ rw run (
        later (assign s.tablename c ads) (assign s.tablename [] bs) (
          AllOpened-kept B ss ads (assign s.tablename c ads)
            (λ t h. contains-assign s.tablename t c ads h) haves))
  ]

  bind_assoc :
      {X Y Z : Type 0} (m : Result X) (f : X → Result Y) (g : Y → Result Z)
      → ((m >>= f) >>= g) ≡ (m >>= λ x. f x >>= g)
  bind_assoc (ok x) f g = refl
  bind_assoc (fault e) f g = refl

  removal_run :
      (s : Statement) (ss : List Statement) (a : B.State) (ads : Adapters B) (bs : Batches)
      → (run_statement B remove s a ads bs >>= next ss) ≡ (
          flush_batch B (waiting s.tablename bs) a >>= λ f.
          B.remove f s.key >>= removed_next s ss ads bs)
  unfolding run_statement
  removal_run s ss a ads bs = elim (Result-cases (flush_batch B (waiting s.tablename bs) a)) [
    | inr (f, run) ↦ rw run refl
    | inl (b, run) ↦ rw run (elim (Result-cases (B.remove b s.key)) [
      | inr (f, last) ↦ rw last refl
      | inl (c, last) ↦ rw last refl
    ])
  ]

  statement_plan :
      (thd : Thd) (type : StatementType) (s : Statement) (ss : List Statement) (a : B.State)
      (ads : Adapters B) (bs : Batches)
      → find s.tablename ads ≡ some a
      → AllOpened B ss ads
      → Planned thd ss
      → ((run_statement B type s a ads bs >>= next ss) >>= finish B thd)
        ≡ (run_calls B (plan_statement type s bs (plan ss)) ads >>= done thd)
  unfolding run_statement
  statement_plan thd write s ss a ads bs here haves later = later ads (deferred s bs) haves
  statement_plan thd remove s ss a ads bs here haves later =
      ap (λ r. r >>= finish B thd) (removal_run s ss a ads bs)
      ∙ removal_plan thd s ss ads bs (flush_batch B (waiting s.tablename bs) a) haves later
      ∙ ap
          (λ r.
            (r >>= λ c. run_calls B (plan ss (assign s.tablename [] bs)) (assign s.tablename c ads))
            >>= done thd)
          (sym (run_removal s a bs))
      ∙ ap (λ r. r >>= done thd)
          (sym (
            open_group s.tablename (removal_calls s bs) (plan ss (assign s.tablename [] bs)) a ads
              here))

  commit_loop-plan :
      (thd : Thd) (ss : List Statement) → All (λ s. 2 ≤ length s.tablename) ss → Planned thd ss
  unfolding commit_loop plan finish
  commit_loop-plan thd [] longs ads bs haves =
      ap (λ r. r >>= done thd) (flush_all-last_calls bs ads)
  commit_loop-plan thd (s ∷ ss) (long, longs) ads bs (have, haves) =
      let (a, here) = of_contains B s.tablename ads have in
      ap (λ r. r >>= finish B thd) (open_step s ss a ads bs long here)
      ∙ statement_plan thd s.type s ss a ads bs here haves (commit_loop-plan thd ss longs)

  pub bc_commit-plan :
      (thd : Thd) (commit_trx : Bool) (txn : Transaction) (ads : Adapters B)
      → (not commit_trx && thd.in_transaction) ≡ false
      → thd.ha_ptr ≡ some txn
      → All (λ s. 2 ≤ length s.tablename) txn.statements
      → AllOpened B txn.statements ads
      → bc_commit B thd commit_trx ads ≡ (
          run_calls B (plan txn.statements []) ads >>= λ ads'.
          ok (0, record thd { ha_ptr = none }, ads'))
  unfolding bc_commit
  bc_commit-plan thd commit_trx txn ads due here named opened =
      rw (due, here) (commit_loop-plan thd txn.statements named ads [] opened)
