-- ===== src/Commit/Correct.antt =====
-- `bc_commit` against the meaning of the transaction's statements.
use blockchain_db.Prelude.{
  ◌≤◌, ◌≡◌, refl, ap, ◌∙◌, Bool, false, none, some, List, [], ◌∷◌, All, length, ok, ◌>>=◌, not,
  ◌&&◌, Bool-cases, inl, inr,
}
use mathlib.Core.Path.{fun_ext}
use blockchain_db.Prelude.Order.{same}
use blockchain_db.Bytes.{Bytes}
use blockchain_db.Bytes.Order.{bytes_ord}
use blockchain_db.Text.{Text}
use blockchain_db.Text.Order.{text_ord}
use blockchain_db.Map.{find, emplace}
use blockchain_db.Map.Lookup.{find-emplace, find-nil}
use blockchain_db.Transaction.{Statement, StatementType, Transaction, write, remove}
use blockchain_db.Adapter.{BcAdapter, Batch, Contents, overlaid, updated}
use blockchain_db.Commit.{Thd, Adapters, or_empty, bc_commit}
use blockchain_db.Commit.Meaning.{
  Pending, defer, first_writes, change, sequential, WritesOnce, Fresh, fresh_batch,
}
use blockchain_db.Commit.Calls.{Calls, effect_on, run_calls}
use blockchain_db.Commit.Loop.{AllOpened}
use blockchain_db.Commit.Planned.{plan, bc_commit-plan}
use blockchain_db.Commit.Effects.{effect_on-plan}

abbrev pub start : Contents → Pending
start c = record { batch = []; base = c }

overlaid-emplace :
    (batch : Batch) (k v : Bytes) (c : Contents)
    → find k batch ≡ none
    → overlaid (emplace k v batch) c ≡ updated (overlaid batch c) k (some v)
overlaid-emplace batch k v c fresh = fun_ext (λ j.
    rw find-emplace
      (elim (Bool-cases (same k j)) [ inl e ↦ rw (e, fresh) refl | inr e ↦ rw e refl ]))

-- With no key written twice, to defer a statement is to execute it.
defer-change :
    (type : StatementType) (s : Statement) (p : Pending)
    → Fresh type s p.batch
    → overlaid (defer type s p).batch (defer type s p).base
      ≡ change type s (overlaid p.batch p.base)
defer-change write s p fresh = overlaid-emplace p.batch s.key s.value p.base fresh
defer-change remove s p fresh = fun_ext (λ j. rw find-nil)

batch-defer :
    (type : StatementType) (s : Statement) (p : Pending)
    → (defer type s p).batch ≡ fresh_batch type s p.batch
batch-defer write s p = refl
batch-defer remove s p = refl

first_writes-sequential :
    (t : Text) (ss : List Statement) (p : Pending)
    → WritesOnce t ss p.batch
    → first_writes t ss p ≡ sequential t ss (overlaid p.batch p.base)
unfolding first_writes sequential
first_writes-sequential t [] p once = refl
first_writes-sequential t (s ∷ ss) p (fresh, once) = elim (Bool-cases (same s.tablename t)) [
  | inl e ↦ rw e (
      first_writes-sequential t ss (defer s.type s p) (rw batch-defer (rw e at once))
      ∙ ap (sequential t ss) (defer-change s.type s p (fresh e)))
  | inr e ↦ rw e (first_writes-sequential t ss p (rw e at once))
]

no_batch : (t : Text) → or_empty (find {K = Text} t []) ≡ []
no_batch t = rw find-nil

module _ (B : BcAdapter) where
  -- A commit with no transaction.
  pub nothing_due :
      (thd : Thd) (commit_trx : Bool) (ads : Adapters B)
      → thd.ha_ptr ≡ none
      → bc_commit B thd commit_trx ads ≡ ok (0, thd, ads)
  unfolding bc_commit
  nothing_due thd commit_trx ads empty = elim (Bool-cases (not commit_trx && thd.in_transaction)) [
    | inl e ↦ rw e refl
    | inr e ↦ simp (e, empty)
  ]

  -- What makes a commit go through: it is no statement commit inside a transaction, there is a
  -- transaction, its tables have the server's names and their adapters are open.
  pub record IsReady (thd : Thd) (commit_trx : Bool) (txn : Transaction) (ads : Adapters B)
      : Type 0 where
    pub due : (not commit_trx && thd.in_transaction) ≡ false
    pub here : thd.ha_ptr ≡ some txn
    pub named : All (λ s. 2 ≤ length s.tablename) txn.statements
    pub opened : AllOpened B txn.statements ads

  -- For any adapters, and a commit that is due with every table open: there are calls of the adapters
  -- such that the commit runs them, and then answers 0 and drops the transaction whatever status codes
  -- they gave. A table that takes these calls then holds what it held with the statements executed in
  -- order, except that of the writes to one key since the table's last removal the first counts.
  pub bc_commit-first_writes :
      (thd : Thd) (commit_trx : Bool) (txn : Transaction) (ads : Adapters B)
      → IsReady thd commit_trx txn ads
      → (calls : Calls) × (bc_commit B thd commit_trx ads
          ≡ (run_calls B calls ads >>= λ ads'. ok (0, record thd { ha_ptr = none }, ads')))
        × ((t : Text) (c : Contents)
            → effect_on t calls c ≡ first_writes t txn.statements (start c))
  bc_commit-first_writes thd commit_trx txn ads ready = (
    plan txn.statements [],
    bc_commit-plan B thd commit_trx txn ads ready.due ready.here ready.named ready.opened,
    λ t c.
        effect_on-plan t txn.statements [] c tt
        ∙ ap (λ b. first_writes t txn.statements (record { batch = b; base = c })) (no_batch t),
  )

  -- For any adapters, and a commit that is due with every table open, of a transaction that writes no
  -- key of a table twice unless it removes from the table in between: there are calls of the adapters
  -- such that the commit runs them, and then answers 0 and drops the transaction. A table that takes
  -- these calls then holds what it held with its statements executed one by one in their order.
  pub bc_commit-sequential :
      (thd : Thd) (commit_trx : Bool) (txn : Transaction) (ads : Adapters B)
      → IsReady thd commit_trx txn ads
      → ((t : Text) → WritesOnce t txn.statements [])
      → (calls : Calls) × (bc_commit B thd commit_trx ads
          ≡ (run_calls B calls ads >>= λ ads'. ok (0, record thd { ha_ptr = none }, ads')))
        × ((t : Text) (c : Contents) → effect_on t calls c ≡ sequential t txn.statements c)
  bc_commit-sequential thd commit_trx txn ads ready once =
      let (calls, run, meant) = bc_commit-first_writes thd commit_trx txn ads ready in
      (
        calls,
        run,
        λ t c.
            meant t c
            ∙ first_writes-sequential t txn.statements (start c) (once t)
            ∙ ap (sequential t txn.statements) (fun_ext (λ j. rw find-nil)),
      )
