-- ===== src/Session/Ends.antt =====
-- Whole transactions: from a connection with no transaction, through any calls, to the commit.
use blockchain_db.Prelude.{
  ◌≡◌, ◌≢◌, refl, sym, ◌∙◌, Bool, false, not, ◌&&◌, Option, none, some, [], ok, ◌>>=◌,
}
use blockchain_db.Bytes.{Bytes, size}
use blockchain_db.Bytes.Order.{bytes_ord}
use blockchain_db.Text.{Text}
use blockchain_db.Text.Order.{text_ord}
use blockchain_db.Map.{find}
use blockchain_db.Transaction.{Transaction, TableMap}
use blockchain_db.Adapter.{BcAdapter, Contents}
use blockchain_db.Commit.{Thd, Adapters, bc_commit}
use blockchain_db.Commit.Meaning.{sequential, WritesOnce}
use blockchain_db.Commit.Calls.{Calls, effect_on, run_calls}
use blockchain_db.Commit.Loop.{AllOpened}
use blockchain_db.Commit.Correct.{bc_commit-sequential}
use blockchain_db.Table.{Buffer}
use blockchain_db.Rows.Coherent.{Snapshot, IsCoherent, rows_of}
use blockchain_db.Rows.Invariant.{Slot, SlotIsCoherent, HasOnly}
use blockchain_db.Lock.Copies.{sequential_unknown}
use blockchain_db.Session.Reads.{WasRead, IsSynced, Reach-IsSynced}
use blockchain_db.Session.{Reach}

Slot-here :
    (K : Transaction → Type 0) (slot : Option Transaction) (txn : Transaction)
    → slot ≡ some txn
    → Slot K slot
    → K txn
Slot-here K slot txn here h = rw here at h

IsCoherent-slot :
    (snapshot : Snapshot) (slot : Option Transaction) (txn : Transaction)
    → slot ≡ some txn
    → SlotIsCoherent snapshot slot
    → IsCoherent snapshot txn
IsCoherent-slot snapshot slot txn here h = rw here at h

module _ (B : BcAdapter) where
  -- A transaction that began with an empty slot, at its commit: the commit is due, the adapters of
  -- the tables that it changed are open, and it writes no key twice without a removal in between.
  pub record IsDue (thd : Thd) (commit_trx : Bool) (txn : Transaction) (ads : Adapters B)
      : Type 0 where
    pub due : (not commit_trx && thd.in_transaction) ≡ false
    pub here : thd.ha_ptr ≡ some txn
    pub opened : AllOpened B txn.statements ads
    pub once : (t : Text) → WritesOnce t txn.statements []

module _ (B : BcAdapter) (sha256 : Buffer → Bytes)
    (digest : (d : Buffer) → size (sha256 d) ≢ 0) where
  -- What a commit does to a table that the transaction has a copy of: the table was read as holding
  -- some contents, and if it still holds them when it takes the calls, it then shows the copy.
  pub record IsCommitted (s u : Thd × Adapters B) (calls : Calls) (t : Text) (copy : TableMap)
      : Type 0 where
    pub held : Contents
    pub read : WasRead B sha256 digest s u t held
    pub shown : effect_on t calls held ≡ rows_of copy

  committed :
      (s u : Thd × Adapters B) (txn : Transaction) (calls : Calls) (t : Text) (copy : TableMap)
      → u.0.ha_ptr ≡ some txn
      → IsSynced B sha256 digest s u
      → ((t : Text) (c : Contents) → effect_on t calls c ≡ sequential t txn.statements c)
      → find t txn.table_cache ≡ some copy
      → IsCommitted s u calls t copy
  committed s u txn calls t copy here synced meant found = record {
    held = synced.snapshot t;
    read =
        Slot-here (HasOnly (λ t. WasRead B sha256 digest s u t (synced.snapshot t))) u.0.ha_ptr txn
          here synced.reads t (rw found refl);
    shown =
        meant t (synced.snapshot t)
        ∙ sym
            ((IsCoherent-slot synced.snapshot u.0.ha_ptr txn here synced.slot).cached t copy found);
  }

  -- For any adapters, a transaction from an empty slot through any row operations and locks to a commit
  -- that is due, with the adapters of the changed tables open and no key written twice without a
  -- removal in between: there are calls of the adapters such that the commit runs them, and then
  -- answers 0 and empties the slot. A table with a copy was read by one of the locks, and if it takes
  -- these calls while it holds what was read, it holds exactly what the copy showed; a table without
  -- a copy takes no call that changes it.
  pub transaction_commits :
      (s u : Thd × Adapters B) (commit_trx : Bool) (txn : Transaction)
      → s.0.ha_ptr ≡ none
      → Reach B sha256 s u
      → IsDue B u.0 commit_trx txn u.1
      → (calls : Calls) × (bc_commit B u.0 commit_trx u.1
          ≡ (run_calls B calls u.1 >>= λ ads'. ok (0, record u.0 { ha_ptr = none }, ads')))
        × ((t : Text) (copy : TableMap)
            → find t txn.table_cache ≡ some copy
            → IsCommitted s u calls t copy)
        × ((t : Text) (c : Contents) → find t txn.table_cache ≡ none → effect_on t calls c ≡ c)
  transaction_commits s u commit_trx txn empty steps end =
      let synced = Reach-IsSynced B sha256 digest s u empty steps in
      let coherent = IsCoherent-slot synced.snapshot u.0.ha_ptr txn end.here synced.slot in
      let (calls, run, meant) =
        bc_commit-sequential B u.0 commit_trx txn u.1
          (record { due = end.due; here = end.here; named = coherent.named; opened = end.opened })
          end.once in
      (
        calls,
        run,
        λ t copy found. committed s u txn calls t copy end.here synced meant found,
        λ t c absent.
            meant t c ∙ sequential_unknown t txn.table_cache txn.statements c coherent.known absent,
      )
