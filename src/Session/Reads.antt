-- ===== src/Session/Reads.antt =====
-- What a transaction has read, by the calls that the server makes from an empty slot on: for any
-- adapters.
use blockchain_db.Prelude.{
  ◌≡◌, ◌≢◌, refl, sym, ◌∙◌, true, false, Option, none, some, [], Bool-cases, inl, inr, ◌⊎◌,
  if◌then◌else◌, Ensures-eq_ok,
}
use blockchain_db.Prelude.Order.{same, same_iff, same_refl}
use blockchain_db.Bytes.{Bytes, size}
use blockchain_db.Bytes.Order.{bytes_ord}
use blockchain_db.Text.{Text}
use blockchain_db.Text.Order.{text_ord}
use blockchain_db.Map.{find, contains}
use blockchain_db.Map.Lookup.{find-emplace, find-nil}
use blockchain_db.Transaction.{Transaction, TableMap, add_table}
use blockchain_db.Adapter.{BcAdapter, Contents}
use blockchain_db.Commit.{Thd, Adapters}
use blockchain_db.Table.{Buffer, full_table_name}
use blockchain_db.Rows.Coherent.{Snapshot, IsCoherent}
use blockchain_db.Rows.Invariant.{
  Slot, SlotIsCoherent, HasOnly, RowStep-IsCoherent, RowStep-HasOnly,
}
use blockchain_db.Lock.{counted, external_lock}
use blockchain_db.Lock.Copies.{counted-IsCoherent, add_table-IsCoherent}
use blockchain_db.Lock.Reads.{IsAnswer, Locked, external_lock-Locked}
use blockchain_db.Session.{Step, row, locked, Reach, stop, next}

module _ (B : BcAdapter) (sha256 : Buffer → Bytes)
    (digest : (d : Buffer) → size (sha256 d) ≢ 0) where
  abbrev State : Type 0
  State = Thd × Adapters B

  -- On the way from one state to another the table was read as holding these contents.
  pub record WasRead (s u : State) (t : Text) (c : Contents) : Type 0 where
    pub at : State
    pub before : Reach B sha256 s at
    pub after : Reach B sha256 at u
    pub answer : IsAnswer B t at.1 c

  -- The transaction is coherent with a snapshot, of which the tables with a copy were read.
  pub record IsSynced (s u : State) : Type 0 where
    pub snapshot : Snapshot
    pub slot : SlotIsCoherent snapshot u.0.ha_ptr
    pub reads : Slot (HasOnly (λ t. WasRead s u t (snapshot t))) u.0.ha_ptr

  WasRead-next :
      (s u v : State) (t : Text) (c : Contents)
      → Step B sha256 u v
      → WasRead s u t c
      → WasRead s v t c
  WasRead-next s u v t c step r = record {
    at = r.at;
    before = r.before;
    after = next r.after step;
    answer = r.answer;
  }

  Slot-map :
      (K L : Transaction → Type 0) (slot : Option Transaction)
      → ((txn : Transaction) → K txn → L txn)
      → Slot K slot
      → Slot L slot
  Slot-map K L none f h = tt
  Slot-map K L (some txn) f h = f txn h

  not_in_nil : (t : Text) → contains {V = TableMap} t [] ≡ true → ⊥
  not_in_nil t h = missing (sym (rw find-nil refl) ∙ h)
    where
      missing : false ≡ true → ⊥
      missing e = cc

  counted-HasOnly :
      (named : Text → Type 0) (slot : Option Transaction)
      → Slot (HasOnly named) slot
      → HasOnly named (counted slot)
  unfolding counted
  counted-HasOnly named none only t h = absurd (not_in_nil t h)
  counted-HasOnly named (some txn) only t h = only t h

  -- The snapshot once a table has been read.
  abbrev noted : Text → Contents → Snapshot → Snapshot
  noted name c snapshot = λ t. if same name t then c else snapshot t

  noted-IsCoherent :
      (name : Text) (c : Contents) (snapshot : Snapshot) (txn : Transaction)
      → find name txn.table_cache ≡ none
      → IsCoherent snapshot txn
      → IsCoherent (noted name c snapshot) txn
  noted-IsCoherent name c snapshot txn absent coherent = record {
    cached = λ t m found. elim (Bool-cases (same name t)) [
      | inl e ↦ absurd (nothing m (sym absent ∙ rw ((same_iff name t).0 e) found))
      | inr e ↦ rw e (coherent.cached t m found)
    ];
    known = coherent.known;
    named = coherent.named;
  }
    where
      nothing : (m : TableMap) → none ≡ some m → ⊥
      nothing m e = cc

  add_table-HasOnly :
      (named : Text → Type 0) (name : Text) (m : TableMap) (txn : Transaction)
      → named name
      → HasOnly named txn
      → HasOnly named (add_table name m txn).1
  unfolding add_table
  add_table-HasOnly named name m txn here only t h = elim (Bool-cases (same name t)) [
    | inl e ↦ rw (← (same_iff name t).0 e) here
    | inr e ↦ only t (rw (find-emplace, e) at h)
  ]

  as_noted :
      (s v : State) (name : Text) (c : Contents) (snapshot : Snapshot)
      → WasRead s v name c
      → (t : Text) → (same name t ≡ true) ⊎ WasRead s v t (snapshot t)
      → WasRead s v t (noted name c snapshot t)
  as_noted s v name c snapshot read t (inl e) = rw (e, ← (same_iff name t).0 e) read
  as_noted s v name c snapshot read t (inr old) = elim (Bool-cases (same name t)) [
    | inl e ↦ rw (e, ← (same_iff name t).0 e) read
    | inr e ↦ rw e old
  ]

  Slot-along :
      (K : Transaction → Type 0) (slot kept : Option Transaction)
      → slot ≡ kept
      → Slot K kept
      → Slot K slot
  Slot-along K slot kept e h = rw e h

  locked-IsSynced :
      (s u v : State) (name : Text)
      → Reach B sha256 s u
      → Step B sha256 u v
      → Locked B u.0 name u.1 v.0.ha_ptr
      → IsSynced s u
      → IsSynced s v
  locked-IsSynced s u v name steps step (inl kept) synced = record {
    snapshot = synced.snapshot;
    slot = rw kept synced.slot;
    reads = Slot-along _ v.0.ha_ptr u.0.ha_ptr kept (
        Slot-map _ _ u.0.ha_ptr
          (λ txn only t h. WasRead-next s u v t (synced.snapshot t) step (only t h)) synced.reads);
  }
  locked-IsSynced s u v name steps step (inr (inl now)) synced = record {
    snapshot = synced.snapshot;
    slot = rw now (counted-IsCoherent synced.snapshot u.0.ha_ptr synced.slot);
    reads = Slot-along _ v.0.ha_ptr (some (counted u.0.ha_ptr)) now (λ t h.
        WasRead-next s u v t (synced.snapshot t) step
          (counted-HasOnly _ u.0.ha_ptr synced.reads t h));
  }
  locked-IsSynced s u v name steps step (inr (inr new)) synced =
      let txn = counted u.0.ha_ptr in
      let snapshot = noted name new.held synced.snapshot in
      let read : WasRead s v name new.held = record {
        at = u;
        before = steps;
        after = next stop step;
        answer = new.answer;
      } in
      let old : HasOnly (λ t. WasRead s v t (synced.snapshot t)) txn = λ t h.
        WasRead-next s u v t (synced.snapshot t) step
          (counted-HasOnly _ u.0.ha_ptr synced.reads t h) in
      let coherent =
        noted-IsCoherent name new.held synced.snapshot txn new.absent
          (counted-IsCoherent synced.snapshot u.0.ha_ptr synced.slot) in
      record {
        snapshot = snapshot;
        slot = rw new.entered (
            add_table-IsCoherent snapshot name new.copy txn coherent new.absent
              (new.copied ∙ rw (same_refl name) refl));
        reads = Slot-along _ v.0.ha_ptr (some (add_table name new.copy txn).1) new.entered (
            add_table-HasOnly (λ t. WasRead s v t (snapshot t)) name new.copy txn
              (as_noted s v name new.held synced.snapshot read name (inl (same_refl name)))
              (λ t h. as_noted s v name new.held synced.snapshot read t (inr (old t h))));
      }

  Step-IsSynced :
      (s u v : State) → Reach B sha256 s u → Step B sha256 u v → IsSynced s u → IsSynced s v
  Step-IsSynced s (thd, ads) v steps (row step) synced = record {
    snapshot = synced.snapshot;
    slot = RowStep-IsCoherent sha256 digest synced.snapshot step synced.slot;
    reads = RowStep-HasOnly sha256 digest _ step (
        Slot-map _ _ thd.ha_ptr
          (λ txn only t h. WasRead-next s (thd, ads) v t (synced.snapshot t) (row step) (only t h))
          synced.reads);
  }
  Step-IsSynced s (thd, ads) v steps (locked lock_type table status run) synced =
      locked-IsSynced s (thd, ads) v (full_table_name table) steps
        (locked lock_type table status run)
        (Ensures-eq_ok (λ q. Locked B thd (full_table_name table) ads q.1.ha_ptr)
          (external_lock B thd lock_type table ads) (external_lock-Locked B thd lock_type table ads)
          run)
        synced

  Slot-empty : (K : Transaction → Type 0) (slot : Option Transaction) → slot ≡ none → Slot K slot
  Slot-empty K slot e = rw e tt

  started : (s : State) → s.0.ha_ptr ≡ none → IsSynced s s
  started s empty = record {
    snapshot = λ t j. none;
    slot = rw empty tt;
    reads = Slot-empty _ s.0.ha_ptr empty;
  }

  -- For any adapters, and any row operations and locks from an empty slot on, whatever they answer: there
  -- are contents for each table such that every copy of a table is these contents with the
  -- transaction's statements executed on them in order, and for each table with a copy these contents
  -- are what one of the locks read, the rows that the table's adapter answered or nothing if the table
  -- has no adapter.
  pub Reach-IsSynced : (s u : State) → s.0.ha_ptr ≡ none → Reach B sha256 s u → IsSynced s u
  Reach-IsSynced s u empty stop = started s empty
  Reach-IsSynced s u empty (next {m = m} steps step) =
      Step-IsSynced s m u steps step (Reach-IsSynced s m empty steps)
