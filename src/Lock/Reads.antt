-- ===== src/Lock/Reads.antt =====
-- What `external_lock` leaves in the slot, for any adapter.
use blockchain_db.Prelude.{
  ℕ, ◌≡◌, ◌≢◌, refl, Bool-cases, Option, none, some, [], ok, Result, Ensures, Result-cases,
  Option-cases, inl, inr, ◌⊎◌, ℤ, negsuc, ◌==◌,
}
use blockchain_db.Bytes.Order.{bytes_ord}
use blockchain_db.Text.{Text}
use blockchain_db.Text.Order.{text_ord}
use blockchain_db.Map.{find}
use blockchain_db.Transaction.{Transaction, TableMap, add_table}
use blockchain_db.Adapter.{BcAdapter, Batch, Contents}
use blockchain_db.Commit.{Thd, Adapters}
use blockchain_db.Table.{Table, full_table_name}
use blockchain_db.Rows.{Status}
use blockchain_db.Rows.Coherent.{rows_of}
use blockchain_db.Lock.{f_unlck, copy_entries, counted, enter, read_table, external_lock}
use blockchain_db.Lock.Branches.{minus_one-cases}
use blockchain_db.Lock.Copies.{rows_of-copy_entries}

module _ (B : BcAdapter) where
  -- What a table is read as: nothing without an adapter, or the rows of an answer of `get_all` whose
  -- code is not -1.
  pub data IsAnswer (name : Text) (ads : Adapters B) : Contents → Type 0 where
    no_adapter : find name ads ≡ none → IsAnswer name ads (rows_of [])
    answered :
        (a a' : B.State) (code : ℤ) (rows : Batch)
        → find name ads ≡ some a
        → B.get_all a ≡ ok (code, rows, a')
        → code ≢ negsuc 0
        → IsAnswer name ads (rows_of rows)

  -- A table that enters the transaction: it had no copy, and its copy is what it is read as.
  pub record Entered (thd : Thd) (name : Text) (ads : Adapters B) (slot : Option Transaction)
      : Type 0 where
    pub absent : find name (counted thd.ha_ptr).table_cache ≡ none
    pub copy : TableMap
    pub held : Contents
    pub answer : IsAnswer name ads held
    pub copied : rows_of copy ≡ held
    pub entered : slot ≡ some (add_table name copy (counted thd.ha_ptr)).1

  -- The slot is left, or its transaction is counted, or the table enters it.
  abbrev pub Locked : Thd → Text → Adapters B → Option Transaction → Type 0
  Locked thd name ads slot =
      (slot ≡ thd.ha_ptr) ⊎ ((slot ≡ some (counted thd.ha_ptr)) ⊎ Entered thd name ads slot)

  abbrev pub Outcome : Thd → Text → Adapters B → Result (Status × Thd × Adapters B) → Type 0
  Outcome thd name ads r = Ensures (λ q. Locked thd name ads q.1.ha_ptr) r

  read_table-Locked :
      (thd : Thd) (name : Text) (ads : Adapters B)
      → find name (counted thd.ha_ptr).table_cache ≡ none
      → (open_adapter : Option B.State) → find name ads ≡ open_adapter
      → Outcome thd name ads (read_table B thd name (counted thd.ha_ptr) ads open_adapter)
  unfolding read_table enter
  read_table-Locked thd name ads absent none here =
      (inr (
        inr (record {
          absent = absent;
          copy = [];
          held = rows_of [];
          answer = no_adapter here;
          copied = refl;
          entered = refl;
        })))
  read_table-Locked thd name ads absent (some a) here = elim (Result-cases (B.get_all a)) [
    | inr (f, run) ↦ rw run tt
    | inl ((code, rows, a'), run) ↦ elim (minus_one-cases code) [
      | inl e ↦ rw (run, e) ((inr (inl refl)))
      | inr (other, e) ↦
          rw (run, e)
            ((inr (
              inr (record {
                absent = absent;
                copy = copy_entries rows [];
                held = rows_of rows;
                answer = answered a a' code rows here run other;
                copied = rows_of-copy_entries rows;
                entered = refl;
              }))))
    ]
  ]

  pub external_lock-Locked :
      (thd : Thd) (lock_type : ℕ) (table : Table) (ads : Adapters B)
      → Outcome thd (full_table_name table) ads (external_lock B thd lock_type table ads)
  unfolding external_lock
  external_lock-Locked thd lock_type table ads = elim (Bool-cases (lock_type == f_unlck)) [
    | inl e ↦ rw e ((inl refl))
    | inr e ↦ elim (Option-cases (find (full_table_name table) (counted thd.ha_ptr).table_cache)) [
      | inl absent ↦
          rw (e, absent)
            (read_table-Locked thd (full_table_name table) ads absent
              (find (full_table_name table) ads) refl)
      | inr (m, found) ↦ rw (e, found) ((inr (inl refl)))
    ]
  ]
