-- ===== src/Rows/Invariant.antt =====
-- Every row operation keeps the copy of the table coherent with the statements.
use blockchain_db.Prelude.{
  ◌≡◌, ◌≢◌, refl, Bool, true, false, Option, none, some, arith, length, ◌≤◌, if◌then◌else◌, Result,
  ok, Bool-cases, Option-cases, inl, inr, Ensures, Ensures-bind, Ensures-eq_ok,
}
use blockchain_db.Bytes.{Bytes, size}
use blockchain_db.Bytes.Order.{bytes_ord}
use blockchain_db.Prelude.Order.{same, same_iff}
use blockchain_db.Text.{Text}
use blockchain_db.Text.Order.{text_ord}
use blockchain_db.Map.Lookup.{find-assign}
use blockchain_db.Commit.Meaning.{change}
use blockchain_db.Map.{find, assign, erase, contains}
use blockchain_db.Transaction.{Statement, Transaction, TableMap}
use blockchain_db.Table.{Table, full_table_name, Buffer, memcpy}
use blockchain_db.Rows.{
  Status, row_value, get_primary_key, write_row, delete_row, move_row, overwrite_row, update_row,
}
use blockchain_db.Rows.Coherent.{
  Snapshot, IsCoherent, recorded, recorded-IsCoherent, write_of, remove_of, add_write_lem,
  add_remove_lem, rows_of, rows_of-assign, rows_of-erase,
}
use blockchain_db.Rows.Branches.{write_row-branches, delete_row_lem, overwrite_row_lem, key_long}

-- The slot of the connection is empty or holds a transaction with a property.
abbrev pub Slot : (Transaction → Type 0) → Option Transaction → Type 0
Slot K none = Unit
Slot K (some txn) = K txn

-- The slot of the connection is empty or holds a coherent transaction.
abbrev pub SlotIsCoherent : Snapshot → Option Transaction → Type 0
SlotIsCoherent snapshot none = Unit
SlotIsCoherent snapshot (some txn) = IsCoherent snapshot txn

-- The tables with a copy are among those named.
abbrev pub HasOnly : (Text → Type 0) → Transaction → Type 0
HasOnly named txn = (t : Text) → contains t txn.table_cache ≡ true → named t

-- The calls of row operations in one transaction, as steps from slot to slot.
pub data RowStep (sha256 : Buffer → Bytes) : Option Transaction → Option Transaction → Type 0 where
  written :
      {before after : Option Transaction} (table : Table) (buf : Buffer) (status : Status)
      → write_row sha256 table buf before ≡ ok (status, after)
      → RowStep sha256 before after
  deleted :
      {before after : Option Transaction} (table : Table) (buf : Buffer) (status : Status)
      → delete_row sha256 table buf before ≡ ok (status, after)
      → RowStep sha256 before after
  updated :
      {before after : Option Transaction} (table : Table) (old_data new_data : Buffer)
      (status : Status) (buf : Buffer)
      → update_row sha256 table old_data new_data before ≡ ok (status, buf, after)
      → RowStep sha256 before after

module _ (sha256 : Buffer → Bytes) (digest : (d : Buffer) → size (sha256 d) ≢ 0)
    (K : Transaction → Type 0)
    (closed : (txn : Transaction) (s : Statement) (m m' : TableMap)
      → K txn
      → 2 ≤ length s.tablename
      → find s.tablename txn.table_cache ≡ some m
      → rows_of m' ≡ change s.type s (rows_of m)
      → K (recorded txn s m')) where
  recorded_write :
      (table : Table) (txn : Transaction) (m : TableMap) (k v : Bytes)
      → K txn
      → find (full_table_name table) txn.table_cache ≡ some m
      → K (recorded txn (write_of (full_table_name table) k v) (assign k v m))
  recorded_write table txn m k v coherent here =
      closed txn (write_of (full_table_name table) k v) m (assign k v m) coherent (omega arith) here
        (rows_of-assign k v m)

  recorded_remove :
      (table : Table) (txn : Transaction) (m : TableMap) (k : Bytes)
      → K txn
      → find (full_table_name table) txn.table_cache ≡ some m
      → K (recorded txn (remove_of (full_table_name table) k) (erase k m))
  recorded_remove table txn m k coherent here =
      closed txn (remove_of (full_table_name table) k) m (erase k m) coherent (omega arith) here
        (rows_of-erase k m)

  abbrev Kept : Status × Option Transaction → Type 0
  Kept (status, slot) = Slot K slot

  write_known :
      (table : Table) (buf : Buffer) (txn : Transaction) (m : TableMap) {key : Bytes}
      {value : Buffer}
      → get_primary_key sha256 table buf ≡ ok key
      → row_value table buf ≡ ok value
      → find (full_table_name table) txn.table_cache ≡ some m
      → K txn
      → Ensures Kept (write_row sha256 table buf (some txn))
  write_known table buf txn m {key} {value} k v here coherent =
      rw (write_row-branches sha256 digest table buf txn k v here)
        (elim (Bool-cases (contains key m)) [
          | inl e ↦ rw e coherent
          | inr e ↦ rw e (recorded_write table txn m key (record { value = value }) coherent here)
        ])

  write_given :
      (table : Table) (buf : Buffer) (slot : Option Transaction) {key : Bytes} {value : Buffer}
      → get_primary_key sha256 table buf ≡ ok key
      → row_value table buf ≡ ok value
      → Slot K slot
      → Ensures Kept (write_row sha256 table buf slot)
  unfolding write_row
  write_given table buf none k v coherent = rw (k, v) tt
  write_given table buf (some txn) k v coherent =
      elim (Option-cases (find (full_table_name table) txn.table_cache)) [
        | inl e ↦ rw (k, v, e) tt
        | inr (m, here) ↦ write_known table buf txn m k v here coherent
      ]

  write_row-Kept :
      (table : Table) (buf : Buffer) (slot : Option Transaction)
      → Slot K slot
      → Ensures Kept (write_row sha256 table buf slot)
  unfolding write_row
  write_row-Kept table buf slot coherent =
      Ensures-bind Kept (get_primary_key sha256 table buf) _ λ key k.
        Ensures-bind Kept (row_value table buf) _
          λ value v. rw (k, v) at (write_given table buf slot k v coherent)

  delete_known :
      (table : Table) (buf : Buffer) (txn : Transaction) (m : TableMap) {key : Bytes}
      → get_primary_key sha256 table buf ≡ ok key
      → find (full_table_name table) txn.table_cache ≡ some m
      → K txn
      → Ensures Kept (delete_row sha256 table buf (some txn))
  delete_known table buf txn m {key} k here coherent =
      rw (delete_row_lem sha256 digest table buf txn k here)
        (recorded_remove table txn m key coherent here)

  delete_row-Kept :
      (table : Table) (buf : Buffer) (slot : Option Transaction)
      → Slot K slot
      → Ensures Kept (delete_row sha256 table buf slot)
  unfolding delete_row
  delete_row-Kept table buf none coherent =
      Ensures-bind Kept (get_primary_key sha256 table buf) _ λ key k. tt
  delete_row-Kept table buf (some txn) coherent =
      elim (Option-cases (find (full_table_name table) txn.table_cache)) [
        | inl e ↦ Ensures-bind Kept (get_primary_key sha256 table buf) _ λ key k.
            rw
              (
                add_remove_lem (full_table_name table) key txn refl
                    (key_long sha256 digest table buf k),
                e,
              )
              tt
        | inr (m, here) ↦
            Ensures-bind Kept (get_primary_key sha256 table buf) _
              λ key k. rw k at (delete_known table buf txn m k here coherent)
      ]

  abbrev KeptUpdate : Status × Buffer × Option Transaction → Type 0
  KeptUpdate (status, buf, slot) = Slot K slot

  move_row-Kept :
      (table : Table) (restored new_value : Buffer) (slot : Option Transaction)
      → Slot K slot
      → Ensures KeptUpdate (move_row sha256 table restored new_value slot)
  unfolding move_row
  move_row-Kept table restored new_value slot coherent =
      Ensures-bind KeptUpdate (delete_row sha256 table restored slot) _ λ d deleted.
        Ensures-bind KeptUpdate (memcpy restored table.null_bytes new_value) _ λ again copied.
          Ensures-bind KeptUpdate (write_row sha256 table again d.1) _ λ w written.
            Ensures-eq_ok Kept _
              (write_row-Kept table again d.1
                (Ensures-eq_ok Kept _ (delete_row-Kept table restored slot coherent) deleted))
              written

  overwrite_row-Kept :
      (table : Table) (restored : Buffer) (key value : Bytes) (slot : Option Transaction)
      → size key ≢ 0
      → Slot K slot
      → Ensures KeptUpdate (overwrite_row sha256 table restored key value slot)
  unfolding overwrite_row
  overwrite_row-Kept table restored key value none long coherent = tt
  overwrite_row-Kept table restored key value (some txn) long coherent =
      elim (Option-cases (find (full_table_name table) txn.table_cache)) [
        | inl e ↦ rw (add_write_lem (full_table_name table) key value txn refl long, e) tt
        | inr (m, here) ↦
            rw (overwrite_row_lem sha256 digest table restored key value txn long here)
              (recorded_write table txn m key value coherent here)
      ]

  Ensures-if :
      (b : Bool) (r s : Result (Status × Buffer × Option Transaction))
      → Ensures KeptUpdate r
      → Ensures KeptUpdate s
      → Ensures KeptUpdate (if b then r else s)
  Ensures-if true r s h k = h
  Ensures-if false r s h k = k

  update_row-Kept :
      (table : Table) (old_data new_data : Buffer) (slot : Option Transaction)
      → Slot K slot
      → Ensures KeptUpdate (update_row sha256 table old_data new_data slot)
  unfolding update_row
  update_row-Kept table old_data new_data slot coherent =
      Ensures-bind KeptUpdate (get_primary_key sha256 table new_data) _ λ key_new k.
        Ensures-bind KeptUpdate (row_value table new_data) _ λ new_value v.
          Ensures-bind KeptUpdate (row_value table old_data) _ λ value o.
            Ensures-bind KeptUpdate (memcpy new_data table.null_bytes value) _ λ restored r.
              Ensures-bind KeptUpdate (get_primary_key sha256 table restored) _ λ key_old q.
                Ensures-if _ _ _ (move_row-Kept table restored new_value slot coherent) (
                  overwrite_row-Kept table restored key_new (record { value = new_value }) slot
                    (key_long sha256 digest table new_data k) coherent)

  -- Any row operation that returns keeps what statements with their effects keep.
  pub RowStep-kept :
      {before after : Option Transaction}
      → RowStep sha256 before after
      → Slot K before
      → Slot K after
  RowStep-kept (written table buf status run) coherent =
      Ensures-eq_ok Kept _ (write_row-Kept table buf _ coherent) run
  RowStep-kept (deleted table buf status run) coherent =
      Ensures-eq_ok Kept _ (delete_row-Kept table buf _ coherent) run
  RowStep-kept (updated table old_data new_data status buf run) coherent =
      Ensures-eq_ok KeptUpdate _ (update_row-Kept table old_data new_data _ coherent) run

module _ (sha256 : Buffer → Bytes) (digest : (d : Buffer) → size (sha256 d) ≢ 0) where
  HasOnly-recorded :
      (named : Text → Type 0) (txn : Transaction) (s : Statement) (m m' : TableMap)
      → HasOnly named txn
      → find s.tablename txn.table_cache ≡ some m
      → HasOnly named (recorded txn s m')
  HasOnly-recorded named txn s m m' only here t there = elim (Bool-cases (same s.tablename t)) [
    | inl e ↦ only t (rw (← (same_iff s.tablename t).0 e, here) refl)
    | inr e ↦ only t (rw (find-assign, e) at there)
  ]

  -- A row operation takes no table into the transaction.
  pub RowStep-HasOnly :
      (named : Text → Type 0) {before after : Option Transaction}
      → RowStep sha256 before after
      → Slot (HasOnly named) before
      → Slot (HasOnly named) after
  RowStep-HasOnly named step only =
      RowStep-kept sha256 digest (HasOnly named)
        (λ txn s m m' k long here effect. HasOnly-recorded named txn s m m' k here) step only

module _ (sha256 : Buffer → Bytes) (digest : (d : Buffer) → size (sha256 d) ≢ 0)
    (snapshot : Snapshot) where
  -- Any call of `write_row`, `delete_row` or `update_row` that returns, whatever its rows and its
  -- code, keeps the transaction coherent: each copy is the table as the snapshot has it with the
  -- statements executed on it in order, and the statements name only tables that have a copy.
  pub RowStep-IsCoherent :
      {before after : Option Transaction}
      → RowStep sha256 before after
      → SlotIsCoherent snapshot before
      → SlotIsCoherent snapshot after
  RowStep-IsCoherent {before} {after} step coherent = of_slot after (
      RowStep-kept sha256 digest (IsCoherent snapshot) (recorded-IsCoherent snapshot) step
        (to_slot before coherent))
    where
      to_slot :
          (slot : Option Transaction)
          → SlotIsCoherent snapshot slot
          → Slot (IsCoherent snapshot) slot
      to_slot none h = tt
      to_slot (some txn) h = h

      of_slot :
          (slot : Option Transaction)
          → Slot (IsCoherent snapshot) slot
          → SlotIsCoherent snapshot slot
      of_slot none h = tt
      of_slot (some txn) h = h
