-- ===== src/Lock/Branches.antt =====
-- What `external_lock` does with each answer of `get_all`.
use blockchain_db.Prelude.{
  ℕ, zero, suc, ◌≡◌, ◌≢◌, refl, ◌∙◌, false, Option, none, some, [], ok, inl, inr, ◌⊎◌, ℤ, pos,
  negsuc, ◌==◌, ==_iff, Bool-cases,
}
use blockchain_db.Prelude.Order.{same_refl}
use blockchain_db.Bytes.{Bytes}
use blockchain_db.Bytes.Order.{bytes_ord}
use blockchain_db.Text.{Text}
use blockchain_db.Text.Order.{text_ord}
use blockchain_db.Map.{find, assign}
use blockchain_db.Map.Lookup.{find-assign, find-emplace, find-nil}
use blockchain_db.Transaction.{Transaction, TableMap, add_table}
use blockchain_db.Adapter.{BcAdapter, Batch}
use blockchain_db.Commit.{Thd, Adapters}
use blockchain_db.Table.{Table, full_table_name}
use blockchain_db.Rows.{Status, success, failed}
use blockchain_db.Lock.{
  f_unlck, copy_entries, is_minus_one, counted, enter, read_table, external_lock,
}
use blockchain_db.Lock.Copies.{find-copy_entries}

pub minus_one-cases :
    (code : ℤ) → (code ≡ negsuc 0) ⊎ ((code ≢ negsuc 0) × (is_minus_one code ≡ false))
minus_one-cases (pos n) = inr (λ h. cc, refl)
minus_one-cases (negsuc zero) = inl refl
minus_one-cases (negsuc (suc n)) = inr (λ h. cc, refl)

not_unlocked : (lock_type : ℕ) → lock_type ≢ f_unlck → (lock_type == f_unlck) ≡ false
not_unlocked lock_type locks = elim (Bool-cases (lock_type == f_unlck)) [
  | inl e ↦ absurd (locks ((==_iff lock_type f_unlck).0 e))
  | inr e ↦ e
]

-- A table that has entered a transaction: its copy is what has been read.
pub record HasRows (name : Text) (rows : Batch) (slot : Option Transaction) : Type 0 where
  pub txn : Transaction
  pub copy : TableMap
  pub here : slot ≡ some txn
  pub found : find name txn.table_cache ≡ some copy
  pub shows : (j : Bytes) → find j copy ≡ find j rows

enter-HasRows :
    (thd : Thd) (name : Text) (rows : Batch) (txn : Transaction)
    → find name txn.table_cache ≡ none
    → HasRows name rows (enter thd name (copy_entries rows []) txn).ha_ptr
unfolding enter add_table
enter-HasRows thd name rows txn absent = record {
  txn = (add_table name (copy_entries rows []) txn).1;
  copy = copy_entries rows [];
  here = refl;
  found = rw (find-emplace, same_refl name, absent) refl;
  shows = λ j. find-copy_entries rows [] j ∙ rw find-nil refl;
}

module _ (B : BcAdapter) where
  -- A lock, and no unlock, of a table with an adapter and with no copy in the transaction so far, for
  -- any answer that `get_all` returns. The status code -1 makes the lock fail, with no copy and the
  -- transaction but for its count as it was; any other code, an error or not, lets it succeed with a copy
  -- of the rows. The adapter is in both cases the one after the call.
  pub external_lock-branches :
      (thd : Thd) (lock_type : ℕ) (table : Table) (ads : Adapters B) (a a' : B.State) (code : ℤ)
      (rows : Batch)
      → lock_type ≢ f_unlck
      → find (full_table_name table) (counted thd.ha_ptr).table_cache ≡ none
      → find (full_table_name table) ads ≡ some a
      → B.get_all a ≡ ok (code, rows, a')
      → (status : Status) × (thd' : Thd) × (ads' : Adapters B) × (external_lock B thd lock_type
            table ads
          ≡ ok (status, thd', ads'))
        × (find (full_table_name table) ads' ≡ some a')
        × (((code ≡ negsuc 0) × (status ≡ failed) × (thd'.ha_ptr ≡ some (counted thd.ha_ptr)))
            ⊎ ((code ≢ negsuc 0)
                × (status ≡ success)
                × HasRows (full_table_name table) rows thd'.ha_ptr))
  unfolding external_lock read_table
  external_lock-branches thd lock_type table ads a a' code rows locks absent open_adapter run =
      let name = full_table_name table in
      let txn = counted thd.ha_ptr in
      let locked = not_unlocked lock_type locks in
      let next : find name (assign name a' ads) ≡ some a' = rw (find-assign, same_refl name) refl in
      elim (minus_one-cases code) [
        | inl e ↦ (
          failed,
          record thd { ha_ptr = some txn },
          assign name a' ads,
          rw (locked, absent, open_adapter, run, e) refl,
          next,
          inl (e, refl, refl),
        )
        | inr (other, e) ↦ (
          success,
          enter thd name (copy_entries rows []) txn,
          assign name a' ads,
          rw (locked, absent, open_adapter, run, e) refl,
          next,
          inr (other, refl, enter-HasRows thd name rows txn absent),
        )
      ]
