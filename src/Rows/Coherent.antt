-- ===== src/Rows/Coherent.antt =====
-- The copy of a table in a transaction is the table as it was read with the transaction's statements
-- executed on it in order, and every row operation keeps that.
use blockchain_db.Prelude.{
  ◌≡◌, ◌≢◌, refl, sym, ap, ◌∙◌, true, false, none, some, List, [], ◌∷◌, ◌++◌, arith, All,
  All-append, length, ◌≤◌, Bool-cases, inl, inr,
}
use mathlib.Core.Path.{fun_ext, subst}
use mathlib.Core.Option.{some-injective}
use blockchain_db.Prelude.Order.{same, same_iff, same_refl}
use blockchain_db.Bytes.{Bytes, size}
use blockchain_db.Bytes.Order.{bytes_ord}
use blockchain_db.Text.{Text, is_empty}
use blockchain_db.Text.Order.{text_ord}
use blockchain_db.Map.{Map, find, assign, erase, contains}
use blockchain_db.Map.Lookup.{find-assign, find-erase, contains-assign}
use blockchain_db.Transaction.{
  Statement, Transaction, TableMap, write, remove, add_write, add_remove, no_bytes,
}
use blockchain_db.Adapter.{Contents, updated}
use blockchain_db.Commit.Meaning.{change, execute, sequential}

abbrev pub Snapshot : Type 0
Snapshot = Text → Contents

abbrev pub rows_of : TableMap → Contents
rows_of m = λ j. find j m

pub record IsCoherent (snapshot : Snapshot) (txn : Transaction) : Type 0 where
  pub cached :
      (t : Text) (m : TableMap)
      → find t txn.table_cache ≡ some m
      → rows_of m ≡ sequential t txn.statements (snapshot t)
  -- the statements name tables that have a copy, by names of the server's form
  pub known : All (λ s. contains s.tablename txn.table_cache ≡ true) txn.statements
  pub named : All (λ s. 2 ≤ length s.tablename) txn.statements

abbrev pub recorded : Transaction → Statement → TableMap → Transaction
recorded txn s m = record txn {
  statements = txn.statements ++ s ∷ [];
  table_cache = assign s.tablename m txn.table_cache;
}

pub sequential-append :
    (t : Text) (ss : List Statement) (s : Statement) (c : Contents)
    → sequential t (ss ++ s ∷ []) c ≡ execute t s (sequential t ss c)
unfolding sequential
sequential-append t [] s c = refl
sequential-append t (x ∷ ss) s c = sequential-append t ss s (execute t x c)

known-assign :
    (t : Text) (m : TableMap) (cache : Map Text TableMap) (ss : List Statement)
    → All (λ s. contains s.tablename cache ≡ true) ss
    → All (λ s. contains s.tablename (assign t m cache) ≡ true) ss
known-assign t m cache [] h = tt
known-assign t m cache (s ∷ ss) (h, hs) =
    (contains-assign t s.tablename m cache h, known-assign t m cache ss hs)

-- A statement recorded together with its effect on the copy.
pub recorded-IsCoherent :
    (snapshot : Snapshot) (txn : Transaction) (s : Statement) (m m' : TableMap)
    → IsCoherent snapshot txn
    → 2 ≤ length s.tablename
    → find s.tablename txn.table_cache ≡ some m
    → rows_of m' ≡ change s.type s (rows_of m)
    → IsCoherent snapshot (recorded txn s m')
recorded-IsCoherent snapshot txn s m m' coherent long here effect = record {
  cached = λ t mm found. elim (Bool-cases (same s.tablename t)) [
    | inl e ↦
        let seen : some m' ≡ some mm = sym (rw (find-assign, e)) ∙ found in
        let known : rows_of m ≡ sequential t txn.statements (snapshot t) =
          subst (λ x. rows_of m ≡ sequential x txn.statements (snapshot x))
            ((same_iff s.tablename t).0 e) (coherent.cached s.tablename m here) in
        rw (sequential-append, e)
          (ap rows_of (sym (some-injective m' mm seen)) ∙ effect ∙ ap (change s.type s) known)
    | inr e ↦
        let seen : find t txn.table_cache ≡ some mm = sym (rw (find-assign, e)) ∙ found in
        rw (sequential-append, e) (coherent.cached t mm seen)
  ];
  known =
      All-append _ txn.statements (s ∷ [])
        (known-assign s.tablename m' txn.table_cache txn.statements coherent.known)
        (rw (find-assign, same_refl s.tablename) refl, tt);
  named = All-append _ txn.statements (s ∷ []) coherent.named (long, tt);
}

abbrev pub write_of : Text → Bytes → Bytes → Statement
write_of t k v = record { type = write; tablename = t; key = k; value = v }

abbrev pub remove_of : Text → Bytes → Statement
remove_of t k = record { type = remove; tablename = t; key = k; value = no_bytes }

pub add_write_lem :
    (t : Text) (k v : Bytes) (txn : Transaction)
    → is_empty t ≡ false
    → size k ≢ 0
    → add_write t k v txn ≡ (0, record txn { statements = txn.statements ++ write_of t k v ∷ [] })
unfolding add_write
add_write_lem t k v txn named long = rw named (ground arith)

pub add_remove_lem :
    (t : Text) (k : Bytes) (txn : Transaction)
    → is_empty t ≡ false
    → size k ≢ 0
    → add_remove t k txn ≡ (0, record txn { statements = txn.statements ++ remove_of t k ∷ [] })
unfolding add_remove
add_remove_lem t k txn named long = rw named (ground arith)

pub rows_of-assign :
    (k v : Bytes) (m : TableMap) → rows_of (assign k v m) ≡ updated (rows_of m) k (some v)
rows_of-assign k v m = fun_ext (λ j. find-assign k j v m)

pub rows_of-erase : (k : Bytes) (m : TableMap) → rows_of (erase k m) ≡ updated (rows_of m) k none
rows_of-erase k m = fun_ext (λ j. find-erase k j m)
