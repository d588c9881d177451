-- ===== src/Lock/Copies.antt =====
-- The copy that `external_lock` puts into a transaction, and the transaction that it counts.
use blockchain_db.Prelude.{
  ◌≡◌, refl, sym, ap, ◌∙◌, true, false, Option, none, some, List, [], ◌∷◌, arith, Bool-cases, inl,
  inr, All,
}
use mathlib.Core.Path.{fun_ext}
use mathlib.Core.Option.{some-injective}
use blockchain_db.Prelude.Order.{same, same_iff}
use blockchain_db.Bytes.{Bytes}
use blockchain_db.Bytes.Order.{bytes_ord}
use blockchain_db.Text.{Text}
use blockchain_db.Text.Order.{text_ord}
use blockchain_db.Map.{Map, find, contains, emplace}
use blockchain_db.Map.Lookup.{or_else, find-emplace, find-nil}
use blockchain_db.Transaction.{Statement, Transaction, TableMap, add_table}
use blockchain_db.Adapter.{Batch, Contents}
use blockchain_db.Commit.Meaning.{sequential}
use blockchain_db.Rows.Coherent.{Snapshot, IsCoherent, rows_of}
use blockchain_db.Rows.Invariant.{SlotIsCoherent}
use blockchain_db.Lock.{copy_entries, counted}

pub find-copy_entries :
    (rows : Batch) (copy : TableMap) (j : Bytes)
    → find j (copy_entries rows copy) ≡ or_else (find j copy) (find j rows)
unfolding copy_entries find
find-copy_entries [] copy j = ground arith
find-copy_entries ((k, v) ∷ rows) copy j =
    find-copy_entries rows (emplace k v copy) j
    ∙ ground (arith, find-emplace k j v copy, same_iff k j)

pub rows_of-copy_entries : (rows : Batch) → rows_of (copy_entries rows []) ≡ rows_of rows
rows_of-copy_entries rows = fun_ext (λ j. find-copy_entries rows [] j ∙ rw find-nil refl)

-- Statements say nothing of a table with no copy.
pub sequential_unknown :
    (t : Text) (cache : Map Text TableMap) (ss : List Statement) (c : Contents)
    → All (λ s. contains s.tablename cache ≡ true) ss
    → find t cache ≡ none
    → sequential t ss c ≡ c
unfolding sequential
sequential_unknown t cache [] c known absent = refl
sequential_unknown t cache (s ∷ ss) c (here, known) absent =
    elim (Bool-cases (same s.tablename t)) [
      | inl e ↦ absurd (missing (rw ((same_iff s.tablename t).0 e, absent) at here))
      | inr e ↦ rw e (sequential_unknown t cache ss c known absent)
    ]
  where
    missing : false ≡ true → ⊥
    missing h = cc

known-emplace :
    (t : Text) (m : TableMap) (cache : Map Text TableMap) (ss : List Statement)
    → All (λ s. contains s.tablename cache ≡ true) ss
    → All (λ s. contains s.tablename (emplace t m cache) ≡ true) ss
known-emplace t m cache [] h = tt
known-emplace t m cache (s ∷ ss) (h, hs) =
    (rw find-emplace (ground (arith, same_iff t s.tablename)), known-emplace t m cache ss hs)

module _ (snapshot : Snapshot) where
  pub counted-IsCoherent :
      (slot : Option Transaction)
      → SlotIsCoherent snapshot slot
      → IsCoherent snapshot (counted slot)
  unfolding counted
  counted-IsCoherent none h = record {
    cached = λ t m found. absurd (nothing t m found);
    known = tt;
    named = tt;
  }
    where
      nothing : (t : Text) (m : TableMap) → find t [] ≡ some m → ⊥
      nothing t m e = cc (find-nil {V = TableMap} t)
  counted-IsCoherent (some txn) h = record { cached = h.cached; known = h.known; named = h.named }

  pub add_table-IsCoherent :
      (name : Text) (m : TableMap) (txn : Transaction)
      → IsCoherent snapshot txn
      → find name txn.table_cache ≡ none
      → rows_of m ≡ snapshot name
      → IsCoherent snapshot (add_table name m txn).1
  unfolding add_table
  add_table-IsCoherent name m txn coherent absent read = record {
    cached = λ t mm found. elim (Bool-cases (same name t)) [
      | inl e ↦
          let seen : some m ≡ some mm = sym (rw (find-emplace, e, absent)) ∙ found in
          ap rows_of (sym (some-injective m mm seen))
          ∙ read
          ∙ rw (← (same_iff name t).0 e) (
              sym (
                sequential_unknown name txn.table_cache txn.statements (snapshot name)
                  coherent.known absent))
      | inr e ↦ coherent.cached t mm (sym (rw (find-emplace, e)) ∙ found)
    ];
    known = known-emplace name m txn.table_cache txn.statements coherent.known;
    named = coherent.named;
  }
