-- ===== src/Commit/Effects.antt =====
-- What the calls of a commit mean for each table.
use blockchain_db.Prelude.{
  ◌≡◌, refl, sym, ap, ◌∙◌, none, List, [], ◌∷◌, ◌++◌, inl, inr, if◌then◌else◌, Bool-cases,
}
use mathlib.Core.Path.{fun_ext}
use blockchain_db.Prelude.Order.{same, same_iff}
use blockchain_db.Bytes.Order.{bytes_ord}
use blockchain_db.Text.{Text}
use blockchain_db.Text.Order.{text_ord}
use blockchain_db.Map.{find, assign}
use blockchain_db.Map.Lookup.{find-assign, find-nil}
use blockchain_db.Map.Sorted.{IsSorted, find-Above, assign-IsSorted}
use blockchain_db.Transaction.{Statement, StatementType, write, remove}
use blockchain_db.Adapter.{Batch, Contents, overlaid, updated}
use blockchain_db.Commit.Calls.{Call, puts, removes, flush_calls, effect, effect_if, effect_on}
use blockchain_db.Commit.Meaning.{Pending, defer, first_writes}
use blockchain_db.Prelude.{arith}
use blockchain_db.Commit.Planned.{
  Batches, waiting, last_calls, deferred, removal_calls, plan_statement, plan,
}

overlaid-nil : (c : Contents) → overlaid [] c ≡ c
overlaid-nil c = fun_ext (λ j. rw find-nil)

waiting-assign :
    (u t : Text) (batch : Batch) (bs : Batches)
    → waiting t (assign u batch bs) ≡ (if same u t then batch else waiting t bs)
waiting-assign u t batch bs =
    rw find-assign (elim (Bool-cases (same u t)) [ inl e ↦ rw e refl | inr e ↦ rw e refl ])

waiting-cons :
    (u t : Text) (batch : Batch) (bs : Batches)
    → waiting t ((u, batch) ∷ bs) ≡ (if same u t then batch else waiting t bs)
unfolding find
waiting-cons u t batch bs = ground arith

effect-flush_calls :
    (batch : Batch) (c : Contents) → effect (flush_calls batch) c ≡ overlaid batch c
unfolding effect
effect-flush_calls [] c = sym (overlaid-nil c)
effect-flush_calls (e ∷ batch) c = refl

effect-append :
    (first later : List Call) (c : Contents)
    → effect (first ++ later) c ≡ effect later (effect first c)
unfolding effect
effect-append [] later c = refl
effect-append (puts batch ∷ first) later c = effect-append first later (overlaid batch c)
effect-append (removes key ∷ first) later c = effect-append first later (updated c key none)

effect-removal_calls :
    (s : Statement) (bs : Batches) (c : Contents)
    → effect (removal_calls s bs) c ≡ updated (overlaid (waiting s.tablename bs) c) s.key none
unfolding effect
effect-removal_calls s bs c =
    effect-append (flush_calls (waiting s.tablename bs)) (removes s.key ∷ []) c
    ∙ ap (λ d. updated d s.key none) (effect-flush_calls (waiting s.tablename bs) c)

effect_on-last_calls :
    (t : Text) (bs : Batches) (c : Contents)
    → IsSorted bs
    → effect_on t (last_calls bs) c ≡ overlaid (waiting t bs) c
unfolding effect_on last_calls effect
effect_on-last_calls t [] c sorted = rw find-nil (sym (overlaid-nil c))
effect_on-last_calls t ((u, []) ∷ bs) c (above, sorted) =
    effect_on-last_calls t bs c sorted
    ∙ rw waiting-cons (elim (Bool-cases (same u t)) [
      | inl e ↦ rw (e, ← (same_iff u t).0 e, find-Above u bs above) refl
      | inr e ↦ rw e refl
    ])
effect_on-last_calls t ((u, e ∷ batch) ∷ bs) c (above, sorted) =
    effect_on-last_calls t bs (effect_if u t (puts (e ∷ batch) ∷ []) c) sorted
    ∙ rw waiting-cons (elim (Bool-cases (same u t)) [
      | inl h ↦
          rw (h, ← (same_iff u t).0 h, find-Above u bs above)
            (overlaid-nil (overlaid (e ∷ batch) c))
      | inr h ↦ rw h refl
    ])

abbrev pub pending : Text → Batches → Contents → Pending
pending t bs c = record { batch = waiting t bs; base = c }

abbrev defer_as : StatementType → Text → Statement → Pending → Pending
defer_as type t s p = if same s.tablename t then defer type s p else p

pending-write :
    (t : Text) (s : Statement) (bs : Batches) (c : Contents)
    → pending t (deferred s bs) c ≡ defer_as write t s (pending t bs c)
pending-write t s bs c = rw waiting-assign (elim (Bool-cases (same s.tablename t)) [
  | inl e ↦ rw (e, (same_iff s.tablename t).0 e) refl
  | inr e ↦ rw e refl
])

pending-remove :
    (t : Text) (s : Statement) (bs : Batches) (c : Contents)
    → pending t (assign s.tablename [] bs) (effect_if s.tablename t (removal_calls s bs) c)
      ≡ defer_as remove t s (pending t bs c)
pending-remove t s bs c =
    rw (waiting-assign, effect-removal_calls)
      (elim (Bool-cases (same s.tablename t)) [
        | inl e ↦ rw (e, (same_iff s.tablename t).0 e) refl
        | inr e ↦ rw e refl
      ])

abbrev pub AsMeant : Text → List Statement → Type 0
AsMeant t ss =
    (bs : Batches) (c : Contents)
    → IsSorted bs
    → effect_on t (plan ss bs) c ≡ first_writes t ss (pending t bs c)

plan_statement-AsMeant :
    (type : StatementType) (t : Text) (s : Statement) (ss : List Statement) (bs : Batches)
    (c : Contents)
    → IsSorted bs
    → AsMeant t ss
    → effect_on t (plan_statement type s bs (plan ss)) c
      ≡ first_writes t ss (defer_as type t s (pending t bs c))
unfolding effect_on
plan_statement-AsMeant write t s ss bs c sorted later =
    later (deferred s bs) c (assign-IsSorted _ _ bs sorted)
    ∙ ap (first_writes t ss) (pending-write t s bs c)
plan_statement-AsMeant remove t s ss bs c sorted later =
    later (assign s.tablename [] bs) (effect_if s.tablename t (removal_calls s bs) c)
      (assign-IsSorted _ _ bs sorted)
    ∙ ap (first_writes t ss) (pending-remove t s bs c)

pub effect_on-plan : (t : Text) (ss : List Statement) → AsMeant t ss
unfolding plan first_writes
effect_on-plan t [] bs c sorted = effect_on-last_calls t bs c sorted
effect_on-plan t (s ∷ ss) bs c sorted =
    plan_statement-AsMeant s.type t s ss bs c sorted (effect_on-plan t ss)
