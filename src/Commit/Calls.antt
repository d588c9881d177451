-- ===== src/Commit/Calls.antt =====
-- The calls of adapters that a commit makes: how they run, and what they mean for a table that takes
-- them.
use blockchain_db.Prelude.{
  none, some, List, [], ◌∷◌, ◌++◌, if◌then◌else◌, Result, Result-cases, inl, inr, ok, fault,
  undefined, ◌≡◌, refl, ◌>>=◌,
}
use blockchain_db.Prelude.Order.{same}
use blockchain_db.Bytes.{Bytes}
use blockchain_db.Bytes.Order.{bytes_ord}
use blockchain_db.Text.{Text}
use blockchain_db.Text.Order.{text_ord}
use blockchain_db.Map.{find, assign}
use blockchain_db.Adapter.{BcAdapter, Batch, Contents, updated, overlaid}
use blockchain_db.Commit.{Adapters, flush_batch}

pub data Call : Type 0 where
  puts : Batch → Call
  removes : Bytes → Call

-- Calls of one adapter after another, with the table of each.
abbrev pub Calls : Type 0
Calls = List (Text × List Call)

-- A batch is put if it is not empty.
abbrev pub flush_calls : Batch → List Call
flush_calls [] = []
flush_calls (e ∷ batch) = puts (e ∷ batch) ∷ []

-- What a table holds after calls that it takes.
unfoldable pub effect : List Call → Contents → Contents
effect [] c = c
effect (puts batch ∷ calls) c = effect calls (overlaid batch c)
effect (removes key ∷ calls) c = effect calls (updated c key none)

abbrev pub effect_if : Text → Text → List Call → Contents → Contents
effect_if u t calls c = if same u t then effect calls c else c

unfoldable pub effect_on : Text → Calls → Contents → Contents
effect_on t [] c = c
effect_on t ((u, calls) ∷ rest) c = effect_on t rest (effect_if u t calls c)

module _ (B : BcAdapter) where
  -- The calls of one adapter; their status codes are not read.
  unfoldable pub run_on : List Call → B.State → Result B.State
  run_on [] a = ok a
  run_on (puts batch ∷ calls) a = do (_, _, a') ← B.put a batch; run_on calls a'
  run_on (removes key ∷ calls) a = do (_, a') ← B.remove a key; run_on calls a'

  unfoldable pub run_calls : Calls → Adapters B → Result (Adapters B)
  run_calls [] ads = ok ads
  run_calls ((t, calls) ∷ rest) ads = elim (find t ads) [
    | none ↦ fault undefined
    | some a ↦ do a' ← run_on calls a; run_calls rest (assign t a' ads)
  ]

  pub run_on-flush_calls :
      (batch : Batch) (a : B.State) → run_on (flush_calls batch) a ≡ flush_batch B batch a
  unfolding run_on flush_batch
  run_on-flush_calls [] a = refl
  run_on-flush_calls (e ∷ batch) a = refl

  pub run_on-append :
      (first later : List Call) (a : B.State)
      → run_on (first ++ later) a ≡ (run_on first a >>= run_on later)
  unfolding run_on
  run_on-append [] later a = refl
  run_on-append (puts batch ∷ first) later a = elim (Result-cases (B.put a batch)) [
    | inl ((code, left, a'), e) ↦ rw e (run_on-append first later a')
    | inr (f, e) ↦ rw e refl
  ]
  run_on-append (removes key ∷ first) later a = elim (Result-cases (B.remove a key)) [
    | inl ((code, a'), e) ↦ rw e (run_on-append first later a')
    | inr (f, e) ↦ rw e refl
  ]
