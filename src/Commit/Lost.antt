-- ===== src/Commit/Lost.antt =====
-- Two writes of one key in a transaction: what the commit stores.
use blockchain_db.Prelude.{◌≡◌, refl, ◌∙◌, ap, Bool, none, some, List, [], ◌∷◌, ok, ◌>>=◌}
use blockchain_db.Prelude.Order.{same_refl}
use blockchain_db.Bytes.{Bytes}
use blockchain_db.Bytes.Order.{bytes_ord}
use blockchain_db.Text.{Text}
use blockchain_db.Text.Order.{text_ord}
use blockchain_db.Map.Lookup.{find-emplace, find-nil}
use blockchain_db.Transaction.{Statement, Transaction, write}
use blockchain_db.Adapter.{BcAdapter, Contents}
use blockchain_db.Commit.{Thd, Adapters, bc_commit}
use blockchain_db.Commit.Meaning.{first_writes, sequential}
use blockchain_db.Commit.Calls.{Calls, effect_on, run_calls}
use blockchain_db.Commit.Correct.{IsReady, start, bc_commit-first_writes}

abbrev pub twice : Text → Bytes → Bytes → Bytes → List Statement
twice t k v w =
    record { type = write; tablename = t; key = k; value = v }
    ∷ record { type = write; tablename = t; key = k; value = w }
    ∷ []

first_of_twice :
    (t : Text) (k v w : Bytes) (c : Contents) → first_writes t (twice t k v w) (start c) k ≡ some v
unfolding first_writes
first_of_twice t k v w c =
    rw (same_refl t) (rw (find-emplace, find-emplace, same_refl k) (rw find-nil refl))

last_of_twice :
    (t : Text) (k v w : Bytes) (c : Contents) → sequential t (twice t k v w) c k ≡ some w
unfolding sequential
last_of_twice t k v w c = rw (same_refl t) (rw (same_refl k) refl)

module _ (B : BcAdapter) where
  -- For any adapters, and a commit that is due with every table open, of two writes of one key: there
  -- are calls of the adapters such that the commit runs them and then answers 0. A table that takes
  -- these calls holds the first value; executed in order the writes leave the second one.
  pub bc_commit-loses_second_write :
      (thd : Thd) (commit_trx : Bool) (txn : Transaction) (ads : Adapters B) (t : Text)
      (k v w : Bytes)
      → IsReady B thd commit_trx txn ads
      → txn.statements ≡ twice t k v w
      → (calls : Calls) × (bc_commit B thd commit_trx ads
          ≡ (run_calls B calls ads >>= λ ads'. ok (0, record thd { ha_ptr = none }, ads')))
        × ((c : Contents)
            → (effect_on t calls c k ≡ some v) × (sequential t txn.statements c k ≡ some w))
  bc_commit-loses_second_write thd commit_trx txn ads t k v w ready both =
      let (calls, run, meant) = bc_commit-first_writes B thd commit_trx txn ads ready in
      (
        calls,
        run,
        λ c. (
          ap (λ d. d k) (meant t c) ∙ rw both (first_of_twice t k v w c),
          rw both (last_of_twice t k v w c),
        ),
      )
