-- ===== src/Commit/Loop.antt =====
-- A commit whose tables are open.
use blockchain_db.Prelude.{◌≤◌, ◌≡◌, true, some, List, [], ◌∷◌, All, length, take, drop, arith, ok}
use blockchain_db.Bytes.Order.{bytes_ord}
use blockchain_db.Text.{Text, substr}
use blockchain_db.Text.Order.{text_ord}
use blockchain_db.Map.{find, contains}
use blockchain_db.Transaction.{Statement}
use blockchain_db.Adapter.{BcAdapter}
use blockchain_db.Commit.{Adapters}

module _ (B : BcAdapter) where
  abbrev pub AllOpened : List Statement → Adapters B → Type 0
  AllOpened ss ads = All (λ s. contains s.tablename ads ≡ true) ss

  pub AllOpened-kept :
      (ss : List Statement) (ads ads' : Adapters B)
      → ((t : Text) → contains t ads ≡ true → contains t ads' ≡ true)
      → AllOpened ss ads
      → AllOpened ss ads'
  AllOpened-kept [] ads ads' kept h = tt
  AllOpened-kept (s ∷ ss) ads ads' kept (h, hs) =
      (kept s.tablename h, AllOpened-kept ss ads ads' kept hs)

  pub of_contains :
      (t : Text) (ads : Adapters B) → contains t ads ≡ true → (a : B.State) × (find t ads ≡ some a)
  of_contains t ads h = ground arith

  pub name_read :
      (name : Text) → 2 ≤ length name → (rest : Text) × (substr name 2 (length name) ≡ ok rest)
  unfolding substr
  name_read name h = (take (length name) (drop 2 name), ground arith)
