-- ===== src/Session.antt =====
-- The calls that the server makes of the engine between two ends of transactions, as steps: row
-- operations on the transaction of the connection and `external_lock`s.
pub mod Reads
pub mod Ends
use blockchain_db.Prelude.{ℕ, ◌≡◌, Option, none, ok, Ensures, Result}
use blockchain_db.Bytes.{Bytes}
use blockchain_db.Text.{Text}
use blockchain_db.Transaction.{Transaction}
use blockchain_db.Adapter.{BcAdapter}
use blockchain_db.Commit.{Thd, Adapters}
use blockchain_db.Table.{Table, Buffer}
use blockchain_db.Rows.{Status}
use blockchain_db.Rows.Invariant.{RowStep}
use blockchain_db.Lock.{external_lock}

pub data Step (B : BcAdapter) (sha256 : Buffer → Bytes)
    : Thd × Adapters B → Thd × Adapters B → Type 0 where
  row :
      {thd : Thd} {ads : Adapters B} {after : Option Transaction}
      → RowStep sha256 thd.ha_ptr after
      → Step B sha256 (thd, ads) (record thd { ha_ptr = after }, ads)
  locked :
      {thd thd' : Thd} {ads ads' : Adapters B} (lock_type : ℕ) (table : Table) (status : Status)
      → external_lock B thd lock_type table ads ≡ ok (status, thd', ads')
      → Step B sha256 (thd, ads) (thd', ads')

-- Any number of steps.
pub data Reach (B : BcAdapter) (sha256 : Buffer → Bytes)
    : Thd × Adapters B → Thd × Adapters B → Type 0 where
  stop : {s : Thd × Adapters B} → Reach B sha256 s s
  next : {s m t : Thd × Adapters B} → Reach B sha256 s m → Step B sha256 m t → Reach B sha256 s t
