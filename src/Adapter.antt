-- ===== src/Adapter.antt =====
-- adapter/interface/include/adapter_interface/adapter_interface.h: `class BcAdapter`, through which the
-- engine reaches a blockchain. A call takes the adapter's state to the next one beside its status code
-- and what it writes through a reference, or throws.
use blockchain_db.Prelude.{ℤ, Bool, Option, if◌then◌else◌, Result}
use blockchain_db.Prelude.Order.{same}
use blockchain_db.Bytes.{Bytes}
use blockchain_db.Bytes.Order.{bytes_ord}
use blockchain_db.Text.{Text}
use blockchain_db.Map.{Map, find}
use blockchain_db.Map.Lookup.{or_else}

-- `std::map<const BYTES, const BYTES>`.
abbrev pub Batch : Type 0
Batch = Map Bytes Bytes

-- What a table holds, as its readers see it.
abbrev pub Contents : Type 0
Contents = Bytes → Option Bytes

pub record BcAdapter : Type 1 where
  pub State : Type 0
  -- a new object of the class, before `init`
  pub fresh : State
  pub init : State → Text → Text → Result (Bool × State)
  pub shutdown : State → Result (Bool × State)
  pub put : State → Batch → Result (ℤ × Batch × State)
  pub get_all : State → Result (ℤ × Batch × State)
  pub remove : State → Bytes → Result (ℤ × State)
  pub create_table : State → Text → Result (ℤ × Text × State)
  pub load_table : State → Text → Text → Result (ℤ × State)

abbrev pub updated : Contents → Bytes → Option Bytes → Contents
updated c key value = λ j. if same key j then value else c j

abbrev pub overlaid : Batch → Contents → Contents
overlaid batch c = λ j. or_else (find j batch) (c j)
