-- ===== src/Tables/Factory.antt =====
-- adapter/factory: `AdapterFactory`, which makes the adapter of a type. The engine's interface is the
-- adapter of Ethereum, the one that the factory makes.
use blockchain_db.Prelude.{Option, none, some, [], ◌∷◌}
use blockchain_db.Text.{Text, codes}
use blockchain_db.Text.Order.{text_ord}
use blockchain_db.Map.{Map, find}
use blockchain_db.Adapter.{BcAdapter}

pub data BcType : Type 0 where
  unknown_type ethereum fabric : BcType

abbrev pub bc_type_strings : Map Text BcType
bc_type_strings = (codes "ETHEREUM", ethereum) ∷ (codes "FABRIC", fabric) ∷ []

abbrev type_or_unknown : Option BcType → BcType
type_or_unknown none = unknown_type
type_or_unknown (some type) = type

unfoldable pub get_bc_type : Text → BcType
get_bc_type type = type_or_unknown (find type bc_type_strings)

module _ (B : BcAdapter) where
  unfoldable pub create_adapter : BcType → Option B.State
  create_adapter ethereum = some B.fresh
  create_adapter _ = none
