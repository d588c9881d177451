-- ===== src/Ethereum/Params.antt =====
-- adapter_ethereum.h: `struct RpcParams`; adapter_ethereum.cpp: `parse_params_to_json`.
pub mod Decimal
pub mod Object
use blockchain_db.Prelude.{ℕ, ◌+◌, ◌/◌, ◌%◌, zero, suc, List, [], ◌∷◌, ◌++◌, ltb, if◌then◌else◌}
use blockchain_db.Text.{Text, codes}
use blockchain_db.Encoding.{int_to_hex}

-- Two of them are compared by their `transaction_id` alone.
pub record RpcParams : Type 0 where
  pub from_address : Text
  pub to_address : Text
  pub call_data : Text
  pub method : Text
  pub gas : Text
  pub gas_price : Text
  pub quantity_tag : Text
  pub transaction_id : Text
  pub nonce : ℕ

abbrev pub no_params : RpcParams
no_params = record {
  from_address = [];
  to_address = [];
  call_data = [];
  method = [];
  gas = [];
  gas_price = [];
  quantity_tag = [];
  transaction_id = [];
  nonce = 0;
}

-- A member of the object, if its text is not empty.
abbrev pub member : Text → Text → List Text
member name [] = []
member name (c ∷ cs) = (codes "\"" ++ (name ++ (codes "\":\"" ++ ((c ∷ cs) ++ codes "\"")))) ∷ []

abbrev pub nonce_text : ℕ → Text
nonce_text zero = []
nonce_text (suc n) = codes "0x" ++ int_to_hex (suc n) 0

unfoldable pub comma_separated : List Text → Text
comma_separated [] = []
comma_separated (el ∷ []) = el
comma_separated (el ∷ more ∷ els) = el ++ (codes "," ++ comma_separated (more ∷ els))

abbrev pub members : RpcParams → List Text
members params =
    member (codes "from") params.from_address
    ++ (member (codes "data") params.call_data
        ++ (member (codes "to") params.to_address
            ++ (member (codes "gas") params.gas
                ++ (member (codes "gasPrice") params.gas_price
                    ++ member (codes "nonce") (nonce_text params.nonce)))))

unfoldable pub parse_params_to_json : RpcParams → Text
unfolding comma_separated
parse_params_to_json params = codes "{" ++ (comma_separated (members params) ++ codes "}")

-- The tag behind the object.
abbrev pub quantity : Text → Text
quantity [] = []
quantity (c ∷ cs) = codes ",\"" ++ ((c ∷ cs) ++ codes "\"")

-- `std::to_string` of a number that is not negative.
unfoldable pub decimal : ℕ → ℕ → Text
decimal zero n = []
decimal (suc fuel) n =
    let high = decimal fuel (n / 10) in
    if ltb n 10 then (48 + n) ∷ [] else high ++ (48 + n % 10) ∷ []

unfoldable pub to_string : ℕ → Text
unfolding decimal
to_string n = decimal 20 n
