-- ===== src/Ethereum/Params/Object.antt =====
-- What the text of a transaction's parameters carries.
use blockchain_db.Prelude.{◌≡◌, refl, sym, ap, ◌∙◌, List, [], ◌∷◌, ◌++◌, append_assoc, append-nil}
use mathlib.Core.Path.{subst}
use blockchain_db.Text.{Text, codes}
use blockchain_db.Ethereum.Params.{
  RpcParams, member, nonce_text, comma_separated, members, parse_params_to_json, quantity,
}

-- A text that stands somewhere in another one.
pub record IsWithin (part text : Text) : Type 0 where
  pub before : Text
  pub after : Text
  pub whole : text ≡ before ++ (part ++ after)

-- A member of an object, with a text as its value: `"name":"value"`. An empty value is not written.
abbrev pub Carries : Text → Text → Text → Type 0
Carries text name [] = Unit
Carries text name (c ∷ cs) =
    IsWithin (codes "\"" ++ (name ++ (codes "\":\"" ++ ((c ∷ cs) ++ codes "\"")))) text

-- The object with the parameters of a transaction.
pub record IsObjectOf (text : Text) (params : RpcParams) : Type 0 where
  pub from : Carries text (codes "from") params.from_address
  pub call_data : Carries text (codes "data") params.call_data
  pub to : Carries text (codes "to") params.to_address
  pub gas : Carries text (codes "gas") params.gas
  pub gas_price : Carries text (codes "gasPrice") params.gas_price
  pub nonce : Carries text (codes "nonce") (nonce_text params.nonce)

around : (a b c d e : Text) → a ++ ((b ++ (c ++ d)) ++ e) ≡ (a ++ b) ++ (c ++ (d ++ e))
around a b c d e = rw (append_assoc, append_assoc, append_assoc) refl

IsWithin-around :
    (part text left right : Text) → IsWithin part text → IsWithin part (left ++ (text ++ right))
IsWithin-around part text left right h = record {
  before = left ++ h.before;
  after = h.after ++ right;
  whole = ap (λ t. left ++ (t ++ right)) h.whole ∙ around left h.before part h.after right;
}

IsWithin-behind :
    (part text left whole : Text) → whole ≡ left ++ text → IsWithin part text → IsWithin part whole
IsWithin-behind part text left whole e h = record {
  before = left ++ h.before;
  after = h.after;
  whole = e ∙ ap (λ t. left ++ t) h.whole ∙ sym (append_assoc left h.before (part ++ h.after));
}

comma_separated-IsWithin :
    (first later : List Text) (part : Text)
    → IsWithin part (comma_separated (first ++ part ∷ later))
unfolding comma_separated
comma_separated-IsWithin [] [] part = record {
  before = [];
  after = [];
  whole = sym (append-nil part);
}
comma_separated-IsWithin [] (x ∷ later) part = record {
  before = [];
  after = codes "," ++ comma_separated (x ∷ later);
  whole = refl;
}
comma_separated-IsWithin (y ∷ []) later part =
    IsWithin-behind part (comma_separated (part ∷ later)) (y ++ codes ",")
      (y ++ (codes "," ++ comma_separated (part ∷ later)))
      (sym (append_assoc y (codes ",") (comma_separated (part ∷ later))))
      (comma_separated-IsWithin [] later part)
comma_separated-IsWithin (y ∷ z ∷ first) later part =
    IsWithin-behind part (comma_separated ((z ∷ first) ++ part ∷ later)) (y ++ codes ",")
      (y ++ (codes "," ++ comma_separated ((z ∷ first) ++ part ∷ later)))
      (sym (append_assoc y (codes ",") (comma_separated ((z ∷ first) ++ part ∷ later))))
      (comma_separated-IsWithin (z ∷ first) later part)

Carries-among :
    (first later : List Text) (name value : Text)
    → Carries (comma_separated (first ++ (member name value ++ later))) name value
Carries-among first later name [] = tt
Carries-among first later name (c ∷ cs) =
    comma_separated-IsWithin first later
      (codes "\"" ++ (name ++ (codes "\":\"" ++ ((c ∷ cs) ++ codes "\""))))

Carries-around :
    (text left right name value : Text)
    → Carries text name value
    → Carries (left ++ (text ++ right)) name value
Carries-around text left right name [] h = tt
Carries-around text left right name (c ∷ cs) h = IsWithin-around _ text left right h

-- The text that is sent for parameters is the object with them, and a tag behind it.
pub parse_params_to_json-IsObjectOf :
    (params : RpcParams)
    → IsObjectOf (parse_params_to_json params ++ quantity params.quantity_tag) params
unfolding parse_params_to_json
parse_params_to_json-IsObjectOf params =
    let from = member (codes "from") params.from_address in
    let input = member (codes "data") params.call_data in
    let to = member (codes "to") params.to_address in
    let gas = member (codes "gas") params.gas in
    let price = member (codes "gasPrice") params.gas_price in
    let nonce = member (codes "nonce") (nonce_text params.nonce) in
    record {
      from =
          carried [] (input ++ (to ++ (gas ++ (price ++ nonce)))) (codes "from") params.from_address
            refl;
      call_data =
          carried from (to ++ (gas ++ (price ++ nonce))) (codes "data") params.call_data refl;
      to =
          carried (from ++ input) (gas ++ (price ++ nonce)) (codes "to") params.to_address
            (rw append_assoc refl);
      gas =
          carried (from ++ (input ++ to)) (price ++ nonce) (codes "gas") params.gas
            (rw (append_assoc, append_assoc) refl);
      gas_price =
          carried (from ++ (input ++ (to ++ gas))) nonce (codes "gasPrice") params.gas_price
            (rw (append_assoc, append_assoc, append_assoc) refl);
      nonce =
          carried (from ++ (input ++ (to ++ (gas ++ price)))) [] (codes "nonce")
            (nonce_text params.nonce)
            (rw (append_assoc, append_assoc, append_assoc, append_assoc, append-nil) refl);
    }
  where
    shape :
        (t : Text)
        → codes "{" ++ (t ++ (codes "}" ++ quantity params.quantity_tag))
          ≡ (codes "{" ++ (t ++ codes "}")) ++ quantity params.quantity_tag
    shape t =
        ap (λ u. codes "{" ++ u) (sym (append_assoc t (codes "}") (quantity params.quantity_tag)))

    carried :
        (first later : List Text) (name value : Text)
        → first ++ (member name value ++ later) ≡ members params
        → Carries
            ((codes "{" ++ (comma_separated (members params) ++ codes "}"))
              ++ quantity params.quantity_tag)
            name
            value
    carried first later name value e =
        subst (λ t. Carries t name value) (shape (comma_separated (members params)))
          (Carries-around (comma_separated (members params)) (codes "{")
            (codes "}" ++ quantity params.quantity_tag) name value
            (subst (λ ms. Carries (comma_separated ms) name value) e
              (Carries-among first later name value)))
