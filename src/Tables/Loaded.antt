-- ===== src/Tables/Loaded.antt =====
-- What `open` makes of a connection string: an adapter that has loaded its table.
use blockchain_db.Prelude.{
  ℤ, ◌≡◌, refl, sym, ◌∙◌, ap, Bool, true, false, not, Option, none, some, Option-cases, inl, inr,
  Result, ok, ◌>>=◌, >>=-eq-ok, if◌then◌else◌,
}
use blockchain_db.Text.{Text, codes}
use blockchain_db.Text.Order.{text_ord}
use blockchain_db.Adapter.{BcAdapter}
use blockchain_db.Platform.{Platform}
use blockchain_db.Tables.{json_text, opened_adapter}
use blockchain_db.Tables.Factory
use blockchain_db.Tables.Factory.{BcType, create_adapter, get_bc_type}
use blockchain_db.Tables.Metadata.{Server}

module _ (P : Platform) (S : Server) (B : BcAdapter) where
  -- An adapter that has been made from a connection string for a table: its `init` has answered true,
  -- and it has been given the address in the connection string.
  pub record IsLoaded (connection_string table_name : Text) (loaded : B.State) : Type 0 where
    pub json : P.Json
    pub table_address : Text
    pub ready : B.State
    pub code : ℤ
    pub parsed : P.parse connection_string ≡ some json
    pub addressed : json_text P S B json (codes "table_address") ≡ ok table_address
    pub initialised : B.init B.fresh S.data_home connection_string ≡ ok (true, ready)
    pub loads : B.load_table ready table_name table_address ≡ ok (code, loaded)

  abbrev loaded_next : Text → Text → Bool × B.State → Result (Option B.State)
  loaded_next table_name table_address (initialized, ready) =
      if not initialized
      then ok none
      else (do (code, loaded) ← B.load_table ready table_name table_address; ok (some loaded))

  loaded_next-some :
      (table_name table_address : Text) (initialized : Bool) (ready loaded : B.State)
      → loaded_next table_name table_address (initialized, ready) ≡ ok (some loaded)
      → (initialized ≡ true)
        × (code : ℤ) × (B.load_table ready table_name table_address ≡ ok (code, loaded))
  loaded_next-some table_name table_address false ready loaded run = cc
  loaded_next-some table_name table_address true ready loaded run =
      let ((code, a), loads, end) =
        >>=-eq-ok (B.load_table ready table_name table_address) kept run in
      (refl, code, loads ∙ ap (λ x. ok (code, x)) (same_state a end))
    where
      kept : ℤ × B.State → Result (Option B.State)
      kept (code, a) = ok (some a)

      same_state :
          (a : B.State)
          → ◌≡◌ {A = Result (Option B.State)} (ok (some a)) (ok (some loaded))
          → a ≡ loaded
      same_state a e = cc

  abbrev made_next : Text → Text → Text → Option B.State → Result (Option B.State)
  made_next connection_string table_name table_address none = ok none
  made_next connection_string table_name table_address (some a) =
      B.init a S.data_home connection_string >>= loaded_next table_name table_address

  made_next-some :
      (connection_string table_name table_address : Text) (m : Option B.State) (loaded : B.State)
      → made_next connection_string table_name table_address m ≡ ok (some loaded)
      → (a : B.State) × (ready : B.State) × (code : ℤ) × (m ≡ some a)
        × (B.init a S.data_home connection_string ≡ ok (true, ready))
        × (B.load_table ready table_name table_address ≡ ok (code, loaded))
  made_next-some connection_string table_name table_address none loaded run = cc
  made_next-some connection_string table_name table_address (some a) loaded run =
      let ((initialized, ready), inits, more) =
        >>=-eq-ok (B.init a S.data_home connection_string) (loaded_next table_name table_address)
          run in
      let (is_ready, code, loads) =
        loaded_next-some table_name table_address initialized ready loaded more in
      (a, ready, code, refl, inits ∙ ap (λ b. ok (b, ready)) is_ready, loads)

  made-fresh : (type : BcType) (a : B.State) → create_adapter B type ≡ some a → B.fresh ≡ a
  unfolding create_adapter
  made-fresh Factory.ethereum a e = cc
  made-fresh Factory.unknown_type a e = cc
  made-fresh Factory.fabric a e = cc

  abbrev typed : Text → Text → P.Json → Text → Result (Option B.State)
  typed connection_string table_name json bc_type = do
    table_address ← json_text P S B json (codes "table_address")
    made_next connection_string table_name table_address (create_adapter B (get_bc_type bc_type))

  pub opened_adapter-IsLoaded :
      (connection_string table_name : Text) (loaded : B.State)
      → opened_adapter P S B connection_string table_name ≡ ok (some loaded)
      → IsLoaded connection_string table_name loaded
  unfolding opened_adapter
  opened_adapter-IsLoaded connection_string table_name loaded run =
      elim (Option-cases (P.parse connection_string)) [
        | inl e ↦ nothing (sym (rw (opened_adapter, e) refl) ∙ run)
        | inr (json, e) ↦ parsed_json json e (sym (rw (opened_adapter, e) refl) ∙ run)
      ]
    where
      nothing :
          ◌≡◌ {A = Result (Option B.State)} (ok none) (ok (some loaded))
          → IsLoaded connection_string table_name loaded
      nothing h = cc

      parsed_json :
          (json : P.Json)
          → P.parse connection_string ≡ some json
          → (json_text P S B json (codes "bc_type") >>= typed connection_string table_name json)
            ≡ ok (some loaded)
          → IsLoaded connection_string table_name loaded
      parsed_json json parsed more =
          let (bc_type, has_type, more2) =
            >>=-eq-ok (json_text P S B json (codes "bc_type"))
              (typed connection_string table_name json) more in
          let (table_address, addressed, more3) =
            >>=-eq-ok (json_text P S B json (codes "table_address"))
              (λ t.
                made_next connection_string table_name t (create_adapter B (get_bc_type bc_type)))
              more2 in
          let (a, ready, code, made, inits, loads) =
            made_next-some connection_string table_name table_address
              (create_adapter B (get_bc_type bc_type)) loaded more3 in
          record {
            json = json;
            table_address = table_address;
            ready = ready;
            code = code;
            parsed = parsed;
            addressed = addressed;
            initialised =
                ap (λ x. B.init x S.data_home connection_string)
                  (made-fresh (get_bc_type bc_type) a made)
                ∙ inits;
            loads = loads;
          }
