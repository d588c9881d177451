-- ===== src/Ethereum/Tables/Kept.antt =====
-- The calls of a table leave the node as it was.
use blockchain_db.Prelude.{
  ℤ, pos, refl, ◌==◌, Bool-cases, inl, inr, [], ◌∷◌, ◌++◌, Result, ok, ◌>>=◌, if◌then◌else◌,
}
use blockchain_db.Prelude.Order.{same}
use blockchain_db.Text.{Text, codes}
use blockchain_db.Text.Order.{text_ord}
use blockchain_db.Map.{find}
use blockchain_db.Adapter.{Batch}
use blockchain_db.Platform.{Platform, exec}
use blockchain_db.Ethereum.{Ethereum, config_text}
use blockchain_db.Ethereum.Kept.{IsSameNode-refl, Keeps, Keeps-bind, Keeps-pure, Keeps-trans}
use blockchain_db.Ethereum.Reads.{get_all}
use blockchain_db.Ethereum.Reads.Kept.{update_nonce-Keeps, get_all-Keeps}
use blockchain_db.Ethereum.Writes.{remove}
use blockchain_db.Ethereum.Writes.Kept.{remove-Keeps}
use blockchain_db.Ethereum.Tables.{
  script_path_key, contract_path_key, connection_url_key, first_nonce, create_table, load_table,
  remove_all, is_zero, drop_table,
}

module _ (P : Platform) where
  first_nonce-Keeps : (s : Ethereum P) → Keeps P (λ s'. s') s (first_nonce P s)
  first_nonce-Keeps s = elim (Bool-cases (s.nonce == 0)) [
    | inl e ↦ rw e (update_nonce-Keeps P s)
    | inr e ↦ rw e (IsSameNode-refl P s)
  ]

  abbrev named : Ethereum P → Text → Text → P.World → Ethereum P
  named s name address w = record s {
    stored_contract_address = address;
    table_name = name;
    world = w;
  }

  abbrev deployed : Ethereum P → Text → Text × P.World → Result (ℤ × Text × Ethereum P)
  deployed s name (address, w) = do
    s' ← first_nonce P (named s name address w)
    ok (pos 0, address, s')

  abbrev deploy_command : Ethereum P → Text → Text → Text → Text
  deploy_command s script_path contract_path connection_url =
      codes "node "
      ++ (script_path
          ++ (codes "/deploy_KV_contract.js "
              ++ (s.account_address
                  ++ (codes " " ++ (contract_path ++ (codes " " ++ connection_url))))))

  abbrev deploy : Ethereum P → Text → Text → Text → Text → Result (ℤ × Text × Ethereum P)
  deploy s name script_path contract_path connection_url =
      exec P s.world (deploy_command s script_path contract_path connection_url) >>= deployed s name

  deployed-Keeps :
      (s : Ethereum P) (name : Text) (r : Text × P.World) → Keeps P (λ q. q.2) s (deployed s name r)
  deployed-Keeps s name r =
      let t = named s name r.0 r.1 in
      Keeps-trans P (λ q. q.2) s t (deployed s name r)
        (record { same_curl = refl; same_time = refl; same_config = refl; same_account = refl })
        (Keeps-bind P (λ s'. s') (λ q. q.2) t (first_nonce P t) (λ s'. ok (pos 0, r.0, s'))
          (first_nonce-Keeps t) (λ s'. IsSameNode-refl P s'))

  pub create_table-Keeps :
      (s : Ethereum P) (name table_address : Text)
      → Keeps P (λ r. r.2) s (create_table P s name table_address)
  unfolding create_table
  create_table-Keeps s name table_address = elim (Bool-cases (same name s.table_name)) [
    | inl e ↦ rw e (IsSameNode-refl P s)
    | inr e ↦ rw e (
        Keeps-pure P (λ r. r.2) s (config_text (find script_path_key s.config.texts))
          (λ a. config_text (find contract_path_key s.config.texts) >>= λ b.
            config_text (find connection_url_key s.config.texts) >>= deploy s name a b)
          (λ a.
            Keeps-pure P (λ r. r.2) s (config_text (find contract_path_key s.config.texts))
              (λ b. config_text (find connection_url_key s.config.texts) >>= deploy s name a b)
              (λ b.
                Keeps-pure P (λ r. r.2) s (config_text (find connection_url_key s.config.texts))
                  (deploy s name a b)
                  (λ c.
                    Keeps-pure P (λ r. r.2) s (exec P s.world (deploy_command s a b c))
                      (deployed s name) (deployed-Keeps s name)))))
  ]

  pub load_table-Keeps :
      (s : Ethereum P) (name address : Text) → Keeps P (λ r. r.1) s (load_table P s name address)
  unfolding load_table
  load_table-Keeps s name [] = IsSameNode-refl P s
  load_table-Keeps s name (c ∷ cs) =
      let t = named s name (c ∷ cs) s.world in
      Keeps-trans P (λ r. r.1) s t (first_nonce P t >>= λ s'. ok (pos 0, s'))
        (record { same_curl = refl; same_time = refl; same_config = refl; same_account = refl })
        (Keeps-bind P (λ s'. s') (λ r. r.1) t (first_nonce P t) (λ s'. ok (pos 0, s'))
          (first_nonce-Keeps t) (λ s'. IsSameNode-refl P s'))

  remove_all-Keeps :
      (results : Batch) (s : Ethereum P) → Keeps P (λ s'. s') s (remove_all P results s)
  unfolding remove_all
  remove_all-Keeps [] s = IsSameNode-refl P s
  remove_all-Keeps ((k, v) ∷ results) s =
      Keeps-bind P (λ r. r.1) (λ s'. s') s (remove P s k) (λ r. remove_all P results r.1)
        (remove-Keeps P s k) (λ r. remove_all-Keeps results r.1)

  abbrev emptied : ℤ × Batch × Ethereum P → Result (Ethereum P)
  emptied (code, results, s1) = if is_zero P code then remove_all P results s1 else ok s1

  emptied-Keeps : (r : ℤ × Batch × Ethereum P) → Keeps P (λ s'. s') r.2 (emptied r)
  emptied-Keeps r = elim (Bool-cases (is_zero P r.0)) [
    | inl e ↦ rw e (remove_all-Keeps r.1 r.2)
    | inr e ↦ rw e (IsSameNode-refl P r.2)
  ]

  abbrev dropped : ℤ × Batch × Ethereum P → Result (ℤ × Ethereum P)
  dropped r = emptied r >>= λ s2. ok (pos 0, s2)

  pub drop_table-Keeps : (s : Ethereum P) → Keeps P (λ r. r.1) s (drop_table P s)
  unfolding drop_table
  drop_table-Keeps s =
      Keeps-bind P (λ r. r.2) (λ r. r.1) s (get_all P s) dropped (get_all-Keeps P s)
        (λ r.
          Keeps-bind P (λ s'. s') (λ q. q.1) r.2 (emptied r) (λ s2. ok (pos 0, s2))
            (emptied-Keeps r) (λ s2. IsSameNode-refl P s2))
