-- ===== src/Ethereum/Tables/Ready.antt =====
-- What it means that `init` answers true.
use blockchain_db.Prelude.{
  ◌↔◌, ◌≡◌, refl, sym, ◌∙◌, ap, Bool, true, false, not, some, [], ◌∷◌, Result, ok, ◌>>=◌, >>=-eq-ok,
  if◌then◌else◌,
}
use blockchain_db.Text.{Text, codes, is_empty}
use blockchain_db.Text.Order.{text_ord}
use blockchain_db.Platform.{Platform, Config}
use blockchain_db.Ethereum.{Ethereum}
use blockchain_db.Ethereum.Reads.{check_connection}
use blockchain_db.Ethereum.Tables.{
  set_adapter_config, json_text, set_network_config, verify_connection_string, init_node, init,
}
use blockchain_db.Ethereum.Tables.Connected.{
  IsConnected, not_refused, init_node-IsConnected, IsConnected-init_node,
}
use blockchain_db.Ethereum.Tables.Networked.{
  node_url, networked, set_network_config-IsNetworked, networked_config, found_settings,
}

module _ (P : Platform) where
  -- An adapter that has reached the node that the JSON of the connection string names, from the one that
  -- `init` was called on.
  pub record IsReady (dir connection_string : Text) (s t : Ethereum P) : Type 0 where
    pub json : P.Json
    pub join_ip : Text
    pub rpc_port : Text
    pub before : Ethereum P
    pub in_directory : is_empty dir ≡ false
    pub verified : verify_connection_string P connection_string ≡ ok true
    pub parsed : P.parse connection_string ≡ some json
    pub ip_given : json_text P json (codes "join-ip") ≡ ok join_ip
    pub port_given : json_text P json (codes "rpc-port") ≡ ok rpc_port
    pub reached :
        check_connection P
          (record s { config = networked P (set_adapter_config dir s.config) join_ip rpc_port })
        ≡ ok (true, before)
    pub connected : IsConnected P (node_url P join_ip rpc_port) before t

  abbrev checked : Ethereum P → Bool × Ethereum P → Result (Bool × Ethereum P)
  checked s (available, s2) = if not available then ok (false, s2) else init_node P s2

  abbrev in_network : Ethereum P → Config → Result (Bool × Ethereum P)
  in_network s network =
      let s' : Ethereum P = record s { config = network } in check_connection P s' >>= checked s'

  abbrev verified_init : Ethereum P → Text → Config → Bool → Result (Bool × Ethereum P)
  verified_init s connection_string config verified =
      if not verified
      then ok (false, record s { config = config })
      else (set_network_config P connection_string config >>= in_network s)

  checked-eq_true :
      (s s2 t : Ethereum P) (available : Bool)
      → checked s (available, s2) ≡ ok (true, t)
      → (available ≡ true) × (init_node P s2 ≡ ok (true, t))
  checked-eq_true s s2 t true run = (refl, run)
  checked-eq_true s s2 t false run = not_refused P s2 t run

  verified_init-IsReady :
      (s t : Ethereum P) (dir connection_string : Text) (verified : Bool)
      → is_empty dir ≡ false
      → verify_connection_string P connection_string ≡ ok verified
      → verified_init s connection_string (set_adapter_config dir s.config) verified ≡ ok (true, t)
      → IsReady dir connection_string s t
  verified_init-IsReady s t dir connection_string false in_directory verifies run =
      not_refused P (record s { config = set_adapter_config dir s.config }) t run
  verified_init-IsReady s t dir connection_string true in_directory verifies run =
      let config = set_adapter_config dir s.config in
      let (network, sets, more) =
        >>=-eq-ok (set_network_config P connection_string config) (in_network s) run in
      let s' : Ethereum P = record s { config = network } in
      let ((available, s2), checks, more2) = >>=-eq-ok (check_connection P s') (checked s') more in
      let known = set_network_config-IsNetworked P connection_string config network sets in
      let (is_available, ends) = checked-eq_true s' s2 t available more2 in
      let reached =
        ap (λ c. check_connection P (record s { config = c })) (sym known.settings)
        ∙ checks
        ∙ ap (λ b. ok (b, s2)) is_available in
      let (time_found, url_found) =
        found_settings P s s2 dir known.join_ip known.rpc_port true reached in
      record {
        json = known.json;
        join_ip = known.join_ip;
        rpc_port = known.rpc_port;
        before = s2;
        in_directory = in_directory;
        verified = verifies;
        parsed = known.parsed;
        ip_given = known.ip_given;
        port_given = known.port_given;
        reached = reached;
        connected =
            init_node-IsConnected P s2 t (node_url P known.join_ip known.rpc_port) time_found
              url_found ends;
      }

  pub init-IsReady :
      (s t : Ethereum P) (dir connection_string : Text)
      → init P s dir connection_string ≡ ok (true, t)
      → IsReady dir connection_string s t
  unfolding init
  init-IsReady s t [] connection_string run = not_refused P s t run
  init-IsReady s t (c ∷ cs) connection_string run =
      let (verified, verifies, more) =
        >>=-eq-ok (verify_connection_string P connection_string)
          (verified_init s connection_string (set_adapter_config (c ∷ cs) s.config)) run in
      verified_init-IsReady s t (c ∷ cs) connection_string verified refl verifies more

  IsReady-init :
      (s t : Ethereum P) (dir connection_string : Text)
      → IsReady dir connection_string s t
      → init P s dir connection_string ≡ ok (true, t)
  unfolding init
  IsReady-init s t [] connection_string ready = let wrong = ready.in_directory in cc
  IsReady-init s t (c ∷ cs) connection_string ready =
      let config = set_adapter_config (c ∷ cs) s.config in
      let network = networked P config ready.join_ip ready.rpc_port in
      let (time_found, url_found) =
        found_settings P s ready.before (c ∷ cs) ready.join_ip ready.rpc_port true ready.reached in
      ap (λ r. r >>= verified_init s connection_string config) ready.verified
      ∙ ap (λ r. r >>= in_network s)
          (networked_config P connection_string config ready.json ready.join_ip ready.rpc_port
            ready.parsed ready.ip_given ready.port_given)
      ∙ ap (λ r. r >>= checked (record s { config = network })) ready.reached
      ∙ IsConnected-init_node P ready.before t (node_url P ready.join_ip ready.rpc_port) time_found
          url_found ready.connected

  -- `init` answers true and leaves an adapter just when the directory is not empty, the connection
  -- string is JSON that names a join-ip and an rpc-port, the node is reached with the settings of the
  -- two, libcurl gives a handle, and in the answer of the node at `http://join-ip:rpc-port` to
  -- eth_accounts there is no "error" but an account; what is left is the adapter that has reached the
  -- node, with the handle at that URL, a waiting time of 300000 ms, that account, and the nonce 0.
  pub init_iff :
      (s t : Ethereum P) (dir connection_string : Text)
      → (init P s dir connection_string ≡ ok (true, t)) ↔ IsReady dir connection_string s t
  init_iff s t dir connection_string =
      (init-IsReady s t dir connection_string, IsReady-init s t dir connection_string)
