-- ===== src/Ethereum/Tables/Networked.antt =====
-- The settings that `set_network_config` makes of a connection string.
use blockchain_db.Prelude.{
  ◌≡◌, ◌∙◌, ap, Bool, Option, none, some, ◌++◌, Result, ok, pos, ◌>>=◌, >>=-eq-ok, Ensures-eq_ok,
}
use blockchain_db.Prelude.Order.{same}
use blockchain_db.Text.{Text, codes, text_lt}
use blockchain_db.Text.Order.{text_ord}
use blockchain_db.Map.{find, assign}
use blockchain_db.Map.Lookup.{find-assign}
use blockchain_db.Platform.{Platform, Config, thrown}
use blockchain_db.Ethereum.{Ethereum}
use blockchain_db.Ethereum.Kept.{IsSameNode}
use blockchain_db.Ethereum.Reads.{check_connection}
use blockchain_db.Ethereum.Reads.Kept.{check_connection-Keeps}
use blockchain_db.Ethereum.Tables.{
  connection_url_key, max_waiting_time_key, set_adapter_config, json_text, set_network_config,
}

module _ (P : Platform) where
  thrown-eq_ok : {A : Type 0} (m : Option A) (a : A) → thrown m ≡ ok a → m ≡ some a
  thrown-eq_ok none a e = cc
  thrown-eq_ok (some b) a e = cc

  abbrev pub node_url : Text → Text → Text
  node_url join_ip rpc_port = codes "http://" ++ (join_ip ++ (codes ":" ++ rpc_port))

  -- The settings that `set_network_config` makes.
  abbrev pub networked : Config → Text → Text → Config
  networked config join_ip rpc_port = record config {
    texts = assign connection_url_key (node_url join_ip rpc_port) (
        assign (codes "Adapter-Ethereum.join-ip") join_ip
          (assign (codes "Adapter-Ethereum.rpc-port") rpc_port config.texts));
  }

  pub record IsNetworked (connection_string : Text) (config network : Config) : Type 0 where
    pub json : P.Json
    pub join_ip : Text
    pub rpc_port : Text
    pub parsed : P.parse connection_string ≡ some json
    pub ip_given : json_text P json (codes "join-ip") ≡ ok join_ip
    pub port_given : json_text P json (codes "rpc-port") ≡ ok rpc_port
    pub settings : network ≡ networked config join_ip rpc_port

  abbrev addressed : Config → Text → Text → Result Config
  addressed config rpc_port join_ip = ok (networked config join_ip rpc_port)

  abbrev read_network : Config → P.Json → Result Config
  read_network config json = json_text P json (codes "rpc-port") >>= λ rpc_port.
      json_text P json (codes "join-ip") >>= addressed config rpc_port

  pub set_network_config-IsNetworked :
      (connection_string : Text) (config network : Config)
      → set_network_config P connection_string config ≡ ok network
      → IsNetworked connection_string config network
  unfolding set_network_config
  set_network_config-IsNetworked connection_string config network run =
      let (json, parses, more) =
        >>=-eq-ok (thrown (P.parse connection_string)) (read_network config) run in
      let (rpc_port, port_given, more2) =
        >>=-eq-ok (json_text P json (codes "rpc-port"))
          (λ rpc_port. json_text P json (codes "join-ip") >>= addressed config rpc_port) more in
      let (join_ip, ip_given, end) =
        >>=-eq-ok (json_text P json (codes "join-ip")) (addressed config rpc_port) more2 in
      record {
        json = json;
        join_ip = join_ip;
        rpc_port = rpc_port;
        parsed = thrown-eq_ok (P.parse connection_string) json parses;
        ip_given = ip_given;
        port_given = port_given;
        settings = set_to rpc_port join_ip end;
      }
    where
      set_to :
          (rpc_port join_ip : Text)
          → addressed config rpc_port join_ip ≡ ok network
          → network ≡ networked config join_ip rpc_port
      set_to rpc_port join_ip h = cc

  networked_url :
      (config : Config) (join_ip rpc_port : Text)
      → find connection_url_key (networked config join_ip rpc_port).texts
        ≡ some (node_url join_ip rpc_port)
  unfolding same text_ord text_lt
  networked_url config join_ip rpc_port =
      find-assign connection_url_key connection_url_key (node_url join_ip rpc_port) (
        assign (codes "Adapter-Ethereum.join-ip") join_ip
          (assign (codes "Adapter-Ethereum.rpc-port") rpc_port config.texts))

  networked_time :
      (dir join_ip rpc_port : Text) (config : Config)
      → find max_waiting_time_key
          (networked (set_adapter_config dir config) join_ip rpc_port).numbers
        ≡ some (pos 300)
  unfolding set_adapter_config same text_ord text_lt
  networked_time dir join_ip rpc_port config =
      find-assign max_waiting_time_key max_waiting_time_key (pos 300) config.numbers

  -- The settings that a reached node has left.
  pub found_settings :
      (s before : Ethereum P) (dir join_ip rpc_port : Text)
      → (available : Bool)
      → check_connection P
          (record s { config = networked (set_adapter_config dir s.config) join_ip rpc_port })
        ≡ ok (available, before)
      → (find max_waiting_time_key before.config.numbers ≡ some (pos 300))
        × (find connection_url_key before.config.texts ≡ some (node_url join_ip rpc_port))
  found_settings s before dir join_ip rpc_port available checks =
      let config = set_adapter_config dir s.config in
      let s' : Ethereum P = record s { config = networked config join_ip rpc_port } in
      let kept =
        Ensures-eq_ok (λ r. IsSameNode P s' r.1) (check_connection P s')
          (check_connection-Keeps P s') checks in
      (
        ap (λ c. find max_waiting_time_key c.numbers) kept.same_config
            ∙ networked_time dir join_ip rpc_port s.config,
        ap (λ c. find connection_url_key c.texts) kept.same_config
            ∙ networked_url config join_ip rpc_port,
      )

  pub networked_config :
      (connection_string : Text) (config : Config) (json : P.Json) (join_ip rpc_port : Text)
      → P.parse connection_string ≡ some json
      → json_text P json (codes "join-ip") ≡ ok join_ip
      → json_text P json (codes "rpc-port") ≡ ok rpc_port
      → set_network_config P connection_string config ≡ ok (networked config join_ip rpc_port)
  unfolding set_network_config
  networked_config connection_string config json join_ip rpc_port parsed ip_given port_given =
      ap (λ m. thrown m >>= read_network config) parsed
      ∙ ap (λ r. r >>= λ port. json_text P json (codes "join-ip") >>= addressed config port)
          port_given
      ∙ ap (λ r. r >>= addressed config rpc_port) ip_given
