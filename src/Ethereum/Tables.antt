-- ===== src/Ethereum/Tables.antt =====
-- adapter_ethereum.cpp: `init`, `shutdown`, `create_table`, `load_table`, `drop_table`, and the settings
-- of config_ethereum.h. The class with all of this is a `BcAdapter`.
pub mod Kept
pub mod Served
pub mod Connected
pub mod Networked
pub mod Ready
use blockchain_db.Prelude.{
  ℕ, zero, suc, ◌-◌, ◌*◌, ◌^◌, ◌==◌, Bool, true, false, not, Option, none, some, [], ◌∷◌, ◌++◌, ltb,
  if◌then◌else◌, ℤ, pos, negsuc, Result, ok, fault, undefined, ◌>>=◌,
}
use blockchain_db.Prelude.Order.{same}
use blockchain_db.Text.{Text, codes}
use blockchain_db.Text.Order.{text_ord}
use blockchain_db.Map.{find, assign}
use blockchain_db.Adapter.{BcAdapter, Batch}
use blockchain_db.Platform.{Platform, Config, thrown, exec}
use blockchain_db.Ethereum.{
  Ethereum, Curl, unset, null_curl, closed, handle, config_text, call_method,
}
use blockchain_db.Ethereum.Reads.{
  check_connection, update_nonce, get_all, contains_text, regex_search,
}
use blockchain_db.Ethereum.Writes.{put, remove}

abbrev pub script_path_key : Text
script_path_key = codes "Adapter-Ethereum.script_path"

abbrev pub contract_path_key : Text
contract_path_key = codes "Adapter-Ethereum.contract_path"

abbrev pub connection_url_key : Text
connection_url_key = codes "Adapter-Ethereum.connection-url"

abbrev pub max_waiting_time_key : Text
max_waiting_time_key = codes "Adapter-Ethereum.max_waiting_time"

unfoldable pub set_adapter_config : Text → Config → Config
set_adapter_config mysql_data_dir config = record {
  numbers = assign max_waiting_time_key (pos 300) config.numbers;
  texts =
      assign contract_path_key
        (mysql_data_dir
          ++ codes
              "../../storage/blockchainDB/adapter/ethereum/contract/truffle/build/contracts/SimpleStorage.json")
        (assign script_path_key
          (mysql_data_dir ++ codes "../../storage/blockchainDB/adapter/ethereum/scripts")
          config.texts);
}

-- WAITING_TIME_IN_SEC, the ms of a second.
abbrev pub waiting_time_in_sec : ℕ
waiting_time_in_sec = 1000

-- The product of an int, which may not overflow, as a size_t.
unfoldable pub waiting_time : ℤ → Result ℕ
waiting_time (pos n) =
    if ltb (n * waiting_time_in_sec) (2 ^ 31) then ok (n * waiting_time_in_sec) else fault undefined
waiting_time (negsuc n) =
    if ltb (2 ^ 31) (suc n * waiting_time_in_sec)
    then fault undefined
    else ok (2 ^ 64 - suc n * waiting_time_in_sec)

module _ (P : Platform) where
  abbrev pub json_text : P.Json → Text → Result Text
  json_text json key = do value ← thrown (P.index json key); thrown (P.get_string value)

  unfoldable pub set_network_config : Text → Config → Result Config
  set_network_config connection_string config = do
    json ← thrown (P.parse connection_string)
    rpc_port ← json_text json (codes "rpc-port")
    join_ip ← json_text json (codes "join-ip")
    ok (record config {
      texts = assign connection_url_key (codes "http://" ++ (join_ip ++ (codes ":" ++ rpc_port))) (
          assign (codes "Adapter-Ethereum.join-ip") join_ip
            (assign (codes "Adapter-Ethereum.rpc-port") rpc_port config.texts));
    })

  unfoldable pub verify_connection_string : Text → Result Bool
  verify_connection_string [] = ok false
  verify_connection_string (c ∷ cs) = do
    json ← thrown (P.parse (c ∷ cs))
    ok (if P.has json (codes "join-ip") then P.has json (codes "rpc-port") else false)

  abbrev pub new_curl : P.World → Text → Curl
  new_curl w url = if P.easy_init w then handle url else null_curl

  -- The account in the answer to eth_accounts.
  abbrev pub accounted : Option Text → Ethereum P → Bool × Ethereum P
  accounted none s = (false, s)
  accounted (some account) s = (true, record s { account_address = account; nonce = 0 })

  unfoldable pub init_node : Ethereum P → Result (Bool × Ethereum P)
  unfolding waiting_time
  init_node s = do
    seconds ← config_text (find max_waiting_time_key s.config.numbers)
    ms ← waiting_time seconds
    url ← config_text (find connection_url_key s.config.texts)
    let ready : Ethereum P = record s { max_waiting_time = ms; curl = new_curl s.world url }
    (response, s') ← call_method P ready [] (codes "eth_accounts")
    if contains_text (codes "error") response
        then ok (false, s')
        else ok (accounted (regex_search (codes "\"result\":[\"") response) s')

  -- `init(config_path)`.
  pub init_path : Ethereum P → Text → Result (Bool × Ethereum P)
  unfolding init_node
  init_path s [] = ok (false, s)
  init_path s (c ∷ cs) = do
    config ← P.read_ini s.world (c ∷ cs)
    init_node (record s { config = config })

  -- `init(mysql_data_dir, connection_string)`.
  unfoldable pub init : Ethereum P → Text → Text → Result (Bool × Ethereum P)
  unfolding init_node set_adapter_config set_network_config verify_connection_string
  init s [] connection_string = ok (false, s)
  init s (c ∷ cs) connection_string = do
    let adapter_config = set_adapter_config (c ∷ cs) s.config
    let s1 : Ethereum P = record s { config = adapter_config }
    verified ← verify_connection_string connection_string
    if not verified then ok (false, s1) else (do
      network_config ← set_network_config connection_string adapter_config
      (available, s2) ← check_connection P (record s { config = network_config })
      if not available then ok (false, s2) else init_node s2)

  -- A second `curl_easy_cleanup` of the handle, or one of a pointer that was never set, is undefined.
  pub shutdown : Ethereum P → Result (Bool × Ethereum P)
  shutdown s = elim s.curl [
    | handle url ↦ ok (true, record s { curl = closed })
    | null_curl ↦ ok (true, s)
    | unset ↦ fault undefined
    | closed ↦ fault undefined
  ]

  abbrev pub first_nonce : Ethereum P → Result (Ethereum P)
  first_nonce s = if s.nonce == 0 then update_nonce P s else ok s

  -- The second part is what `tableAddress` holds; it stays as it was if the name is the table's own.
  pub create_table : Ethereum P → Text → Text → Result (ℤ × Text × Ethereum P)
  create_table s name table_address =
      if same name s.table_name then ok (pos 1, table_address, s) else (do
        script_path ← config_text (find script_path_key s.config.texts)
        contract_path ← config_text (find contract_path_key s.config.texts)
        connection_url ← config_text (find connection_url_key s.config.texts)
        let cmd =
            codes "node "
            ++ (script_path
                ++ (codes "/deploy_KV_contract.js "
                    ++ (s.account_address
                        ++ (codes " " ++ (contract_path ++ (codes " " ++ connection_url))))))
        (address, w) ← exec P s.world cmd
        s' ←
            first_nonce
              (record s { stored_contract_address = address; table_name = name; world = w })
        ok (pos 0, address, s'))

  unfoldable pub load_table : Ethereum P → Text → Text → Result (ℤ × Ethereum P)
  load_table s name [] = ok (pos 1, s)
  load_table s name (c ∷ cs) = do
    s' ← first_nonce (record s { stored_contract_address = c ∷ cs; table_name = name })
    ok (pos 0, s')

  pub remove_all : Batch → Ethereum P → Result (Ethereum P)
  remove_all [] s = ok s
  remove_all ((k, v) ∷ results) s = do (code, s') ← remove P s k; remove_all results s'

  abbrev pub is_zero : ℤ → Bool
  is_zero (pos zero) = true
  is_zero _ = false

  pub drop_table : Ethereum P → Result (ℤ × Ethereum P)
  unfolding remove_all
  drop_table s = do
    (code, results, s1) ← get_all P s
    s2 ← if is_zero code then remove_all results s1 else ok s1
    ok (pos 0, s2)

  -- A new object in some world: libcurl's pointer and the waiting time are not set.
  abbrev pub new_ethereum : P.World → Ethereum P
  new_ethereum w = record {
    table_name = [];
    account_address = [];
    stored_contract_address = [];
    config = record { texts = []; numbers = [] };
    curl = unset;
    max_waiting_time = 0;
    nonce = 0;
    world = w;
  }

  -- The class as the engine sees it.
  abbrev pub ethereum : P.World → BcAdapter
  ethereum w = record {
    State = Ethereum P;
    fresh = new_ethereum w;
    init = init;
    shutdown = shutdown;
    put = put P;
    get_all = get_all P;
    remove = remove P;
    create_table = λ s name. create_table s name [];
    load_table = load_table;
  }
