-- ===== src/Examples/Served.antt =====
-- An adapter that is initialised, loads a table, removes a key and is shut down.
use blockchain_db.Prelude.{◌≡◌, ◌↔◌, refl, [], ◌∷◌, pos, true, Result, ok, fault, Bool}
use blockchain_db.Prelude.Order.{same}
use blockchain_db.Text.{Text, codes, text_lt, starts_with, substr, find as find_text}
use blockchain_db.Text.Order.{text_ord}
use blockchain_db.Map.{find, insert, assign}
use blockchain_db.Encoding.{hex_digit, hex_digits, int_to_hex, byte_array_to_hex}
use blockchain_db.Word.{convert_to_32byte}
use blockchain_db.Platform.{Platform, exec_success, strip}
use blockchain_db.Ethereum.{
  Ethereum, closed, request, poll, is_mined, has_status, mining_loop, check_mining_result,
  check_transaction_receipt, filled_in, numbered, call_method, settled, call,
}
use blockchain_db.Ethereum.Kept.{IsSameNode}
use blockchain_db.Ethereum.Params.{comma_separated, parse_params_to_json, decimal, to_string}
use blockchain_db.Ethereum.Reads.{
  check_connection, update_nonce, regex_search, line_match, next_lines, word_before_quote,
}
use blockchain_db.Ethereum.Writes.{remove}
use blockchain_db.Ethereum.Tables.{
  set_adapter_config, set_network_config, verify_connection_string, waiting_time, init_node, init,
  load_table, shutdown, new_ethereum,
}
use blockchain_db.Ethereum.Tables.Ready.{IsReady, init_iff}
use blockchain_db.Ethereum.Tables.Served.{
  Served, not_called, called, loads, removes, shutdown-Served,
}
use blockchain_db.Examples.Memory.{bytes}
use blockchain_db.Examples.Node.{
  Value, empty_object, text_value, with_member, machine, member_of, replaced,
}
use blockchain_db.Examples.Chain.{responses, chain, connected}

abbrev removing : Ethereum chain
removing = connected (codes "-" ∷ codes "sent" ∷ codes "mined" ∷ codes "receipt" ∷ [])

abbrev removed : Ethereum chain
removed = record (connected []) { nonce = 1 }

-- The adapter's own node.
abbrev connection_string : Text
connection_string = codes "own"

abbrev own_node : Value
own_node =
    with_member (codes "join-ip") (text_value (codes "h"))
      (with_member (codes "rpc-port") (text_value (codes "8")) empty_object)

abbrev own_chain : Platform
own_chain = machine ((connection_string, own_node) ∷ responses)

-- The answers to the check of the connection and to the question for the accounts, and those of later.
abbrev fresh : Ethereum own_chain
fresh = new_ethereum own_chain (
    codes "ok"
    ∷ codes "\"result\":[\"0xa\"]"
    ∷ codes "-"
    ∷ codes "-"
    ∷ codes "sent"
    ∷ codes "mined"
    ∷ codes "receipt"
    ∷ [])

abbrev after_init : Result (Bool × Ethereum own_chain) → Ethereum own_chain
after_init (ok (b, s)) = s
after_init (fault e) = fresh

abbrev initialised : Ethereum own_chain
initialised = after_init (init own_chain fresh (codes "d") connection_string)

initialises : init own_chain fresh (codes "d") connection_string ≡ ok (true, initialised)
unfolding init init_node set_adapter_config set_network_config verify_connection_string waiting_time
    check_connection exec_success strip find same text_ord text_lt replaced starts_with assign
    insert call_method request regex_search line_match next_lines word_before_quote member_of
    find_text
initialises = refl

init_iff_example :
    (init own_chain fresh (codes "d") connection_string ≡ ok (true, initialised))
    ↔ IsReady own_chain (codes "d") connection_string fresh initialised
init_iff_example = init_iff own_chain fresh initialised (codes "d") connection_string

-- What comes after: a table is loaded, and a key is removed.
abbrev before_removal : Ethereum own_chain
before_removal = record initialised {
  stored_contract_address = codes "0xc";
  table_name = codes "t";
  world = codes "-" ∷ codes "sent" ∷ codes "mined" ∷ codes "receipt" ∷ [];
}

abbrev after_removal : Ethereum own_chain
after_removal = record before_removal { nonce = 1; world = [] }

loads_table :
    load_table own_chain initialised (codes "t") (codes "0xc") ≡ ok (pos 0, before_removal)
unfolding load_table init init_node set_adapter_config set_network_config verify_connection_string
    waiting_time check_connection exec_success strip find same text_ord text_lt replaced starts_with
    assign insert call_method request regex_search line_match next_lines word_before_quote member_of
    find_text update_nonce
loads_table = refl

removes_then : remove own_chain before_removal (bytes (7 ∷ [])) ≡ ok (pos 0, after_removal)
unfolding remove init init_node set_adapter_config set_network_config verify_connection_string
    waiting_time check_connection exec_success strip find same text_ord text_lt replaced starts_with
    assign insert call_method request regex_search line_match next_lines word_before_quote member_of
    find_text update_nonce convert_to_32byte substr byte_array_to_hex hex_digit hex_digits
    int_to_hex to_string decimal numbered filled_in call settled parse_params_to_json
    comma_separated check_mining_result mining_loop poll is_mined check_transaction_receipt
    has_status
removes_then = refl

served : Served own_chain initialised after_removal
served =
    called (loads (codes "t") (codes "0xc") (pos 0) loads_table)
      (called (removes (bytes (7 ∷ [])) (pos 0) removes_then) not_called)

shutdown-Served_example :
    IsSameNode own_chain initialised after_removal
    × (shutdown own_chain after_removal ≡ ok (true, record after_removal { curl = closed }))
shutdown-Served_example =
    shutdown-Served own_chain fresh initialised after_removal (codes "d") connection_string
      initialises served
