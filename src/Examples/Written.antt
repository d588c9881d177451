-- ===== src/Examples/Written.antt =====
-- A `put` of one pair whose transaction is mined and has a good receipt.
use blockchain_db.Prelude.{◌≡◌, refl, [], ◌∷◌, pos, ok}
use blockchain_db.Prelude.Order.{same}
use blockchain_db.Text.{codes, text_lt, starts_with, substr}
use blockchain_db.Text.Order.{text_ord}
use blockchain_db.Map.{find, emplace, insert}
use blockchain_db.Adapter.{Batch}
use blockchain_db.Encoding.{hex_digit, hex_digits, int_to_hex, byte_array_to_hex}
use blockchain_db.Word.{convert_to_32byte}
use blockchain_db.Platform.{exec_success, strip}
use blockchain_db.Ethereum.{
  Ethereum, request, poll, is_mined, has_status, mining_loop, check_mining_result,
  check_transaction_receipt, filled_in, numbered,
}
use blockchain_db.Ethereum.Params.{comma_separated, parse_params_to_json, decimal, to_string}
use blockchain_db.Ethereum.Reads.{check_connection, update_nonce}
use blockchain_db.Ethereum.Writes.{
  put_params, transform, create_rpc_batch, send_all, await_all, send_rpc_batch, put,
}
use blockchain_db.Examples.Memory.{bytes}
use blockchain_db.Examples.Node.{member_of, replaced}
use blockchain_db.Examples.Chain.{chain, connected}

abbrev pair : Batch
pair = (bytes (7 ∷ []), bytes (5 ∷ [])) ∷ []

-- The answers to the check of the connection, to the count of transactions, to the transaction, to the
-- question for its block, and to the one for its receipt.
abbrev before : Ethereum chain
before = connected (codes "ok" ∷ codes "-" ∷ codes "sent" ∷ codes "mined" ∷ codes "receipt" ∷ [])

abbrev after : Ethereum chain
after = record (connected []) { nonce = 1 }

run : put chain before pair ≡ ok (pos 0, pair, after)
unfolding put check_connection exec_success strip find same text_ord text_lt replaced starts_with
    transform update_nonce request put_params convert_to_32byte substr byte_array_to_hex hex_digit
    hex_digits int_to_hex to_string decimal emplace insert create_rpc_batch numbered filled_in
    parse_params_to_json comma_separated send_rpc_batch send_all await_all check_mining_result
    mining_loop poll is_mined check_transaction_receipt has_status member_of
run = refl
