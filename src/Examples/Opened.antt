-- ===== src/Examples/Opened.antt =====
-- An `open` of a table whose metadata name an adapter's own node.
use blockchain_db.Prelude.{ℕ, List, [], ◌∷◌, Result, ok, fault}
use blockchain_db.Text.{Text, codes, find as find_text}
use blockchain_db.Map.{find}
use blockchain_db.Commit.{Adapters}
use blockchain_db.Platform.{Platform}
use blockchain_db.Ethereum.{Ethereum}
use blockchain_db.Ethereum.Tables.{ethereum}
use blockchain_db.Tables.{open_table}
use blockchain_db.Examples.Memory.{stock}
use blockchain_db.Examples.Node.{Value, empty_object, text_value, with_member, machine}
use blockchain_db.Examples.Chain.{responses}
use blockchain_db.Examples.Statements.{server, disk}

abbrev own_node : Value
own_node = with_member (codes "join-ip") (text_value (codes "h")) (
    with_member (codes "rpc-port") (text_value (codes "8")) (
      with_member (codes "table_address") (text_value (codes "0xc"))
        (with_member (codes "bc_type") (text_value (codes "ETHEREUM")) empty_object)))

abbrev own_chain : Platform
own_chain = machine ((codes "q", own_node) ∷ responses)

-- The answers to the check of the connection, and to the questions for the accounts and their nonces.
abbrev answers : List Text
answers = codes "ok" ∷ codes "\"result\":[\"0xa\"]" ∷ codes "-" ∷ codes "-" ∷ []

abbrev Open : Type 0
Open = Adapters (ethereum own_chain answers)

abbrev after_open : Result (ℕ × Open) → Open
after_open (ok (code, adapters)) = adapters
after_open (fault e) = []

abbrev opened : Open
opened = after_open (open_table own_chain server (ethereum own_chain answers) stock disk [])
