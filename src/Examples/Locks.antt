-- ===== src/Examples/Locks.antt =====
-- Locks of a table in memory and of one behind a node.
use blockchain_db.Prelude.{◌≡◌, ◌≢◌, refl, ◌⊎◌, true, none, some, [], ◌∷◌, ok, pos, negsuc}
use blockchain_db.Prelude.Order.{same}
use blockchain_db.Text.{codes, text_lt}
use blockchain_db.Text.Order.{text_ord}
use blockchain_db.Map.{find}
use blockchain_db.Adapter.{Batch}
use blockchain_db.Commit.{Thd, Adapters}
use blockchain_db.Table.{full_table_name}
use blockchain_db.Rows.{Status, success, failed}
use blockchain_db.Lock.{counted, external_lock}
use blockchain_db.Lock.Branches.{HasRows, external_lock-branches}
use blockchain_db.Lock.Node.{external_lock-table_scan}
use blockchain_db.Ethereum.Tables.{ethereum}
use blockchain_db.Examples.Memory.{memory, stock, bytes, open_adapters, stock_table}
use blockchain_db.Examples.Node.{member_of}
use blockchain_db.Bytes.{Bytes}
use blockchain_db.Bytes.Order.{bytes_ord}
use blockchain_db.Contract.Meaning.{no_rows, all_called}
use blockchain_db.Contract.Collected.{as_bytes}
use blockchain_db.Examples.Contracts.{three_calls, three_mined, three_few, three-IsStored}
use blockchain_db.Examples.Chain.{chain, url, connected}
use blockchain_db.Examples.Replies.{available}

abbrev idle : Thd
idle = record { in_transaction = true; ha_ptr = none; registered = [] }

abbrev one_row : Batch
one_row = (bytes (7 ∷ 9 ∷ []), bytes (9 ∷ 9 ∷ [])) ∷ []

external_lock-branches_example :
    (status : Status) × (thd' : Thd) × (ads' : Adapters memory) × (external_lock memory idle 0
        stock_table open_adapters
      ≡ ok (status, thd', ads'))
    × (find (full_table_name stock_table) ads' ≡ some one_row)
    × (((pos 0 ≡ negsuc 0) × (status ≡ failed) × (thd'.ha_ptr ≡ some (counted none)))
        ⊎ ((pos 0 ≢ negsuc 0)
            × (status ≡ success)
            × HasRows (full_table_name stock_table) one_row thd'.ha_ptr))
unfolding find same text_ord text_lt counted
external_lock-branches_example =
    external_lock-branches memory idle 0 stock_table open_adapters one_row one_row (pos 0) one_row
      (λ h. cc) refl refl refl

-- The node answers with what the contract returns after three calls.
abbrev on_chain : Adapters (ethereum chain [])
on_chain = (stock, connected (codes "ok" ∷ codes "rows" ∷ [])) ∷ []

external_lock-table_scan_example :
    (thd' : Thd) × (ads' : Adapters (ethereum chain [])) × (rows : Batch) × (external_lock
        (ethereum chain [])
        idle
        0
        stock_table
        on_chain
      ≡ ok (success, thd', ads'))
    × (find (full_table_name stock_table) ads' ≡ some (connected []))
    × HasRows (full_table_name stock_table) rows thd'.ha_ptr
    × ((j : Bytes) → find j rows ≡ as_bytes (all_called three_calls no_rows j))
unfolding find same text_ord text_lt member_of counted
external_lock-table_scan_example =
    external_lock-table_scan chain [] idle 0 stock_table on_chain
      (connected (codes "ok" ∷ codes "rows" ∷ [])) (connected (codes "rows" ∷ [])) url
      (codes "rows") [] three_calls (λ h. cc) refl refl available refl refl refl three_mined
      three_few three-IsStored
