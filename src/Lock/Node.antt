-- ===== src/Lock/Node.antt =====
-- `external_lock` of a table whose adapter is the one of Ethereum.
use blockchain_db.Prelude.{
  ℕ, ◌^◌, ◌<◌, ◌≡◌, ◌≢◌, ◌∙◌, ap, true, none, some, List, [], ◌∷◌, ◌++◌, length, All, ok, inl, inr,
  negsuc,
}
use blockchain_db.Bytes.{Bytes}
use blockchain_db.Bytes.Order.{bytes_ord}
use blockchain_db.Text.{Text, codes}
use blockchain_db.Text.Order.{text_ord}
use blockchain_db.Map.{find}
use blockchain_db.Adapter.{Batch}
use blockchain_db.Commit.{Thd, Adapters}
use blockchain_db.Table.{Table, Buffer, full_table_name}
use blockchain_db.Rows.{success}
use blockchain_db.Lock.{f_unlck, counted, external_lock}
use blockchain_db.Lock.Branches.{HasRows, external_lock-branches}
use blockchain_db.Response.Values.{IsFiller}
use blockchain_db.Response.Whole.{IsStored, collected, answer}
use blockchain_db.Contract.{Call, deployed, table_scan, run}
use blockchain_db.Contract.Listed.{IsMined, run-IsListed}
use blockchain_db.Contract.Meaning.{no_rows, all_called, run-all_called}
use blockchain_db.Contract.Scanned.{returned, rows_at, returned-table_scan}
use blockchain_db.Contract.Collected.{as_bytes, rows_at_few, find-collected_contents}
use blockchain_db.Platform.{Platform}
use blockchain_db.Ethereum.{Ethereum, handle}
use blockchain_db.Ethereum.Requests.{read_post}
use blockchain_db.Ethereum.Reads.{scan_params, member_text, check_connection, get_all_code}
use blockchain_db.Ethereum.Reads.Scanned.{get_all-answer}
use blockchain_db.Ethereum.Tables.{ethereum}

not_minus_one : (results : Batch) → get_all_code results ≢ negsuc 0
not_minus_one [] h = cc
not_minus_one (e ∷ results) h = cc

module _ (P : Platform) (w : P.World) (thd : Thd) (lock_type : ℕ) (table : Table)
    (ads : Adapters (ethereum P w)) (a : Ethereum P) where
  -- A lock, and no unlock, of a table that has no copy in the transaction so far and whose adapter
  -- has a handle of libcurl and reaches its node: when the node's response holds the answer of
  -- tableScan to rows with keys of 32 bytes and values that do not run into their tokens, fewer
  -- than 2 ^ 31 of them, and a text without a token behind them, the lock succeeds and the copy of the table is the map of the rows.
  pub external_lock-answer :
      (a1 : Ethereum P) (url response : Text) (w' : P.World) (w0 w1 w2 : Text)
      (rows : List (Buffer × Buffer)) (behind : Text)
      → lock_type ≢ f_unlck
      → find (full_table_name table) (counted thd.ha_ptr).table_cache ≡ none
      → find (full_table_name table) ads ≡ some a
      → check_connection P a ≡ ok (true, a1)
      → a1.curl ≡ handle url
      → P.perform a1.world url (read_post P a1 scan_params) ≡ (response, w')
      → member_text P response ≡ some (codes "0x" ++ answer w0 w1 w2 rows behind)
      → length w0 ≡ 64
      → length w1 ≡ 64
      → length w2 ≡ 64
      → length rows < 2 ^ 31
      → All IsStored rows
      → IsFiller behind
      → (thd' : Thd) × (ads' : Adapters (ethereum P w)) × (external_lock
            (ethereum P w)
            thd
            lock_type
            table
            ads
          ≡ ok (success, thd', ads'))
        × (find (full_table_name table) ads' ≡ some (record a1 { world = w' }))
        × HasRows (full_table_name table) (collected rows []) thd'.ha_ptr
  external_lock-answer a1 url response w' w0 w1 w2 rows behind locks absent open_adapter available
        here answered holds l0 l1 l2 few stored ends =
      let read =
        get_all-answer P a a1 url response w' w0 w1 w2 rows behind available here answered holds l0
          l1 l2 few stored ends in
      let (status, thd', ads', run, kept, branch) =
        external_lock-branches (ethereum P w) thd lock_type table ads a (record a1 { world = w' })
          (get_all_code (collected rows [])) (collected rows []) locks absent open_adapter read in
      elim branch [
        | inl (minus_one, _, _) ↦ absurd (not_minus_one (collected rows []) minus_one)
        | inr (_, succeeded, has_rows) ↦ (thd', ads', rw succeeded at run, kept, has_rows)
      ]

  -- A lock, and no unlock, of a table that has no copy in the transaction so far and whose adapter
  -- has a handle of libcurl and reaches its node: when the node's response holds what tableScan
  -- returns after any calls on the deployed contract, in blocks with a positive number, that leave
  -- fewer than 2 ^ 31 keys, of 32 bytes, and values that do not run into their tokens, the lock
  -- succeeds and the copy of the table has at each key what the calls mean for it.
  pub external_lock-table_scan :
      (a1 : Ethereum P) (url response : Text) (w' : P.World) (calls : List (ℕ × Call))
      → lock_type ≢ f_unlck
      → find (full_table_name table) (counted thd.ha_ptr).table_cache ≡ none
      → find (full_table_name table) ads ≡ some a
      → check_connection P a ≡ ok (true, a1)
      → a1.curl ≡ handle url
      → P.perform a1.world url (read_post P a1 scan_params) ≡ (response, w')
      → member_text P response ≡ some (codes "0x" ++ returned (table_scan (run calls deployed)))
      → All IsMined calls
      → length (run calls deployed).key_list < 2 ^ 31
      → All IsStored (rows_at (run calls deployed) (run calls deployed).key_list)
      → (thd' : Thd) × (ads' : Adapters (ethereum P w)) × (rows : Batch) × (external_lock
            (ethereum P w)
            thd
            lock_type
            table
            ads
          ≡ ok (success, thd', ads'))
        × (find (full_table_name table) ads' ≡ some (record a1 { world = w' }))
        × HasRows (full_table_name table) rows thd'.ha_ptr
        × ((j : Bytes) → find j rows ≡ as_bytes (all_called calls no_rows j))
  external_lock-table_scan a1 url response w' calls locks absent open_adapter available here
        answered holds mined few stored =
      let c = run calls deployed in
      let (w0, w1, w2, behind, answers, l0, l1, l2, ends) = returned-table_scan c in
      let (thd', ads', locked, kept, shown) =
        external_lock-answer a1 url response w' w0 w1 w2 (rows_at c c.key_list) behind locks absent
          open_adapter available here answered (holds ∙ ap (λ t. some (codes "0x" ++ t)) answers) l0
          l1 l2 (rows_at_few c few) stored ends in
      (
        thd',
        ads',
        collected (rows_at c c.key_list) [],
        locked,
        kept,
        shown,
        λ j.
            find-collected_contents c j (run-IsListed calls mined)
            ∙ ap as_bytes (run-all_called calls j mined),
      )
