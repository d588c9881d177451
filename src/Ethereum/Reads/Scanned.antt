-- ===== src/Ethereum/Reads/Scanned.antt =====
-- `get_all` over what the contract's tableScan answers.
use blockchain_db.Prelude.{◌^◌, ◌<◌, ◌≡◌, refl, true, some, List, [], ◌++◌, length, All, ok}
use blockchain_db.Text.{Text, codes}
use blockchain_db.Text.Order.{text_ord}
use blockchain_db.Table.{Buffer}
use blockchain_db.Response.Values.{IsFiller}
use blockchain_db.Response.Whole.{IsStored, collected, answer, split-answer}
use blockchain_db.Platform.{Platform}
use blockchain_db.Ethereum.{Ethereum, handle}
use blockchain_db.Ethereum.Reads.{
  scan_params, member_text, check_connection, get_all_code, get_all, scanned,
}
use blockchain_db.Ethereum.Requests.{read_post, call-to_read}

module _ (P : Platform) where
  -- With a handle of libcurl, when the node is available and its response holds the answer of
  -- tableScan to rows with keys of 32 bytes and values that do not run into their tokens, fewer
  -- than 2 ^ 31 of them, and a text without a token behind them, `get_all` gives the map of the rows, and the status code 0 just when there
  -- is a row.
  pub get_all-answer :
      (s s1 : Ethereum P) (url response : Text) (w : P.World) (w0 w1 w2 : Text)
      (rows : List (Buffer × Buffer)) (behind : Text)
      → check_connection P s ≡ ok (true, s1)
      → s1.curl ≡ handle url
      → P.perform s1.world url (read_post P s1 scan_params) ≡ (response, w)
      → member_text P response ≡ some (codes "0x" ++ answer w0 w1 w2 rows behind)
      → length w0 ≡ 64
      → length w1 ≡ 64
      → length w2 ≡ 64
      → length rows < 2 ^ 31
      → All IsStored rows
      → IsFiller behind
      → get_all P s
        ≡ ok (get_all_code (collected rows []), collected rows [], record s1 { world = w })
  unfolding get_all scanned
  get_all-answer s s1 url response w w0 w1 w2 rows behind available here answered holds l0 l1 l2 few
        stored ends =
      rw
        (
          available,
          call-to_read P s1 scan_params url response w here answered,
          holds,
          split-answer w0 w1 w2 rows behind l0 l1 l2 few stored ends,
        )
        refl
