-- ===== src/Ethereum/Reads/Kept.antt =====
-- The calls that read leave the node as it was.
use blockchain_db.Prelude.{
  ℤ, negsuc, refl, Bool, true, false, not, Option, none, some, [], ◌++◌, Result, ok, ◌>>=◌,
  if◌then◌else◌,
}
use blockchain_db.Bytes.{Bytes}
use blockchain_db.Text.{Text, codes}
use blockchain_db.Text.Order.{text_ord}
use blockchain_db.Map.{find}
use blockchain_db.Adapter.{Batch}
use blockchain_db.Encoding.{byte_array_to_hex}
use blockchain_db.Word.{value_size, convert_to_32byte}
use blockchain_db.Response.{split}
use blockchain_db.Platform.{Platform, exec_success}
use blockchain_db.Ethereum.{Ethereum, quoted, and_then, config_text, request, call}
use blockchain_db.Ethereum.Kept.{
  IsSameNode, IsSameNode-refl, Keeps, Keeps-bind, Keeps-pure, request-Keeps, call-Keeps,
}
use blockchain_db.Ethereum.Reads.{
  scan_params, get_params, got, without_0x, member_text, counted_nonce, update_nonce, curl_command,
  check_connection, get_all_code, scanned, get, get_all,
}

module _ (P : Platform) where
  counted_nonce-IsSameNode :
      (s : Ethereum P) (count : Option Text) → IsSameNode P s (counted_nonce P s count)
  counted_nonce-IsSameNode s none = IsSameNode-refl P s
  counted_nonce-IsSameNode s (some t) = record {
    same_curl = refl;
    same_time = refl;
    same_config = refl;
    same_account = refl;
  }

  pub update_nonce-Keeps : (s : Ethereum P) → Keeps P (λ s'. s') s (update_nonce P s)
  unfolding update_nonce
  update_nonce-Keeps s =
      Keeps-bind P (λ r. r.1) (λ s'. s') s
        (request P s (quoted s.account_address ++ codes ", \"latest\"")
          (codes "eth_getTransactionCount"))
        (λ r. ok (counted_nonce P r.1 (and_then P (member_text P r.0) without_0x)))
        (request-Keeps P s (quoted s.account_address ++ codes ", \"latest\"")
          (codes "eth_getTransactionCount"))
        (λ r. counted_nonce-IsSameNode r.1 (and_then P (member_text P r.0) without_0x))

  abbrev shelled : Ethereum P → Bool × Text × P.World → Result (Bool × Ethereum P)
  shelled s (success, output, w) = ok (success, record s { world = w })

  abbrev shell : Ethereum P → Text → Result (Bool × Ethereum P)
  shell s url =
      exec_success P s.world (curl_command P ++ P.replace_all url (codes "http://") [])
      >>= shelled s

  pub check_connection-Keeps : (s : Ethereum P) → Keeps P (λ r. r.1) s (check_connection P s)
  unfolding check_connection
  check_connection-Keeps s =
      Keeps-pure P (λ r. r.1) s
        (config_text (find (codes "Adapter-Ethereum.connection-url") s.config.texts)) (shell s)
        (λ url.
          Keeps-pure P (λ r. r.1) s
            (exec_success P s.world (curl_command P ++ P.replace_all url (codes "http://") []))
            (shelled s)
            (λ r. record {
              same_curl = refl;
              same_time = refl;
              same_config = refl;
              same_account = refl;
            }))

  abbrev gotten : Bytes → Text × Ethereum P → Result (ℤ × Bytes × Ethereum P)
  gotten result (response, s') = do (code, value) ← got response result; ok (code, value, s')

  pub get-Keeps : (s : Ethereum P) (key result : Bytes) → Keeps P (λ r. r.2) s (get P s key result)
  unfolding get
  get-Keeps s key result =
      Keeps-pure P (λ r. r.2) s (convert_to_32byte (byte_array_to_hex key.value))
        (λ w. call P s (get_params w) false >>= gotten result)
        (λ w.
          Keeps-bind P (λ r. r.1) (λ r. r.2) s (call P s (get_params w) false) (gotten result)
            (call-Keeps P s (get_params w) false)
            (λ r.
              Keeps-pure P (λ r. r.2) r.1 (got r.0 result) (λ g. ok (g.0, g.1, r.1))
                (λ g. IsSameNode-refl P r.1)))

  abbrev all_gotten : Text × Ethereum P → Result (ℤ × Batch × Ethereum P)
  all_gotten (response, s2) = do
    results ← split (scanned (member_text P response)) value_size
    ok (get_all_code results, results, s2)

  abbrev all_available : Bool × Ethereum P → Result (ℤ × Batch × Ethereum P)
  all_available (available, s1) =
      if not available then ok (negsuc 0, [], s1) else (call P s1 scan_params false >>= all_gotten)

  all_available-Keeps : (r : Bool × Ethereum P) → Keeps P (λ r. r.2) r.1 (all_available r)
  all_available-Keeps (false, s1) = IsSameNode-refl P s1
  all_available-Keeps (true, s1) =
      Keeps-bind P (λ r. r.1) (λ r. r.2) s1 (call P s1 scan_params false) all_gotten
        (call-Keeps P s1 scan_params false)
        (λ r.
          Keeps-pure P (λ r. r.2) r.1 (split (scanned (member_text P r.0)) value_size)
            (λ results. ok (get_all_code results, results, r.1)) (λ results. IsSameNode-refl P r.1))

  pub get_all-Keeps : (s : Ethereum P) → Keeps P (λ r. r.2) s (get_all P s)
  unfolding get_all
  get_all-Keeps s =
      Keeps-bind P (λ r. r.1) (λ r. r.2) s (check_connection P s) all_available
        (check_connection-Keeps s) all_available-Keeps
