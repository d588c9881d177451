-- ===== src/Examples/Replies.antt =====
-- Reads and writes of an Ethereum adapter whose node answers with texts that stand for responses.
use blockchain_db.Prelude.{◌≡◌, refl, true, [], ◌∷◌, ◌++◌, pos, ok, arith}
use blockchain_db.Prelude.Order.{same}
use blockchain_db.Text.{Text, codes, text_lt, starts_with}
use blockchain_db.Text
use blockchain_db.Text.Order.{text_ord}
use blockchain_db.Map.{Map, find}
use blockchain_db.Encoding.{hex_digit, hex_digits, int_to_hex, byte_array_to_hex}
use blockchain_db.Platform.{exec_success, strip}
use blockchain_db.Ethereum.Reads.{get, check_connection, result_key, line_match}
use blockchain_db.Ethereum.Reads.Values.{IsReturned, returned, get-IsReturned}
use blockchain_db.Ethereum.Reads.Search.{int_to_hex-IsWord}
use blockchain_db.Ethereum.Writes.{ParamsMap}
use blockchain_db.Examples.Memory.{bytes}
use blockchain_db.Examples.Node.{replaced}
use blockchain_db.Examples.Chain.{chain, url, connected, transfer}

abbrev reply : Text
reply = codes "{" ++ (result_key ++ (returned (int_to_hex 32 64) (5 ∷ 6 ∷ []) [] ++ 34 ∷ codes "}"))

reply-IsReturned : IsReturned reply (5 ∷ 6 ∷ [])
unfolding line_match starts_with Text.find byte_array_to_hex hex_digit hex_digits int_to_hex
reply-IsReturned = record {
  before = codes "{";
  w0 = int_to_hex 32 64;
  padding = [];
  after = codes "}";
  split = refl;
  line = (refl, tt);
  word = refl;
  w0_words = int_to_hex-IsWord 32 64;
  padding_words = tt;
  nothing = refl;
  fine = refl;
}

get-IsReturned_example :
    get chain (connected (reply ∷ [])) (bytes (7 ∷ [])) (bytes [])
    ≡ ok (pos 0, bytes (5 ∷ 6 ∷ []), connected [])
get-IsReturned_example =
    get-IsReturned chain (connected (reply ∷ [])) (bytes (7 ∷ [])) (bytes []) url reply []
      (5 ∷ 6 ∷ []) refl refl reply-IsReturned (omega arith) (omega arith, (omega arith, tt))

pub available :
    check_connection chain (connected (codes "ok" ∷ codes "rows" ∷ []))
    ≡ ok (true, connected (codes "rows" ∷ []))
unfolding check_connection exec_success strip find same text_ord text_lt replaced starts_with
available = refl

abbrev one_transfer : ParamsMap
one_transfer = (codes "0", (transfer, true)) ∷ []

abbrev one_key : Map Text Text
one_key = (codes "0", codes "07") ∷ []
