-- ===== src/Ethereum/Reads.antt =====
-- adapter_ethereum.cpp: `update_nonce`, `check_connection`, `get`, `get_all`.
pub mod Nonce
pub mod Kept
pub mod Search
pub mod Values
pub mod Scanned
use blockchain_db.Prelude.{
  ℕ, zero, suc, ◌+◌, ◌-◌, ◌*◌, ◌/◌, ◌%◌, ◌^◌, Bool, true, false, not, ◌&&◌, ◌||◌, Option, none,
  some, List, [], ◌∷◌, ◌++◌, length, drop, replicate, ltb, leb, ◌==◌, if◌then◌else◌, ℤ, pos, negsuc,
  Result, ok, fault, undefined, ◌>>=◌,
}
use blockchain_db.Bytes.{Bytes}
use blockchain_db.Text.{Text, codes, substr, substr_from, starts_with}
use blockchain_db.Text
use blockchain_db.Text.Order.{text_ord}
use blockchain_db.Map.{find}
use blockchain_db.Adapter.{Batch}
use blockchain_db.Encoding.{byte_array_to_hex, hex_to_int, hex_to_byte_array, signed, skip_space}
use blockchain_db.Response.{split}
use blockchain_db.Word.{value_size, convert_to_32byte}
use blockchain_db.Platform.{Platform, exec_success}
use blockchain_db.Ethereum.{Ethereum, quoted, config_text, request, call, result_text, and_then}
use blockchain_db.Ethereum.Params.{RpcParams, no_params}

-- A character of `\w`.
abbrev pub is_word : ℕ → Bool
is_word c = leb 48 c && leb c 57 || leb 65 c && leb c 90 || leb 97 c && leb c 122 || c == 95

-- The `\w+` in front of a quotation mark.
unfoldable pub word_before_quote : Text → Option Text
word_before_quote [] = none
word_before_quote (c ∷ cs) =
    if c == 34
    then some []
    else if is_word c
    then elim (word_before_quote cs) [ none ↦ none | some w ↦ some (c ∷ w) ]
    else none

abbrev pub if_some_word : Option Text → Option Text
if_some_word (some (c ∷ w)) = some (c ∷ w)
if_some_word _ = none

-- The regular expressions `.*` prefix `(\w+)".*`: within a line `.*` takes the last place that fits,
-- and the first line with such a place is taken.
abbrev pub line_end : ℕ → Bool
line_end c = c == 10 || c == 13

abbrev pub or_else_match : Option Text → Option Text → Option Text
or_else_match (some w) m = some w
or_else_match none m = m

-- The last match up to the end of the line.
unfoldable pub line_match : Text → Text → Option Text
unfolding word_before_quote
line_match prefix [] = none
line_match prefix (c ∷ cs) =
    let later = line_match prefix cs in
    let here =
      if starts_with prefix (c ∷ cs)
      then if_some_word (word_before_quote (drop (length prefix) (c ∷ cs)))
      else none in
    if line_end c then none else or_else_match later here

-- From the start of a line: its match, or else the next line's.
unfoldable pub next_lines : Text → Text → Option Text
unfolding line_match
next_lines prefix [] = none
next_lines prefix (c ∷ cs) =
    let later = next_lines prefix cs in
    if line_end c then or_else_match (line_match prefix cs) later else later

unfoldable pub regex_search : Text → Text → Option Text
unfolding next_lines line_match
regex_search prefix s = or_else_match (line_match prefix s) (next_lines prefix s)

abbrev pub contains_text : Text → Text → Bool
contains_text token s = elim (Text.find token s) [ none ↦ false | some i ↦ true ]

-- `strtoul` in base 16.
abbrev pub as_ulong : Bool × ℕ → ℕ
as_ulong (false, v) = if ltb v (2 ^ 64) then v else 2 ^ 64 - 1
as_ulong (true, v) = if ltb v (2 ^ 64) then (2 ^ 64 - v) % 2 ^ 64 else 2 ^ 64 - 1

-- The nonce of a count: one less as an unsigned long, of which `std::max` with 0 changes nothing.
unfoldable pub nonce_of : Text → ℕ
nonce_of hex_count = (as_ulong (signed (skip_space hex_count)) + (2 ^ 64 - 1)) % 2 ^ 64

-- Without its first two characters; `none` where `substr` throws.
abbrev pub without_0x : Text → Option Text
without_0x (_ ∷ _ ∷ s) = some s
without_0x _ = none

-- The call of the contract's tableScan.
abbrev pub scan_params : RpcParams
scan_params = record no_params {
  method = codes "eth_call";
  call_data = codes "0xb3055e26";
  quantity_tag = codes "latest";
}

-- The call of the contract's get.
abbrev pub get_params : Text → RpcParams
get_params padded_key = record no_params {
  method = codes "eth_call";
  call_data = codes "0x8eaa6ac0" ++ padded_key;
  quantity_tag = codes "latest";
}

abbrev pub result_key : Text
result_key = codes "\"result\":\"0x"

-- `substr(2 * VALUE_SIZE, val_size)`, where a negative int is a size past every end.
abbrev pub value_text : Text → ℤ → Result Text
value_text m (pos n) = if ltb n (2 ^ 30) then substr m (2 * value_size) (n * 2) else fault undefined
value_text m (negsuc n) = if ltb n (2 ^ 30) then substr_from m (2 * value_size) else fault undefined

-- The value of what the contract's get returned.
unfoldable pub value_of : Text → Result Bytes
value_of m = do
  size_text ← substr m value_size value_size
  n ← hex_to_int size_text
  hex ← value_text m n
  value ← hex_to_byte_array hex (replicate (length hex / 2) 0)
  ok (record { value = value })

-- What `get` makes of the response: the status code and the value that is assigned, if any.
pub got : Text → Bytes → Result (ℤ × Bytes)
unfolding value_of regex_search
got response result =
    if contains_text (codes "error") response
    then ok (pos 1, result)
    else elim (regex_search result_key response) [
      | none ↦ ok (pos 1, result)
      | some m ↦ do value ← value_of m; ok (pos 0, value)
    ]

-- `rpc_result`: an exception leaves what has been assigned.
abbrev pub or_whole : Text → Option Text → Text
or_whole s none = s
or_whole s (some t) = t

unfoldable pub scanned : Option Text → Text
scanned none = []
scanned (some s) = or_whole s (without_0x s)

abbrev pub get_all_code : Batch → ℤ
get_all_code [] = pos 1
get_all_code (e ∷ results) = pos 0

module _ (P : Platform) where
  -- `json["result"]` as a text, or an exception.
  abbrev pub member_text : Text → Option Text
  member_text response =
      and_then P (P.parse response)
        (λ json. and_then P (P.index json (codes "result")) P.get_string)

  -- The count of a response; every exception is caught.
  abbrev pub counted_nonce : Ethereum P → Option Text → Ethereum P
  counted_nonce s none = s
  counted_nonce s (some hex_count) = record s { nonce = nonce_of hex_count }

  unfoldable pub update_nonce : Ethereum P → Result (Ethereum P)
  update_nonce s = do
    (response, s') ←
        request P s (quoted s.account_address ++ codes ", \"latest\"")
          (codes "eth_getTransactionCount")
    ok (counted_nonce s' (and_then P (member_text response) without_0x))

  abbrev pub curl_command : Text
  curl_command =
      codes
        "curl --data '{\"method\":\"eth_blockNumber\",\"params\":[],\"id\":1,\"jsonrpc\":\"2.0\"}' -H \"Content-Type: application/json\" -X POST "

  unfoldable pub check_connection : Ethereum P → Result (Bool × Ethereum P)
  check_connection s = do
    connection_url ← config_text (find (codes "Adapter-Ethereum.connection-url") s.config.texts)
    (success, output, w) ←
        exec_success P s.world (curl_command ++ P.replace_all connection_url (codes "http://") [])
    ok (success, record s { world = w })

  pub get : Ethereum P → Bytes → Bytes → Result (ℤ × Bytes × Ethereum P)
  unfolding got
  get s key result = do
    padded_key ← convert_to_32byte (byte_array_to_hex key.value)
    (response, s') ← call P s (get_params padded_key) false
    (code, value) ← got response result
    ok (code, value, s')

  pub get_all : Ethereum P → Result (ℤ × Batch × Ethereum P)
  unfolding check_connection
  get_all s = do
    (available, s1) ← check_connection s
    if not available then ok (negsuc 0, [], s1) else (do
      (response, s2) ← call P s1 scan_params false
      results ← split (scanned (member_text response)) value_size
      ok (get_all_code results, results, s2))
