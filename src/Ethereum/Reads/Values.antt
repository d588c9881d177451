-- ===== src/Ethereum/Reads/Values.antt =====
-- `get` reads the value of a response.
use blockchain_db.Prelude.{
  ℕ, ◌*◌, ◌/◌, ◌^◌, ◌<◌, ◌≡◌, ◌≢◌, refl, sym, ap, ◌∙◌, false, none, [], ◌∷◌, ◌++◌, length,
  replicate, take, lt→ltb, All, All-append, ok, pos, arith, append_assoc, length-append,
  length-replicate,
}
use blockchain_db.Bytes.{Bytes, IsByte}
use blockchain_db.Text.{Text, codes, substr}
use blockchain_db.Text.Slices.{substr_middle}
use blockchain_db.Table.{Buffer}
use blockchain_db.Encoding.{byte_array_to_hex, int_to_hex}
use blockchain_db.Encoding.RoundTrip.{
  hex_to_byte_array-byte_array_to_hex, hex_to_int-int_to_hex, length-byte_array_to_hex,
  length-int_to_hex,
}
use blockchain_db.Ethereum.Reads.{
  line_end, line_match, regex_search, contains_text, result_key, value_text, value_of, got, get,
  get_params,
}
use blockchain_db.Ethereum.Requests.{read_post, call-to_read}
use blockchain_db.Ethereum.{Ethereum, handle}
use blockchain_db.Platform.{Platform}
use blockchain_db.Word.Padding.{convert_to_32byte_lem}
use blockchain_db.Ethereum.Reads.Search.{
  IsWord, byte_array_to_hex-IsWord, int_to_hex-IsWord, regex_search_lem,
}

-- What the contract's get returns of a value: a word, the length, the bytes and what fills them up.
abbrev pub returned : Text → Buffer → Text → Text
returned w0 v padding = w0 ++ (int_to_hex (length v) 64 ++ (byte_array_to_hex v ++ padding))

value_text_lem :
    (w0 padding : Text) (v : Buffer)
    → length w0 ≡ 64
    → length v < 2 ^ 30
    → value_text (returned w0 v padding) (pos (length v)) ≡ ok (byte_array_to_hex v)
value_text_lem w0 padding v word short = rw (lt→ltb (length v) (2 ^ 30) short) (
    ap (λ t. substr t 128 (length v * 2))
      (sym (append_assoc w0 (int_to_hex (length v) 64) (byte_array_to_hex v ++ padding)))
    ∙ substr_middle (w0 ++ int_to_hex (length v) 64) (byte_array_to_hex v) padding 128
        (length v * 2)
        (omega (arith, length-append w0 (int_to_hex (length v) 64), length-int_to_hex (length v)))
        (omega (arith, length-byte_array_to_hex v)))

-- `value_of` reads a value of fewer than 2 ^ 30 bytes out of what the contract returns.
pub value_of-returned :
    (w0 padding : Text) (v : Buffer)
    → length w0 ≡ 64
    → length v < 2 ^ 30
    → All IsByte v
    → value_of (returned w0 v padding) ≡ ok (record { value = v })
unfolding value_of
value_of-returned w0 padding v word short bytes =
    rw
      (
        substr_middle w0 (int_to_hex (length v) 64) (byte_array_to_hex v ++ padding) 64 64
            (sym word) (sym (length-int_to_hex (length v))),
        hex_to_int-int_to_hex (length v) 64 (omega arith),
        value_text_lem w0 padding v word short,
        hex_to_byte_array-byte_array_to_hex v (replicate (length (byte_array_to_hex v) / 2) 0) bytes
            (length-replicate {A = ℕ} (length (byte_array_to_hex v) / 2) 0
              ∙ omega (arith, length-byte_array_to_hex v)),
      )
      refl

returned_long : (w0 padding : Text) (v : Buffer) → length w0 ≡ 64 → returned w0 v padding ≢ []
returned_long [] padding v word = absurd (omega arith)
returned_long (c ∷ w) padding v word = λ h. cc

-- A response in which the contract returns a value: text of one line before the result, the value in
-- the contract's encoding, and text with no further result behind it; nowhere is there an "error".
pub record IsReturned (response : Text) (v : Buffer) : Type 0 where
  pub before : Text
  pub w0 : Text
  pub padding : Text
  pub after : Text
  pub split : response ≡ before ++ (result_key ++ (returned w0 v padding ++ 34 ∷ after))
  pub line : All (λ c. line_end c ≡ false) before
  pub word : length w0 ≡ 64
  pub w0_words : All IsWord w0
  pub padding_words : All IsWord padding
  pub nothing : line_match result_key (34 ∷ after) ≡ none
  pub fine : contains_text (codes "error") response ≡ false

pub got-IsReturned :
    (response : Text) (v : Buffer) (result : Bytes)
    → IsReturned response v
    → length v < 2 ^ 30
    → All IsByte v
    → got response result ≡ ok (pos 0, record { value = v })
unfolding got
got-IsReturned response v result r short bytes =
    let words =
      All-append IsWord r.w0 (int_to_hex (length v) 64 ++ (byte_array_to_hex v ++ r.padding))
        r.w0_words
        (All-append IsWord (int_to_hex (length v) 64) (byte_array_to_hex v ++ r.padding)
          (int_to_hex-IsWord (length v) 64)
          (All-append IsWord (byte_array_to_hex v) r.padding (byte_array_to_hex-IsWord v bytes)
            r.padding_words)) in
    rw
      (
        r.fine,
        ap (regex_search result_key) r.split
            ∙ regex_search_lem r.before (returned r.w0 v r.padding) r.after r.line words
                (returned_long r.w0 r.padding v r.word) r.nothing,
        value_of-returned r.w0 r.padding v r.word short bytes,
      )
      refl

module _ (P : Platform) where
  -- With a handle of libcurl, when the node answers the call of the contract's get, whose argument
  -- is the key cut or filled up to 32 bytes, with a response that returns a value of fewer than 2 ^
  -- 30 bytes, `get` gives the status code 0 and the value.
  pub get-IsReturned :
      (s : Ethereum P) (key result : Bytes) (url response : Text) (w : P.World) (v : Buffer)
      → s.curl ≡ handle url
      → P.perform s.world url
          (read_post P s (get_params (take 64 (byte_array_to_hex key.value ++ replicate 64 48))))
        ≡ (response, w)
      → IsReturned response v
      → length v < 2 ^ 30
      → All IsByte v
      → get P s key result ≡ ok (pos 0, record { value = v }, record s { world = w })
  unfolding get
  get-IsReturned s key result url response w v here answered r short bytes =
      rw
        (
          convert_to_32byte_lem (byte_array_to_hex key.value),
          call-to_read P s (get_params (take 64 (byte_array_to_hex key.value ++ replicate 64 48)))
              url response w here answered,
          got-IsReturned response v result r short bytes,
        )
        refl
