-- ===== src/Ethereum/Writes/Sent.antt =====
-- What the loop that sends does with each entry.
use blockchain_db.Prelude.{
  ℕ, zero, suc, ◌≡◌, refl, ◌∙◌, ap, true, false, none, some, [], ◌∷◌, take, get_elem?, Result, ok,
  ◌>>=◌, >>=-eq-ok, All-get_elem?,
}
use mathlib.Core.Path.{subst}
use mathlib.Core.Option.{some-injective}
use blockchain_db.Prelude.Order.{same}
use blockchain_db.Text.{Text}
use blockchain_db.Text.Order.{text_ord}
use blockchain_db.Map.{Map, find, emplace}
use blockchain_db.Map.Sorted.{IsSorted}
use blockchain_db.Platform.{Platform}
use blockchain_db.Ethereum.{Ethereum, request, result_text, parse_tx_response}
use blockchain_db.Ethereum.Writes.{send_all}
use blockchain_db.Ethereum.Writes.Made.{find-emplace_kept, find-emplace_new, find-emplace_other}

module _ (P : Platform) where
  -- A text that the node has accepted, after the entries before it, under an id.
  pub record IsAccepted (entries acc : Map Text Text) (s : Ethereum P) (json method id : Text)
      : Type 0 where
    pub earlier : ℕ
    pub ids : Map Text Text
    pub sender : Ethereum P
    pub buffer : Text
    pub receiver : Ethereum P
    pub before : send_all P (take earlier entries) acc s ≡ ok (ids, sender)
    pub posts : request P sender json method ≡ ok (buffer, receiver)
    pub answers : result_text P (parse_tx_response P buffer) ≡ ok id

  abbrev sent_next :
      Map Text Text → Map Text Text → Text → Text × Ethereum P → Result (Map Text Text × Ethereum P)
  sent_next batch acc json (buffer, s') = do
    id ← result_text P (parse_tx_response P buffer)
    send_all P batch (emplace json id acc) s'

  -- One turn of the loop that sends.
  send_step :
      (json method : Text) (batch acc : Map Text Text) (s : Ethereum P)
      {r : Map Text Text × Ethereum P}
      → send_all P ((json, method) ∷ batch) acc s ≡ ok r
      → (buffer : Text) × (s' : Ethereum P) × (id : Text) × (request P s json method
          ≡ ok (buffer, s'))
        × (result_text P (parse_tx_response P buffer) ≡ ok id)
        × (send_all P batch (emplace json id acc) s' ≡ ok r)
  unfolding send_all
  send_step json method batch acc s run =
      let ((buffer, s'), posts, rest) =
        >>=-eq-ok (request P s json method) (sent_next batch acc json) run in
      let (id, answers, rest') =
        >>=-eq-ok (result_text P (parse_tx_response P buffer))
          (λ id. send_all P batch (emplace json id acc) s') rest in
      (buffer, s', id, posts, answers, rest')

  send-kept :
      (batch acc : Map Text Text) (s : Ethereum P) (j id : Text) {ids : Map Text Text}
      {s' : Ethereum P}
      → send_all P batch acc s ≡ ok (ids, s')
      → find j acc ≡ some id
      → find j ids ≡ some id
  unfolding send_all
  send-kept [] acc s j id run there = cc
  send-kept ((json, method) ∷ batch) acc s j id run there =
      let (buffer, s1, id0, posts, answers, rest) = send_step json method batch acc s run in
      send-kept batch (emplace json id0 acc) s1 j id rest
        (find-emplace_kept json j id0 id acc there)

  -- A text further on is another one.
  later_differs :
      (json method j m : Text) (batch : Map Text Text) (i : ℕ)
      → IsSorted ((json, method) ∷ batch)
      → get_elem? batch i ≡ some (j, m)
      → same json j ≡ false
  unfolding same
  later_differs json method j m batch i (above, sorted) here =
      let less : text_ord.lt json j ≡ true =
        All-get_elem? (λ e. text_ord.lt json e.0 ≡ true) batch i (j, m) above here in
      rw less refl

  send_onwards :
      (json method buffer id : Text) (batch acc : Map Text Text) (s s' : Ethereum P)
      → request P s json method ≡ ok (buffer, s')
      → result_text P (parse_tx_response P buffer) ≡ ok id
      → send_all P ((json, method) ∷ batch) acc s ≡ send_all P batch (emplace json id acc) s'
  unfolding send_all
  send_onwards json method buffer id batch acc s s' posts answers = rw (posts, answers) refl

  -- Each text that is sent is accepted, and the id under which it is stands in the map of the ids.
  pub send_all-IsAccepted :
      (batch acc : Map Text Text) (s : Ethereum P) (i : ℕ) (json method : Text)
      {ids : Map Text Text} {s' : Ethereum P}
      → IsSorted batch
      → send_all P batch acc s ≡ ok (ids, s')
      → get_elem? batch i ≡ some (json, method)
      → find json acc ≡ none
      → (id : Text) × IsAccepted batch acc s json method id × (find json ids ≡ some id)
  unfolding send_all
  send_all-IsAccepted [] acc s i json method sorted run here absent = cc
  send_all-IsAccepted ((json0, method0) ∷ batch) acc s zero json method {ids} sorted run here
        absent =
      let (buffer, s1, id, posts, answers, rest) = send_step json0 method0 batch acc s run in
      let entry : ◌≡◌ {A = Text × Text} (json0, method0) (json, method) =
        some-injective (json0, method0) (json, method) here in
      let same_text : json0 ≡ json = ap (λ (e : Text × Text). e.0) entry in
      let first : find json0 acc ≡ none = ap (λ t. find t acc) same_text ∙ absent in
      (
        id,
        record {
          earlier = 0;
          ids = acc;
          sender = s;
          buffer = buffer;
          receiver = s1;
          before = refl;
          posts = subst (λ (e : Text × Text). request P s e.0 e.1 ≡ ok (buffer, s1)) entry posts;
          answers = answers;
        },
        subst (λ t. find t ids ≡ some id) same_text
            (send-kept batch (emplace json0 id acc) s1 json0 id rest
              (find-emplace_new json0 id acc first)),
      )
  send_all-IsAccepted ((json0, method0) ∷ batch) acc s (suc i) json method sorted run here absent =
      let (buffer, s1, id0, posts, answers, rest) = send_step json0 method0 batch acc s run in
      let differs = later_differs json0 method0 json method batch i sorted here in
      let (id, accepted, known) =
        send_all-IsAccepted batch (emplace json0 id0 acc) s1 i json method sorted.1 rest here
          (find-emplace_other json0 json id0 acc differs ∙ absent) in
      (
        id,
        record {
          earlier = suc accepted.earlier;
          ids = accepted.ids;
          sender = accepted.sender;
          buffer = accepted.buffer;
          receiver = accepted.receiver;
          before =
              send_onwards json0 method0 buffer id0 (take accepted.earlier batch) acc s s1 posts
                answers
              ∙ accepted.before;
          posts = accepted.posts;
          answers = accepted.answers;
        },
        known,
      )
