-- ===== src/Ethereum/Tables/Connected.antt =====
-- What it means that `init_node` answers true.
use blockchain_db.Prelude.{
  ◌≡◌, refl, sym, ◌∙◌, ap, Bool, Bool-cases, inl, inr, true, false, Option, none, some, [], Result,
  ok, pos, ◌>>=◌, >>=-eq-ok, if◌then◌else◌,
}
use blockchain_db.Prelude.Order.{same}
use blockchain_db.Text.{Text, codes, text_lt}
use blockchain_db.Text.Order.{text_ord}
use blockchain_db.Map.{find}
use blockchain_db.Platform.{Platform}
use blockchain_db.Ethereum.{Ethereum, handle, post_data, request, call_method}
use blockchain_db.Ethereum.Reads.{contains_text, regex_search, line_match, next_lines}
use blockchain_db.Ethereum.Tables.{
  connection_url_key, max_waiting_time_key, waiting_time, new_curl, accounted, init_node,
}

module _ (P : Platform) where
  abbrev account_start : Text
  account_start = codes "\"result\":[\""

  -- What `init_node` makes of the answer to eth_accounts.
  abbrev asked : Text × Ethereum P → Result (Bool × Ethereum P)
  asked (response, s') =
      if contains_text (codes "error") response
      then ok (false, s')
      else ok (accounted P (regex_search account_start response) s')

  abbrev ready : Ethereum P → Text → Ethereum P
  ready s url = record s { max_waiting_time = 300000; curl = new_curl P s.world url }

  -- What the node at a URL answers to eth_accounts.
  abbrev accounts_answer : Ethereum P → Text → Text
  accounts_answer s url = (P.perform s.world url (post_data [] (codes "eth_accounts"))).0

  -- The adapter at the node, when the node has answered with an account.
  abbrev at_node : Ethereum P → Text → Text → Ethereum P
  at_node s url account = record s {
    max_waiting_time = 300000;
    curl = handle url;
    account_address = account;
    nonce = 0;
    world = (P.perform s.world url (post_data [] (codes "eth_accounts"))).1;
  }

  -- An adapter that has been connected to the node at a URL.
  pub record IsConnected (url : Text) (s t : Ethereum P) : Type 0 where
    pub account : Text
    pub has_handle : P.easy_init s.world ≡ true
    pub no_error : contains_text (codes "error") (accounts_answer s url) ≡ false
    pub account_found : regex_search account_start (accounts_answer s url) ≡ some account
    pub left : t ≡ at_node s url account

  init_node_lem :
      (s : Ethereum P) (url : Text)
      → find max_waiting_time_key s.config.numbers ≡ some (pos 300)
      → find connection_url_key s.config.texts ≡ some url
      → init_node P s ≡ (call_method P (ready s url) [] (codes "eth_accounts") >>= asked)
  unfolding init_node waiting_time
  init_node_lem s url e f = rw (e, f) refl

  abbrev accounted_at : Text → Ethereum P → Ethereum P
  accounted_at name s = record s { account_address = name; nonce = 0 }

  accounted-eq_true :
      (account : Option Text) (s t : Ethereum P)
      → accounted P account s ≡ (true, t)
      → (name : Text) × (account ≡ some name) × (t ≡ accounted_at name s)
  accounted-eq_true none s t e = cc
  accounted-eq_true (some name) s t e = (name, refl, cc)

  -- A refusal is no answer true.
  pub not_refused :
      {A : Type 0} (s t : Ethereum P)
      → ◌≡◌ {A = Result (Bool × Ethereum P)} (ok (false, s)) (ok (true, t))
      → A
  not_refused s t e = absurd (wrong e)
    where
      wrong : ◌≡◌ {A = Result (Bool × Ethereum P)} (ok (false, s)) (ok (true, t)) → ⊥
      wrong h = cc

  asked-eq_true :
      (response : Text) (s t : Ethereum P)
      → asked (response, s) ≡ ok (true, t)
      → (name : Text) × (contains_text (codes "error") response ≡ false)
        × (regex_search account_start response ≡ some name)
        × (t ≡ accounted_at name s)
  asked-eq_true response s t e = elim (Bool-cases (contains_text (codes "error") response)) [
    | inl bad ↦ not_refused s t (rw bad at e)
    | inr good ↦
        let answered : ◌≡◌ {A = Result (Bool × Ethereum P)}
            (ok (accounted P (regex_search account_start response) s)) (ok (true, t)) =
          rw good at e in
        let (name, matched, end) = accounted-eq_true (regex_search account_start response) s t cc in
        (name, good, matched, end)
  ]

  -- Without a handle nothing is received, so that there is no account in it.
  no_answer :
      (s : Ethereum P) (url : Text)
      → P.easy_init s.world ≡ false
      → call_method P (ready s url) [] (codes "eth_accounts") ≡ ok ([], ready s url)
  unfolding call_method request
  no_answer s url e = rw e refl

  no_account : regex_search account_start [] ≡ none
  unfolding regex_search line_match next_lines
  no_account = refl

  -- The adapter with its handle, after the answer.
  abbrev answered_node : Ethereum P → Text → Ethereum P
  answered_node s url = record s {
    max_waiting_time = 300000;
    curl = handle url;
    world = (P.perform s.world url (post_data [] (codes "eth_accounts"))).1;
  }

  node_answer :
      (s : Ethereum P) (url : Text)
      → P.easy_init s.world ≡ true
      → call_method P (ready s url) [] (codes "eth_accounts")
        ≡ ok (accounts_answer s url, answered_node s url)
  unfolding call_method request same text_ord text_lt
  node_answer s url e = rw e refl

  same_answer :
      {response r : Text} {u v : Ethereum P}
      → ◌≡◌ {A = Result (Text × Ethereum P)} (ok (response, u)) (ok (r, v))
      → (response ≡ r) × (u ≡ v)
  same_answer h = (cc, cc)

  unmatched : (name r : Text) → [] ≡ r → regex_search account_start r ≡ some name → ⊥
  unmatched name r h f =
      let g : regex_search account_start [] ≡ some name = ap (regex_search account_start) h ∙ f in
      let none_there = no_account in cc

  connected_at :
      (s s' : Ethereum P) (url name response : Text)
      → call_method P (ready s url) [] (codes "eth_accounts") ≡ ok (response, s')
      → regex_search account_start response ≡ some name
      → (P.easy_init s.world ≡ true)
        × (response ≡ accounts_answer s url)
        × (s' ≡ answered_node s url)
  connected_at s s' url name response received found = elim (Bool-cases (P.easy_init s.world)) [
    | inl e ↦
        let (answer, same_node) = same_answer (sym received ∙ node_answer s url e) in
        (e, answer, same_node)
    | inr e ↦
        absurd (unmatched name response (same_answer (sym (no_answer s url e) ∙ received)).0 found)
  ]

  pub init_node-IsConnected :
      (s t : Ethereum P) (url : Text)
      → find max_waiting_time_key s.config.numbers ≡ some (pos 300)
      → find connection_url_key s.config.texts ≡ some url
      → init_node P s ≡ ok (true, t)
      → IsConnected url s t
  init_node-IsConnected s t url e f run =
      let ((response, s'), received, answered) =
        >>=-eq-ok (call_method P (ready s url) [] (codes "eth_accounts")) asked
          (sym (init_node_lem s url e f) ∙ run) in
      let (name, no_error, account, end) = asked-eq_true response s' t answered in
      let (has_handle, answer, same_node) = connected_at s s' url name response received account in
      record {
        account = name;
        has_handle = has_handle;
        no_error = ap (contains_text (codes "error")) (sym answer) ∙ no_error;
        account_found = ap (regex_search account_start) (sym answer) ∙ account;
        left = end ∙ ap (accounted_at name) same_node;
      }

  asked-account :
      (s : Ethereum P) (url account : Text)
      → contains_text (codes "error") (accounts_answer s url) ≡ false
      → regex_search account_start (accounts_answer s url) ≡ some account
      → asked (accounts_answer s url, answered_node s url) ≡ ok (true, at_node s url account)
  asked-account s url account no_error found = rw (no_error, found) refl

  pub IsConnected-init_node :
      (s t : Ethereum P) (url : Text)
      → find max_waiting_time_key s.config.numbers ≡ some (pos 300)
      → find connection_url_key s.config.texts ≡ some url
      → IsConnected url s t
      → init_node P s ≡ ok (true, t)
  IsConnected-init_node s t url e f c =
      init_node_lem s url e f
      ∙ ap (λ r. r >>= asked) (node_answer s url c.has_handle)
      ∙ asked-account s url c.account c.no_error c.account_found
      ∙ ap (λ u. ok (true, u)) (sym c.left)
