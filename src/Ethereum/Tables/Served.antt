-- ===== src/Ethereum/Tables/Served.antt =====
-- The life of an adapter between `init` and `shutdown`: the engine's calls, in any order.
use blockchain_db.Prelude.{ℤ, ◌≡◌, refl, ap, ◌∙◌, true, ok, Ensures-eq_ok}
use blockchain_db.Bytes.{Bytes}
use blockchain_db.Text.{Text}
use blockchain_db.Adapter.{Batch}
use blockchain_db.Platform.{Platform}
use blockchain_db.Ethereum.{Ethereum, handle, closed}
use blockchain_db.Ethereum.Kept.{IsSameNode, IsSameNode-refl, IsSameNode-trans}
use blockchain_db.Ethereum.Reads.{get, get_all}
use blockchain_db.Ethereum.Reads.Kept.{get-Keeps, get_all-Keeps}
use blockchain_db.Ethereum.Writes.{put, put_batch, remove}
use blockchain_db.Ethereum.Writes.Kept.{put-Keeps, put_batch-Keeps, remove-Keeps}
use blockchain_db.Ethereum.Tables.{create_table, load_table, drop_table, shutdown, init}
use blockchain_db.Ethereum.Tables.Ready.{init-IsReady}
use blockchain_db.Ethereum.Tables.Networked.{node_url}
use blockchain_db.Ethereum.Tables.Kept.{create_table-Keeps, load_table-Keeps, drop_table-Keeps}

module _ (P : Platform) where
  -- One call that returns, from the adapter before it to the one after it, with any arguments and
  -- whatever it answers.
  pub data Step : Ethereum P → Ethereum P → Type 0 where
    gets :
        {s t : Ethereum P} (key result value : Bytes) (code : ℤ)
        → get P s key result ≡ ok (code, value, t)
        → Step s t
    gets_all :
        {s t : Ethereum P} (rows : Batch) (code : ℤ) → get_all P s ≡ ok (code, rows, t) → Step s t
    puts :
        {s t : Ethereum P} (batch left : Batch) (code : ℤ)
        → put P s batch ≡ ok (code, left, t)
        → Step s t
    puts_batch :
        {s t : Ethereum P} (batch : Batch) (code : ℤ)
        → put_batch P s batch ≡ ok (code, t)
        → Step s t
    removes : {s t : Ethereum P} (key : Bytes) (code : ℤ) → remove P s key ≡ ok (code, t) → Step s t
    creates :
        {s t : Ethereum P} (name before address : Text) (code : ℤ)
        → create_table P s name before ≡ ok (code, address, t)
        → Step s t
    loads :
        {s t : Ethereum P} (name address : Text) (code : ℤ)
        → load_table P s name address ≡ ok (code, t)
        → Step s t
    drops : {s t : Ethereum P} (code : ℤ) → drop_table P s ≡ ok (code, t) → Step s t

  -- Any number of calls.
  pub data Served : Ethereum P → Ethereum P → Type 0 where
    not_called : {s : Ethereum P} → Served s s
    called : {s t u : Ethereum P} → Step s t → Served t u → Served s u

  Step-IsSameNode : (s t : Ethereum P) → Step s t → IsSameNode P s t
  Step-IsSameNode s t (gets key result value code e) =
      Ensures-eq_ok (λ r. IsSameNode P s r.2) (get P s key result) (get-Keeps P s key result) e
  Step-IsSameNode s t (gets_all rows code e) =
      Ensures-eq_ok (λ r. IsSameNode P s r.2) (get_all P s) (get_all-Keeps P s) e
  Step-IsSameNode s t (puts batch left code e) =
      Ensures-eq_ok (λ r. IsSameNode P s r.2) (put P s batch) (put-Keeps P s batch) e
  Step-IsSameNode s t (puts_batch batch code e) =
      Ensures-eq_ok (λ r. IsSameNode P s r.1) (put_batch P s batch) (put_batch-Keeps P s batch) e
  Step-IsSameNode s t (removes key code e) =
      Ensures-eq_ok (λ r. IsSameNode P s r.1) (remove P s key) (remove-Keeps P s key) e
  Step-IsSameNode s t (creates name before address code e) =
      Ensures-eq_ok (λ r. IsSameNode P s r.2) (create_table P s name before)
        (create_table-Keeps P s name before) e
  Step-IsSameNode s t (loads name address code e) =
      Ensures-eq_ok (λ r. IsSameNode P s r.1) (load_table P s name address)
        (load_table-Keeps P s name address) e
  Step-IsSameNode s t (drops code e) =
      Ensures-eq_ok (λ r. IsSameNode P s r.1) (drop_table P s) (drop_table-Keeps P s) e

  Served-IsSameNode : (s t : Ethereum P) → Served s t → IsSameNode P s t
  Served-IsSameNode s t not_called = IsSameNode-refl P s
  Served-IsSameNode s t (called {t = m} first later) =
      IsSameNode-trans P s m t (Step-IsSameNode s m first) (Served-IsSameNode m t later)

  shutdown_lem :
      (s : Ethereum P) (url : Text)
      → s.curl ≡ handle url
      → shutdown P s ≡ ok (true, record s { curl = closed })
  unfolding shutdown
  shutdown_lem s url e = rw e refl

  -- After an `init` that answers true, whatever calls the adapter serves, in whatever order and with
  -- whatever answers: its handle, its waiting time, its settings and its account are those that `init`
  -- left, and `shutdown` returns true and closes the handle.
  pub shutdown-Served :
      (s t u : Ethereum P) (dir connection_string : Text)
      → init P s dir connection_string ≡ ok (true, t)
      → Served t u
      → IsSameNode P t u × (shutdown P u ≡ ok (true, record u { curl = closed }))
  shutdown-Served s t u dir connection_string run calls =
      let kept = Served-IsSameNode t u calls in
      let ready = init-IsReady P s t dir connection_string run in
      (
        kept,
        shutdown_lem u (node_url P ready.join_ip ready.rpc_port)
            (kept.same_curl ∙ ap (λ r. r.curl) ready.connected.left),
      )
