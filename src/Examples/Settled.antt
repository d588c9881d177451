-- ===== src/Examples/Settled.antt =====
-- A removal whose transaction's block the node names in its second answer, and which has a receipt.
use blockchain_db.Prelude.{
  ℕ, zero, suc, ◌<◌, ◌≡◌, refl, false, [], ◌∷◌, if◌then◌else◌, ok, pos, arith,
}
use blockchain_db.Prelude.Order.{same}
use blockchain_db.Text.{codes, text_lt}
use blockchain_db.Text.Order.{text_ord}
use blockchain_db.Map.{find}
use blockchain_db.Ethereum.{Ethereum, is_mined, has_status}
use blockchain_db.Ethereum.Mining.{polled, answer}
use blockchain_db.Ethereum.Settled.{mined}
use blockchain_db.Ethereum.Writes.{code_of, remove}
use blockchain_db.Ethereum.Writes.Completed.{remove-mined}
use blockchain_db.Examples.Memory.{bytes}
use blockchain_db.Examples.Node.{member_of}
use blockchain_db.Examples.Chain.{chain, url, connected}

abbrev start : Ethereum chain
start =
    connected (codes "-" ∷ codes "sent" ∷ codes "pending" ∷ codes "mined" ∷ codes "receipt" ∷ [])

abbrev waiting : Ethereum chain
waiting = record (connected (codes "pending" ∷ codes "mined" ∷ codes "receipt" ∷ [])) { nonce = 1 }

no_block_yet : (k : ℕ) → k < 1 → is_mined chain (answer chain url (codes "0x1") k waiting) ≡ false
unfolding is_mined answer member_of find same text_ord text_lt
no_block_yet zero h = refl
no_block_yet (suc k) h = absurd (omega arith)

remove-mined_example :
    remove chain start (bytes (7 ∷ []))
    ≡ ok (
      if has_status chain (codes "receipt")
          then code_of chain (answer chain url (codes "0x1") 1 waiting)
          else pos 1,
      record (mined chain url (codes "0x1") 1 waiting) { world = [] },
    )
unfolding is_mined answer polled member_of find same text_ord text_lt
remove-mined_example =
    remove-mined chain url start (bytes (7 ∷ [])) (codes "sent") (codes "0x1") (codes "receipt")
      (codes "pending" ∷ codes "mined" ∷ codes "receipt" ∷ []) [] 1 refl refl refl (omega arith)
      (omega arith) no_block_yet refl refl
