-- ===== src/Ethereum/Reads/Nonce.antt =====
-- The nonce that a transaction carries after `update_nonce`.
use blockchain_db.Text.{Text}
use blockchain_db.Text.Order.{text_ord}
use blockchain_db.Platform.{Platform}
use blockchain_db.Ethereum.{Ethereum}
