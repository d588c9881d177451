-- ===== src/Tables/Opened.antt =====
-- What `open` leaves in the map of the adapters.
use blockchain_db.Prelude.{ℕ, ℤ, ◌≡◌, Option, some, [], Result, ok}
use blockchain_db.Text.{Text, codes}
use blockchain_db.Text.Order.{text_ord}
use blockchain_db.Map.{emplace}
use blockchain_db.Commit.{Adapters}
use blockchain_db.Platform.{Platform}
use blockchain_db.Ethereum.{Ethereum}
use blockchain_db.Ethereum.Tables.{new_ethereum, ethereum, load_table}
use blockchain_db.Ethereum.Tables.Ready.{IsReady}
use blockchain_db.Tables.{json_text, with_adapter}
use blockchain_db.Tables.Metadata.{
  Server, between_slashes, after_last_slash, metadata_path, connection_part,
}

module _ (P : Platform) (S : Server) (w : P.World) where
  -- The connection string in the file with the metadata of a table.
  pub record IsDescribed (name : Text) (disk : S.Disk) (table_name connection_string : Text)
      : Type 0 where
    pub db_name : Text
    pub path : Text
    pub part : Text
    pub in_database : between_slashes name ≡ ok db_name
    pub named : after_last_slash name ≡ ok table_name
    pub in_file : metadata_path S P.replace_all db_name table_name disk ≡ ok path
    pub written : connection_part (S.first_line disk path) ≡ ok part
    pub unescaped :
        connection_string ≡ P.replace_all (P.replace_all part (codes "\\\\") []) (codes "\\") []

  -- An adapter of Ethereum that has reached its node and has been given the table's address.
  pub record IsOpened (connection_string table_name : Text) (a : Ethereum P) : Type 0 where
    pub json : P.Json
    pub table_address : Text
    pub ready : Ethereum P
    pub code : ℤ
    pub parsed : P.parse connection_string ≡ some json
    pub addressed : json_text P S (ethereum P w) json (codes "table_address") ≡ ok table_address
    pub connected : IsReady P S.data_home connection_string (new_ethereum P w) ready
    pub loads : load_table P ready table_name table_address ≡ ok (code, a)

  abbrev Open : Type 0
  Open = Adapters (ethereum P w)

  abbrev put_in : Text → Open → Option (Ethereum P) → Result (ℕ × Open)
  put_in name adapters a = ok (with_adapter P S (ethereum P w) name adapters a)

  abbrev IsTableOf : Text → S.Disk → Open → Open → Type 0
  IsTableOf name disk adapters adapters' =
      (table_name : Text) × (connection_string : Text) × (a : Ethereum P) × IsDescribed name disk
        table_name connection_string
      × IsOpened connection_string table_name a
      × (adapters' ≡ emplace name a adapters)
