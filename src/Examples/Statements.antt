-- ===== src/Examples/Statements.antt =====
-- The files of a server with one table, and `create`, `open` and `close` at them.
use blockchain_db.Prelude.{◌≡◌, refl, Option, none, some, List, [], ◌∷◌, ok}
use blockchain_db.Prelude.Order.{same}
use blockchain_db.Text.{Text, codes, text_lt, starts_with, substr, substr_from}
use blockchain_db.Text
use blockchain_db.Text.Order.{text_ord}
use blockchain_db.Map.{Map, find, assign, emplace}
use blockchain_db.Commit.{Adapters}
use blockchain_db.Platform.{Platform}
use blockchain_db.Tables.{open_table, opened_adapter}
use blockchain_db.Tables.Factory.{get_bc_type, create_adapter}
use blockchain_db.Tables.Metadata.{
  Server, last_slash, between_slashes, after_last_slash, connection_part, sdi_end, is_metadata_file,
  search_directory, metadata_path,
}
use blockchain_db.Examples.Memory.{memory, stock}
use blockchain_db.Examples.Node.{
  Value, empty_object, text_value, with_member, machine, member_of, replaced,
}

abbrev paths_of : Map Text Text → List Text
paths_of [] = []
paths_of ((path, line) ∷ files) = path ∷ paths_of files

abbrev line_or_empty : Option Text → Text
line_or_empty none = []
line_or_empty (some line) = line

abbrev pub server : Server
server = record {
  Disk = Map Text Text;
  data_home = codes "d/";
  paths = λ disk directory. ok (paths_of disk);
  first_line = λ disk path. line_or_empty (find path disk);
  write = λ disk path text. assign path text disk;
}

abbrev metadata_file : Text
metadata_file = codes "d/shop/stock_7.sdi"

abbrev pub disk : Map Text Text
disk = (metadata_file, codes "connection_string=q;") ∷ []

-- What the connection strings of the examples hold.
abbrev settings : Value
settings =
    with_member (codes "table_address") (text_value (codes "0xc"))
      (with_member (codes "bc_type") (text_value (codes "ETHEREUM")) empty_object)

abbrev linked : Platform
linked = machine ((codes "q", settings) ∷ (codes "table_address", settings) ∷ [])

abbrev opened : Adapters memory
opened = (stock, []) ∷ []

opens : open_table linked server memory stock disk [] ≡ ok (0, opened)
unfolding open_table opened_adapter get_bc_type create_adapter between_slashes after_last_slash
    last_slash Text.find starts_with find same text_ord text_lt member_of connection_part
    metadata_path search_directory is_metadata_file sdi_end replaced substr substr_from emplace
opens = refl
