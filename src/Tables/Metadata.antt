-- ===== src/Tables/Metadata.antt =====
-- ha_blockchain.cc: the file with the metadata of a table, and the parts of the names and of the file
-- that `create` and `open` take.
use blockchain_db.Prelude.{
  ℕ, suc, ◌+◌, ◌-◌, ◌%◌, ◌^◌, Bool, false, Option, none, some, List, [], ◌∷◌, ◌++◌, length, drop,
  leb, ◌==◌, ◌&&◌, if◌then◌else◌, Result, ok, ◌>>=◌,
}
use blockchain_db.Prelude.Order.{same}
use blockchain_db.Text.{Text, codes, substr, substr_from, starts_with}
use blockchain_db.Text
use blockchain_db.Text.Order.{text_ord}

-- `mysql_real_data_home` and the files: the paths of a directory in their order (which throws where
-- there is none), the first line of a file (empty where it does not open), and a file written anew.
pub record Server : Type 1 where
  pub Disk : Type 0
  pub data_home : Text
  pub paths : Disk → Text → Result (List Text)
  pub first_line : Disk → Text → Text
  pub write : Disk → Text → Text → Disk

abbrev pub npos : ℕ
npos = 2 ^ 64 - 1

abbrev pub or_npos : Option ℕ → ℕ
or_npos none = npos
or_npos (some i) = i

-- `find_last_of('/')`.
unfoldable pub last_slash : Text → Option ℕ
last_slash [] = none
last_slash (c ∷ cs) = elim (last_slash cs) [
  | some i ↦ some (suc i)
  | none ↦ if c == 47 then some 0 else none
]

-- A sum and a difference of two size_t.
abbrev pub plus : ℕ → ℕ → ℕ
plus a b = (a + b) % 2 ^ 64

abbrev pub minus : ℕ → ℕ → ℕ
minus a b = (a + (2 ^ 64 - b)) % 2 ^ 64

-- The name of the database in "./database/table".
unfoldable pub between_slashes : Text → Result Text
unfolding last_slash
between_slashes name =
    let first = plus (or_npos (Text.find (codes "/") name)) 1 in
    substr name first (minus (or_npos (last_slash name)) first)

unfoldable pub after_last_slash : Text → Result Text
unfolding last_slash
after_last_slash name = substr name (plus (or_npos (last_slash name)) 1) (length name)

-- What stands behind "connection_string=" up to the next semicolon. Where that is not in the text, the
-- position of npos and 18 wraps to 17.
unfoldable pub connection_part : Text → Result Text
connection_part table_metadata = do
  cut ←
      substr_from table_metadata
        (plus (or_npos (Text.find (codes "connection_string=") table_metadata)) 18)
  substr cut 0 (or_npos (Text.find (codes ";") cut))

-- `[0-9]+\.sdi`, from the second digit on.
unfoldable pub sdi_end : Text → Bool
sdi_end [] = false
sdi_end (c ∷ cs) =
    let rest = sdi_end cs in if leb 48 c && leb c 57 then rest else same (c ∷ cs) (codes ".sdi")

abbrev is_digit : ℕ → Bool
is_digit c = leb 48 c && leb c 57

abbrev sdi_digits : Text → Bool
sdi_digits [] = false
sdi_digits (c ∷ cs) = is_digit c && sdi_end cs

-- The name of the file is the table's, `_`, digits and ".sdi". The code makes a regular expression of
-- the table's name, which stands for itself if it has only letters, digits and `_`.
unfoldable pub is_metadata_file : Text → Text → Bool
unfolding sdi_end
is_metadata_file table_name file_name =
    starts_with (table_name ++ codes "_") file_name
    && sdi_digits (drop (length (table_name ++ codes "_")) file_name)

module _ (S : Server) (replace_all : Text → Text → Text → Text) where
  -- The loop over the directory: with no file that matches, the last path stays.
  unfoldable pub search_directory : Text → Text → List Text → Text → Text
  search_directory path_to_dir table_name [] path_to_file = path_to_file
  search_directory path_to_dir table_name (path ∷ paths) path_to_file =
      let later = search_directory path_to_dir table_name paths path in
      if is_metadata_file table_name (replace_all path path_to_dir []) then path else later

  unfoldable pub metadata_path : Text → Text → S.Disk → Result Text
  unfolding search_directory
  metadata_path db_name table_name disk = do
    let path_to_dir = S.data_home ++ (db_name ++ codes "/")
    paths ← S.paths disk path_to_dir
    ok (search_directory path_to_dir table_name paths [])
