-- ===== src/Platform.antt =====
-- What the Ethereum adapter uses of other projects and of the machine: libcurl, processes, the clock,
-- the JSON library nlohmann/json (adapter/utils/src/json.hpp), and Boost's `replace_all` and
-- `read_ini`. And `exec` of adapter/utils/src/shell_helpers.cpp over it.
use blockchain_db.Prelude.{
  ℕ, zero, Bool, true, false, Option, none, some, [], ◌∷◌, ◌==◌, if◌then◌else◌, ℤ, pos, Result, ok,
  fault, runtime_error, undefined, json_error, ◌>>=◌,
}
use blockchain_db.Text.{Text}
use blockchain_db.Map.{Map}

-- A property tree: its texts and its numbers by their paths.
pub record Config : Type 0 where
  pub texts : Map Text Text
  pub numbers : Map Text ℤ

pub record Platform : Type 1 where
  -- everything outside of the program
  pub World : Type 0
  -- `curl_easy_init` does not return a null pointer
  pub easy_init : World → Bool
  -- `curl_easy_perform` at a URL with the data of a POST, and all that the write callback was given
  pub perform : World → Text → Text → Text × World
  -- `popen`, the output of the command and the code of `pclose`; `none` if `popen` fails
  pub popen : World → Text → Option (Text × ℤ) × World
  pub sleep_for : World → ℕ → World
  pub read_ini : World → Text → Result Config
  -- `boost::replace_all`: the text, what is looked for, and what it is replaced by
  pub replace_all : Text → Text → Text → Text
  -- nlohmann::json; `none` is an exception of the library
  pub Json : Type 0
  pub null : Json
  pub parse : Text → Option Json
  pub has : Json → Text → Bool
  pub at : Json → Text → Option Json
  -- `operator[]` to read: a member that is missing is null
  pub index : Json → Text → Option Json
  pub is_null : Json → Bool
  pub get_string : Json → Option Text
  -- `json[key] = text`
  pub put_string : Json → Text → Text → Option Json
  pub dump : Json → Text

-- An exception of the JSON library that is not caught.
abbrev pub thrown {ℓ} : {A : Type ℓ} → Option A → Result A
thrown none = fault json_error
thrown (some a) = ok a

-- The loop that takes the new lines off the end. `none` stands for a text that is empty before the
-- loop ends, whose `back` is undefined.
unfoldable pub strip : Text → Option Text
strip [] = none
strip (c ∷ cs) = elim (strip cs) [
  | some t ↦ some (c ∷ t)
  | none ↦ if c == 10 then none else some (c ∷ [])
]

abbrev pub back_defined : Option Text → Result Text
back_defined none = fault undefined
back_defined (some t) = ok t

-- EXIT_SUCCESS.
abbrev pub is_success : ℤ → Bool
is_success (pos zero) = true
is_success _ = false

module _ (P : Platform) where
  abbrev pub popened : Option (Text × ℤ) × P.World → Result (Text × ℤ × P.World)
  popened (none, w) = fault runtime_error
  popened (some (output, code), w) = ok (output, code, w)

  -- `exec(cmd, &exec_success)`.
  unfoldable pub exec_success : P.World → Text → Result (Bool × Text × P.World)
  unfolding strip
  exec_success w cmd = do
    (output, code, w') ← popened (P.popen w cmd)
    result ← back_defined (strip output)
    ok (is_success code, result, w')

  -- `exec(cmd)`.
  unfoldable pub exec : P.World → Text → Result (Text × P.World)
  exec w cmd = do
    (success, result, w') ← exec_success w cmd
    if success then ok (result, w') else fault runtime_error
