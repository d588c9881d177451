-- ===== src/Examples/Node.antt =====
-- A node whose answers are given beforehand, on a machine with libraries that are written down as far
-- as the examples need them.
use blockchain_db.Prelude.{
  ℕ, zero, suc, ◌-◌, Bool, true, false, Option, none, some, List, [], ◌∷◌, ◌++◌, length,
  if◌then◌else◌, pos, fault, runtime_error,
}
use blockchain_db.Prelude.Order.{same}
use blockchain_db.Text.{Text, codes, starts_with}
use blockchain_db.Text.Order.{text_ord}
use blockchain_db.Map.{Map, find, is_some}
use blockchain_db.Platform.{Platform}

-- A value, whose objects are built member by member.
pub data Value : Type 0 where
  null_value empty_object : Value
  text_value : Text → Value
  with_member : Text → Value → Value → Value

unfoldable pub member_of : Value → Text → Option Value
member_of (with_member k v rest) key = if same k key then some v else member_of rest key
member_of null_value key = none
member_of empty_object key = none
member_of (text_value t) key = none

abbrev or_null : Option Value → Value
or_null none = null_value
or_null (some v) = v

abbrev is_null_value : Value → Bool
is_null_value null_value = true
is_null_value empty_object = false
is_null_value (text_value t) = false
is_null_value (with_member k v rest) = false

abbrev text_of : Value → Option Text
text_of (text_value t) = some t
text_of null_value = none
text_of empty_object = none
text_of (with_member k v rest) = none

abbrev quoted_text : Text → Text
quoted_text t = codes "\"" ++ (t ++ codes "\"")

unfoldable pub dumped : Value → Text
dumped null_value = codes "null"
dumped empty_object = []
dumped (text_value t) = quoted_text t
dumped (with_member k v rest) =
    quoted_text k ++ (codes ":" ++ (dumped v ++ (codes "," ++ dumped rest)))

-- Every place of a text is replaced, from the front; the number counts what is to be skipped.
unfoldable pub replaced : Text → Text → ℕ → Text → Text
replaced what by skip [] = []
replaced what by (suc skip) (c ∷ cs) = replaced what by skip cs
replaced what by zero (c ∷ cs) =
    let jump = replaced what by (length what - 1) cs in
    let stay = replaced what by 0 cs in if starts_with what (c ∷ cs) then by ++ jump else c ∷ stay

abbrev next_answer : List Text → Text × List Text
next_answer [] = ([], [])
next_answer (answer ∷ answers) = (answer, answers)

-- The texts that the machine can parse are given with their values.
abbrev pub machine : Map Text Value → Platform
machine parsed = record {
  World = List Text;
  easy_init = λ w. true;
  perform = λ w url post. next_answer w;
  popen = λ w cmd. (some ((next_answer w).0, pos 0), (next_answer w).1);
  sleep_for = λ w ms. w;
  read_ini = λ w path. fault runtime_error;
  replace_all = λ s what by. replaced what by 0 s;
  Json = Value;
  null = null_value;
  parse = λ t. find t parsed;
  has = λ v key. is_some (member_of v key);
  at = λ v key. member_of v key;
  index = λ v key. some (or_null (member_of v key));
  is_null = is_null_value;
  get_string = text_of;
  put_string = λ v key t. some (with_member key (text_value t) v);
  dump = dumped;
}
