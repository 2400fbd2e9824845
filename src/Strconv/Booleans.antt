-- ===== src/Strconv/Booleans.antt =====
-- strconv.ParseBool of the standard library.
use golang_staterpack.Prelude.{
  String, Bool, true, false, ◌||◌, Option, none, some, if◌then◌else◌, str_eq,
}

abbrev is_true_text : String → Bool
is_true_text s =
    str_eq s "1"
    || str_eq s "t"
    || str_eq s "T"
    || str_eq s "TRUE"
    || str_eq s "true"
    || str_eq s "True"

abbrev is_false_text : String → Bool
is_false_text s =
    str_eq s "0"
    || str_eq s "f"
    || str_eq s "F"
    || str_eq s "FALSE"
    || str_eq s "false"
    || str_eq s "False"

-- `none` where `ParseBool` returns an error.
unfoldable pub parse_bool : String → Option Bool
parse_bool s = if is_true_text s then some true else if is_false_text s then some false else none
