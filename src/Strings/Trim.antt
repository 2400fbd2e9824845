-- ===== src/Strings/Trim.antt =====
-- strings.TrimSpace and strings.TrimRight, on the code points of a text.
use Prim.Native.Char.{Char, code}
use Prim.Native.String.{String}
use golang_staterpack.Prelude.{ℕ, Bool, true, false, ◌&&◌, ◌||◌, if◌then◌else◌, leb, ◌==◌}

abbrev pub is_empty : String → Bool
is_empty String.[] = true
is_empty (String.◌∷◌ c s) = false

module _ (cut : Char → Bool) where
  unfoldable pub trim_left : String → String
  trim_left String.[] = String.[]
  trim_left (String.◌∷◌ c s) = if cut c then trim_left s else String.◌∷◌ c s

  unfoldable pub attach : Char → String → String
  attach c s = if is_empty s && cut c then String.[] else String.◌∷◌ c s

  unfoldable pub trim_right : String → String
  trim_right String.[] = String.[]
  trim_right (String.◌∷◌ c s) = attach c (trim_right s)

-- `unicode.IsSpace`.
abbrev is_space : ℕ → Bool
is_space c =
    leb 9 c && leb c 13
    || c == 0x20
    || c == 0x85
    || c == 0xA0
    || c == 0x1680
    || leb 0x2000 c && leb c 0x200A
    || c == 0x2028
    || c == 0x2029
    || c == 0x202F
    || c == 0x205F
    || c == 0x3000

abbrev pub space_char : Char → Bool
space_char c = is_space (code c)

unfoldable pub trim_space : String → String
unfolding trim_left trim_right attach
trim_space s = trim_left space_char (trim_right space_char s)

abbrev slash_char : Char → Bool
slash_char c = code c == b'/'

-- `strings.TrimRight(s, "/")`.
unfoldable pub trim_slashes : String → String
unfolding trim_right attach
trim_slashes s = trim_right slash_char s
