-- ===== src/Strings/Lower.antt =====
-- strings.ToLower, compared with a word of ASCII.
use golang_staterpack.Prelude.{
  ℕ, ◌+◌, String, Bool, true, false, ◌&&◌, List, [], ◌∷◌, map, if◌then◌else◌, leb, ◌==◌,
}
use golang_staterpack.Strconv.Codes.{codes}

-- `unicode.ToLower` as far as it gives a letter of ASCII: the capitals, and two letters beyond ASCII.
-- Any other letter stays what it is, or becomes one beyond ASCII, which no word of ASCII has.
abbrev pub lower : ℕ → ℕ
lower c =
    if leb b'A' c && leb c b'Z'
    then c + 32
    else if c == 0x130
    then b'i'
    else if c == 0x212A
    then b'k'
    else c

abbrev pub same_codes : List ℕ → List ℕ → Bool
same_codes [] [] = true
same_codes (c ∷ cs) (d ∷ ds) = (c == d) && same_codes cs ds
same_codes _ _ = false

-- `strings.ToLower(s) == word`.
unfoldable pub lowers_to : String → String → Bool
lowers_to s word = same_codes (map lower (codes s)) (codes word)
