-- ===== src/Strconv/Integers.antt =====
-- strconv.Atoi of the standard library, on the code points of a text: an optional sign and decimal
-- digits, with a value that an int64 holds.
use golang_staterpack.Prelude.{
  ℕ, ◌+◌, ◌-◌, ◌*◌, ◌^◌, ℤ, pos, String, List, [], ◌∷◌, Option, none, some, if◌then◌else◌, ltb,
  ◌==◌,
}
use golang_staterpack.Strconv.Codes.{codes, is_digit, negative}

-- The digits read so far, and the rest.
digits_from : ℕ → List ℕ → Option ℕ
digits_from acc [] = some acc
digits_from acc (c ∷ cs) =
    let more = digits_from (acc * 10 + (c - b'0')) cs in if is_digit c then more else none

digits : List ℕ → Option ℕ
digits [] = none
digits (c ∷ cs) = digits_from 0 (c ∷ cs)

abbrev in_range : ℕ → (ℕ → ℤ) → Option ℕ → Option ℤ
in_range limit sign none = none
in_range limit sign (some n) = if ltb limit n then none else some (sign n)

parse_signed : List ℕ → Option ℤ
parse_signed [] = none
parse_signed (c ∷ cs) =
    if c == b'-'
    then in_range (2 ^ 63) negative (digits cs)
    else if c == b'+'
    then in_range (2 ^ 63 - 1) pos (digits cs)
    else in_range (2 ^ 63 - 1) pos (digits (c ∷ cs))

-- `none` where `Atoi` returns an error.
unfoldable pub atoi : String → Option ℤ
unfolding parse_signed digits digits_from is_digit
atoi s = parse_signed (codes s)
