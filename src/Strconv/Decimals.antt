-- ===== src/Strconv/Decimals.antt =====
-- strconv.Itoa of the standard library.
use golang_staterpack.Prelude.{
  ℕ, zero, suc, ◌+◌, ◌/◌, ◌%◌, ℤ, pos, negsuc, String, if◌then◌else◌, ltb, ◌==◌,
}
use Prim.Native.String.{◌++◌}

abbrev digit : ℕ → String
digit n =
    if n == 0
    then "0"
    else if n == 1
    then "1"
    else if n == 2
    then "2"
    else if n == 3
    then "3"
    else if n == 4
    then "4"
    else if n == 5
    then "5"
    else if n == 6
    then "6"
    else if n == 7
    then "7"
    else if n == 8
    then "8"
    else "9"

-- At most `k` digits.
decimal : ℕ → ℕ → String
decimal zero n = ""
decimal (suc k) n =
    let more = decimal k (n / 10) ++ digit (n % 10) in if ltb n 10 then digit n else more

-- A number of 64 bits has at most 20 digits.
unfoldable pub itoa : ℤ → String
unfolding decimal
itoa (pos n) = decimal 20 n
itoa (negsuc n) = "-" ++ decimal 20 (n + 1)
