-- ===== src/Strconv/Durations.antt =====
-- time.ParseDuration of the standard library, on the code points of a text. The text is cut into
-- runs of digits, periods and unit names; a component is a number and the name that follows it.
use golang_staterpack.Prelude.{
  ℕ, ◌+◌, ◌-◌, ◌*◌, ◌/◌, ◌%◌, ◌^◌, ℤ, pos, String, Bool, true, false, ◌&&◌, ◌||◌, List, [], ◌∷◌,
  Option, none, some, if◌then◌else◌, ltb, ◌==◌,
}
use mathlib.Core.Option
use golang_staterpack.Strconv.Codes.{codes, is_digit, negative}

pub data Token : Type 0 where
  digits : List ℕ → Token
  period : Token
  name : List ℕ → Token

add_digit : ℕ → List Token → List Token
add_digit c (digits cs ∷ ts) = digits (c ∷ cs) ∷ ts
add_digit c ts = digits (c ∷ []) ∷ ts

add_letter : ℕ → List Token → List Token
add_letter c (name cs ∷ ts) = name (c ∷ cs) ∷ ts
add_letter c ts = name (c ∷ []) ∷ ts

tokens : List ℕ → List Token
unfolding add_digit add_letter is_digit
tokens [] = []
tokens (c ∷ cs) =
    let ts = tokens cs in
    if is_digit c then add_digit c ts else if c == b'.' then period ∷ ts else add_letter c ts

abbrev same_codes : List ℕ → List ℕ → Bool
same_codes [] [] = true
same_codes (c ∷ cs) (d ∷ ds) = c == d && same_codes cs ds
same_codes _ _ = false

-- `unitMap`; the two signs for micro are U+00B5 and U+03BC.
nanoseconds : List ℕ → Option ℕ
nanoseconds u =
    if same_codes u (codes "ns")
    then some 1
    else if same_codes u (codes "us")
        || same_codes u (0xB5 ∷ b's' ∷ [])
        || same_codes u (0x3BC ∷ b's' ∷ [])
    then some 1000
    else if same_codes u (codes "ms")
    then some 1000000
    else if same_codes u (codes "s")
    then some 1000000000
    else if same_codes u (codes "m")
    then some 60000000000
    else if same_codes u (codes "h")
    then some 3600000000000
    else none

-- `leadingInt`.
leading_int : ℕ → List ℕ → Option ℕ
leading_int x [] = some x
leading_int x (c ∷ cs) =
    let next = x * 10 + (c - b'0') in
    let rest = leading_int next cs in
    if ltb (2 ^ 63 / 10) x then none else if ltb (2 ^ 63) next then none else rest

-- `fraction ds unit` is the count of nanoseconds that the digits after the period stand for, which
-- Go computes in floating point.
module _ (fraction : List ℕ → ℕ → ℕ) where
  abbrev part : List ℕ → ℕ → ℕ
  part [] unit = 0
  part (c ∷ cs) unit = fraction (c ∷ cs) unit

  scaled : List ℕ → ℕ → ℕ → Option ℕ
  scaled fs unit v =
      let whole = v * unit in
      let all = (whole + part fs unit) % 2 ^ 64 in
      if ltb (2 ^ 63 / unit) v then none else if ltb (2 ^ 63) all then none else some all

  component : List ℕ → List ℕ → List ℕ → Option ℕ
  unfolding scaled leading_int nanoseconds
  component ds fs u = elim (leading_int 0 ds) [
    | none ↦ none
    | some v ↦ elim (nanoseconds u) [ none ↦ none | some unit ↦ scaled fs unit v ]
  ]

  -- The sum wraps at 64 bits before it is tested.
  add_component : ℕ → Option ℕ → Option ℕ
  add_component d none = none
  add_component d (some v) =
      let sum = (d + v) % 2 ^ 64 in if ltb (2 ^ 63) sum then none else some sum

  -- The components in turn, after `d` nanoseconds.
  components : List Token → ℕ → Option ℕ
  unfolding component add_component
  components [] d = some d
  components (digits ds ∷ name u ∷ ts) d = elim (add_component d (component ds [] u)) [
    | none ↦ none
    | some e ↦ components ts e
  ]
  components (digits ds ∷ period ∷ digits fs ∷ name u ∷ ts) d =
      elim (add_component d (component ds fs u)) [ none ↦ none | some e ↦ components ts e ]
  components (digits ds ∷ period ∷ name u ∷ ts) d = elim (add_component d (component ds [] u)) [
    | none ↦ none
    | some e ↦ components ts e
  ]
  components (period ∷ digits fs ∷ name u ∷ ts) d = elim (add_component d (component [] fs u)) [
    | none ↦ none
    | some e ↦ components ts e
  ]
  components _ d = none

  magnitude : List ℕ → Option ℕ
  unfolding components tokens
  magnitude [] = none
  magnitude (c ∷ cs) =
      if same_codes (c ∷ cs) (codes "0") then some 0 else components (tokens (c ∷ cs)) 0

  abbrev positive : Option ℕ → Option ℤ
  positive none = none
  positive (some d) = if ltb (2 ^ 63 - 1) d then none else some (pos d)

  signed : List ℕ → Option ℤ
  unfolding magnitude
  signed [] = none
  signed (c ∷ cs) =
      if c == b'-'
      then Option.map negative (magnitude cs)
      else if c == b'+'
      then positive (magnitude cs)
      else positive (magnitude (c ∷ cs))

  -- `none` where `ParseDuration` returns an error.
  unfoldable pub parse_duration : String → Option ℤ
  unfolding signed
  parse_duration s = signed (codes s)
