-- ===== src/Strconv/Codes.antt =====
-- The code points of a text, and the digits among them.
use Prim.Native.Char.{code}
use golang_staterpack.Prelude.{ℕ, ℤ, pos, negsuc, zero, suc, String, Bool, ◌&&◌, List, [], ◌∷◌, leb}

abbrev pub codes : String → List ℕ
codes String.[] = []
codes (String.◌∷◌ c s) = code c ∷ codes s

unfoldable pub is_digit : ℕ → Bool
is_digit c = leb b'0' c && leb c b'9'

abbrev pub negative : ℕ → ℤ
negative zero = pos 0
negative (suc n) = negsuc n
