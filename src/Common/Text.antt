-- ===== src/Common/Text.antt =====
-- Texts as their characters' codes: the tests, conversions and searches of JavaScript that the
-- sources use. They are ASCII where a conversion or a case matters.
pub mod Numbers
pub mod Hex
use Prim.Native.Nat.{ℕ, zero, suc, ◌+◌, ◌-◌, ◌*◌, ◌/◌, ◌%◌}
use Prim.Native.Char.{code}
use Prim.Native.String.{String}
use mathlib.Core.Bool.{Bool, true, false, not, ◌&&◌, ◌||◌}
use mathlib.Core.Option.{Option, none, some}
use mathlib.Core.List.{List, [], ◌∷◌, ◌++◌, map}
use crisp_qes.Common.Tests.{ltb, leb, ◌==◌, if◌then◌else◌}
use crisp_qes.Common.Lists.{length, take, drop, all, bytes_eq}

abbrev pub Text : Type 0
Text = List ℕ

abbrev pub codes : String → Text
codes String.[] = []
codes (String.◌∷◌ c s) = code c ∷ codes s

-- `\d`
abbrev pub is_digit : ℕ → Bool
is_digit c = leb b'0' c && leb c b'9'

-- `[0-9a-fA-F]`
abbrev pub is_hex : ℕ → Bool
is_hex c = is_digit c || ((leb b'a' c && leb c b'f') || (leb b'A' c && leb c b'F'))

-- `[0-9a-f]`
abbrev pub is_lower_hex : ℕ → Bool
is_lower_hex c = is_digit c || (leb b'a' c && leb c b'f')

abbrev pub to_lower : ℕ → ℕ
to_lower c = if leb b'A' c && leb c b'Z' then c + 32 else c

unfoldable pub lower : Text → Text
lower = map to_lower

abbrev pub hex_digit : ℕ → ℕ
hex_digit c = if leb c b'9' then c - b'0' else to_lower c - 87

unfoldable pub hex_value : ℕ → Text → ℕ
hex_value acc [] = acc
hex_value acc (c ∷ t) = hex_value (acc * 16 + hex_digit c) t

unfoldable pub decimal_value : ℕ → Text → ℕ
decimal_value acc [] = acc
decimal_value acc (c ∷ t) = decimal_value (acc * 10 + (c - b'0')) t

-- The decimal digits of `n`, in front of `out`; 80 digits hold more than 256 bits.
unfoldable pub decimal_from : ℕ → ℕ → Text → Text
decimal_from zero n out = out
decimal_from (suc f) n out =
    let out' = (b'0' + n % 10) ∷ out in
    let rest = decimal_from f (n / 10) out' in if n / 10 == 0 then out' else rest

unfoldable pub decimal : ℕ → Text
unfolding decimal_from
decimal n = decimal_from 80 n []

-- `t.startsWith(p)`
unfoldable pub starts_with : Text → Text → Bool
starts_with t [] = true
starts_with [] (c ∷ p) = false
starts_with (d ∷ t) (c ∷ p) = (d == c) && starts_with t p

-- `t.includes(p)`
unfoldable pub includes : Text → Text → Bool
unfolding starts_with
includes [] p = starts_with [] p
includes (c ∷ t) p = starts_with (c ∷ t) p || includes t p

-- `t.split("\n")[0]`
unfoldable pub first_line : Text → Text
first_line [] = []
first_line (c ∷ t) = if c == 10 then [] else c ∷ first_line t

-- `/^0x[0-9a-fA-F]{n}$/`
abbrev pub hex_of_length : ℕ → Text → Bool
hex_of_length n t =
    (bytes_eq (take 2 t) (b'0' ∷ b'x' ∷ []) && (length (drop 2 t) == n)) && all is_hex (drop 2 t)

-- `BigInt("0x…")`
abbrev pub hex_to_bigint : Text → ℕ
hex_to_bigint t = hex_value 0 (drop 2 t)
