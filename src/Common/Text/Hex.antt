-- ===== src/Common/Text/Hex.antt =====
-- Numbers and bytes in hexadecimal: `bigintToHex32`, and the bytes of a hex text.
use Prim.Native.Nat.{ℕ, zero, suc, ◌+◌, ◌*◌, ◌/◌, ◌%◌, ◌^◌}
use Prim.Native.String.{String}
use mathlib.Core.List.{List, [], ◌∷◌}
use crisp_qes.Common.Tests.{ltb, if◌then◌else◌}
use crisp_qes.Common.Lists.{drop}
use crisp_qes.Common.Results.{Result, ok, fail}
use crisp_qes.Common.Text.{Text, hex_digit}

abbrev pub digit_code : ℕ → ℕ
digit_code d = if ltb d 10 then 48 + d else 87 + d

-- The last `n` hex digits of `v`, in front of `out`.
unfoldable pub hex_digits : ℕ → ℕ → Text → Text
hex_digits zero v out = out
hex_digits (suc n) v out = hex_digits n (v / 16) (digit_code (v % 16) ∷ out)

-- `0x` and `v.toString(16).padStart(64, "0")`; a value of more digits throws.
unfoldable pub bigint_to_hex32 : ℕ → Result String Text
unfolding hex_digits
bigint_to_hex32 v =
    if ltb v (16 ^ 64)
    then ok (48 ∷ 120 ∷ hex_digits 64 v [])
    else fail "bigintToHex32: value exceeds 32 bytes"

abbrev pub byte_pairs : Text → List ℕ
byte_pairs (a ∷ b ∷ t) = (hex_digit a * 16 + hex_digit b) ∷ byte_pairs t
byte_pairs _ = []

-- The bytes of a text `0x…`.
abbrev pub from_hex : Text → List ℕ
from_hex t = byte_pairs (drop 2 t)
