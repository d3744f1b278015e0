-- ===== src/Common/Text/Numbers.antt =====
-- Numbers printed in decimal and read back.
use native.Mathlib.Nat.{pow-suc, pow-zero}
use Prim.Native.Nat.{ℕ, zero, suc, ◌+◌, ◌-◌, ◌*◌, ◌/◌, ◌%◌, ◌^◌, ◌<◌}
use mathlib.Core.Path.{◌≡◌, refl, ap, ◌∙◌}
use mathlib.Core.Logic.{inl, inr}
use mathlib.Core.Bool.{true}
use mathlib.Core.List.{[], ◌∷◌}
use native.Mathlib.Omega.{arith}
use crisp_qes.Common.Tests.{◌==◌, Bool-cases}
use crisp_qes.Common.Lists.{length, all}
use crisp_qes.Common.Text.{Text, decimal, decimal_from, decimal_value, hex_value, hex_digit, is_hex}

-- Reading the printed digits continues the reading of what follows them, from `n`.
last_digit : (n a : ℕ) → a ≡ n / 10 → a * 10 + (48 + n % 10 - 48) ≡ n
last_digit n a e = omega arith

decimal_value-decimal_from :
    (f n : ℕ) (out : Text)
    → n < 10 ^ suc f
    → decimal_value 0 (decimal_from (suc f) n out) ≡ decimal_value n out
unfolding decimal_value decimal_from
decimal_value-decimal_from zero n out h =
    let done : (n / 10 == 0) ≡ true = ground (arith, pow-suc 10 0, pow-zero 10) in
    rw done (ap (λ k. decimal_value k out) (last_digit n 0 (ground arith)))
decimal_value-decimal_from (suc f) n out h =
    let ih =
      decimal_value-decimal_from f (n / 10) ((48 + n % 10) ∷ out)
        (omega (arith, pow-suc 10 (suc f))) in
    elim (Bool-cases (n / 10 == 0)) [
      | inl done ↦ rw done (ap (λ k. decimal_value k out) (last_digit n 0 (ground arith)))
      | inr more ↦ rw more (ih ∙ ap (λ k. decimal_value k out) (last_digit n (n / 10) refl))
    ]

pub decimal_value-decimal : (n : ℕ) → n < 10 ^ 80 → decimal_value 0 (decimal n) ≡ n
unfolding decimal decimal_value
decimal_value-decimal n h = decimal_value-decimal_from 79 n [] h

hex_value-lt :
    (acc b : ℕ) (t : Text) → all is_hex t ≡ true → acc < b → hex_value acc t < b * 16 ^ length t
unfolding hex_value
hex_value-lt acc b [] h lt = rw (pow-zero 16) (omega arith)
hex_value-lt acc b (c ∷ t) h lt =
    let digit : hex_digit c < 16 = ground arith in
    let ih = hex_value-lt (acc * 16 + hex_digit c) (b * 16) t (ground arith) (omega arith) in
    rw (pow-suc 16 (length t)) (grind arith)

-- A 32-byte hex text is a number of 256 bits.
pub hex_value_bound : (t : Text) → all is_hex t ≡ true → length t ≡ 64 → hex_value 0 t < 2 ^ 256
hex_value_bound t h n = rw n at (hex_value-lt 0 1 t h (omega arith))
