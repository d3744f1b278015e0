-- ===== src/Oprf/Voprf/Scalars.antt =====
-- Scalars as bytes, and their subtraction modulo the order.
use native.Mathlib.Nat.{mod-eq_of_lt, mod-add-mod, add-mod_right, pow-suc, pow-zero}
use crisp_qes.Common.{
  ℕ, zero, suc, ◌+◌, ◌-◌, ◌/◌, ◌%◌, ◌^◌, ◌<◌, ◌≡◌, refl, ap, ◌∙◌, List, [], ◌∷◌, length, take,
  arith,
}
use crisp_qes.Oprf.Voprf.{le_bytes, le_value}

pub length-le_bytes : (n x : ℕ) → length (le_bytes n x) ≡ n
unfolding le_bytes
length-le_bytes zero x = refl
length-le_bytes (suc n) x = omega (arith, length-le_bytes n (x / 256))

pub le_value-le_bytes : (n x : ℕ) → x < 256 ^ n → le_value (le_bytes n x) ≡ x
unfolding le_bytes le_value
le_value-le_bytes zero x h = omega (arith, pow-zero 256)
le_value-le_bytes (suc n) x h =
    rw (le_value-le_bytes n (x / 256) (omega (arith, pow-suc 256 n))) (omega arith)

pub take_all : (n : ℕ) (a : List ℕ) → length a ≡ n → take n a ≡ a
take_all zero [] h = refl
take_all (suc n) [] h = ground arith
take_all zero (x ∷ a) h = ground arith
take_all (suc n) (x ∷ a) h = ap (λ t. x ∷ t) (take_all n a (omega arith))

-- What is taken off modulo `n` is put back.
pub sub_then_add : (n r x : ℕ) → r < n → x < n → ((r + (n - x)) % n + x) % n ≡ r
sub_then_add n r x h k =
    mod-add-mod (r + (n - x)) n x
    ∙ ap (λ t. t % n) (rearranged n r x k)
    ∙ add-mod_right r n
    ∙ mod-eq_of_lt h
  where
    rearranged : (n r x : ℕ) → x < n → r + (n - x) + x ≡ r + n
    rearranged n r x k = omega arith
