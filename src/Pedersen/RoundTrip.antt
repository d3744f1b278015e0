-- ===== src/Pedersen/RoundTrip.antt =====
-- Encoding as big-endian bytes and reading back.
use native.Mathlib.Nat.{pow-suc, pow-zero, mul-one, add-zero, zero-add}
use crisp_qes.Common.{
  ℕ, zero, suc, ◌+◌, ◌*◌, ◌/◌, ◌%◌, ◌^◌, ◌<◌, ◌≡◌, refl, ap, ◌∙◌, List, [], ◌∷◌, arith, ok, lt→ltb,
}
use crisp_qes.Pedersen.{be_bytes, be_value, bigint_to_be32, bytes_be_to_bigint, fr_max}

shift_digit : (a p x : ℕ) → (a * p + x / 256) * 256 + x % 256 ≡ a * (p * 256) + x
shift_digit a p x = omega arith

pub be_value-be_bytes :
    (n a x : ℕ) (out : List ℕ)
    → x < 256 ^ n
    → be_value a (be_bytes n x out) ≡ be_value (a * 256 ^ n + x) out
unfolding be_bytes be_value
be_value-be_bytes zero a x out h =
    let e : x ≡ 0 = omega (arith, pow-zero 256) in rw (pow-zero, e, mul-one, add-zero) refl
be_value-be_bytes (suc n) a x out h =
    rw (be_value-be_bytes n a (x / 256) ((x % 256) ∷ out) (omega (arith, pow-suc 256 n)))
      (rw (pow-suc 256 n) (ap (λ k. be_value k out) (shift_digit a (256 ^ n) x)))

-- A field element below 2 ^ 254 is encoded, and is read back from its 32 bytes.
pub bigint_to_be32-roundtrip :
    (v : ℕ) → v < fr_max → (b : List ℕ) × (bigint_to_be32 v ≡ ok b) × (bytes_be_to_bigint b ≡ v)
unfolding bigint_to_be32 bytes_be_to_bigint
bigint_to_be32-roundtrip v h = (
  be_bytes 32 v [],
  rw (lt→ltb v fr_max h),
  be_value-be_bytes 32 0 v [] (omega arith) ∙ zero-add v,
)
