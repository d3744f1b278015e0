-- ===== src/V3/Wire/Roundtrip.antt =====
-- A point that is sent is read again.
use crisp_qes.Common.{
  take-append, drop-append, ℕ, zero, suc, ◌+◌, ◌/◌, ◌%◌, ◌^◌, ◌<◌, ◌≡◌, refl, ◌∙◌, true, false, not,
  Bool, Bool-cases, inl, inr, List, [], ◌∷◌, ◌++◌, String, Result, ok, guard-inv, >>=-eq-ok,
  ok-injective, length, length-append, all, arith, ltb, ltb→lt, ◌==◌, ==_iff,
}
use crisp_qes.Common.Text.{Text, is_hex, hex_value}
use crisp_qes.Common.Text.Hex.{digit_code, hex_digits}
use crisp_qes.V3.Words.{Affine}
use crisp_qes.V3.Words.Canonical.{hex_value-hex_digits}
use crisp_qes.V3.Wire.{fe_to_hex, point_to_hex, point_from_hex}

is_hex-digit_code : (d : ℕ) → d < 16 → is_hex (digit_code d) ≡ true
is_hex-digit_code d h = ground arith

hex_digits-HexOf :
    (n v : ℕ) (out : Text)
    → all is_hex out ≡ true
    → (all is_hex (hex_digits n v out) ≡ true) × (length (hex_digits n v out) ≡ n + length out)
unfolding hex_digits
hex_digits-HexOf zero v out h = (h, omega arith)
hex_digits-HexOf (suc n) v out h =
    let (hex, size) =
      hex_digits-HexOf n (v / 16) (digit_code (v % 16) ∷ out)
        (rw (is_hex-digit_code (v % 16) (omega arith)) h) in
    (hex, omega (arith, size))

-- What a coordinate is sent as.
fe_to_hex_inv :
    (v : ℕ) (t : Text)
    → fe_to_hex v ≡ ok t
    → (all is_hex t ≡ true) × (length t ≡ 64) × (hex_value 0 t ≡ v)
unfolding fe_to_hex
fe_to_hex_inv v t h = elim (Bool-cases (ltb v (16 ^ 64))) [
  | inl small ↦
      let e : hex_digits 64 v [] ≡ t = let h' = rw small at h in ok-injective h' in
      let (hex, size) = hex_digits-HexOf 64 v [] refl in
      rw (← e) (
        hex,
        size,
        hex_value-hex_digits 64 0 v [] (ltb→lt v (16 ^ 64) small)
            ∙ (unfold hex_value in omega arith),
      )
  | inr large ↦ absurd (let h' = rw large at h in cc)
]

all-append :
    (p : ℕ → Bool) (xs ys : List ℕ) → all p xs ≡ true → all p ys ≡ true → all p (xs ++ ys) ≡ true
all-append p [] ys h k = k
all-append p (x ∷ xs) ys h k = ground (arith, all-append p xs ys)

pub point_to_hex-finite :
    (Point : Type 0) (is_infinity : Point → Bool) (to_affine : Point → Affine) (p : Point)
    (t : Text)
    → point_to_hex Point is_infinity to_affine p ≡ ok t
    → is_infinity p ≡ false
unfolding point_to_hex
point_to_hex-finite Point is_infinity to_affine p t sent =
    let (finite, _) = guard-inv (not (is_infinity p)) _ _ sent in ground arith

-- A point that is sent is read as the same point. It is assumed that `fromAffine` undoes `toAffine` for
-- the point.
pub point_from_hex-point_to_hex :
    (Point : Type 0) (is_infinity : Point → Bool) (to_affine : Point → Affine)
    (from_affine : Affine → Result String Point) (p : Point) (t : Text)
    → point_to_hex Point is_infinity to_affine p ≡ ok t
    → from_affine (to_affine p) ≡ ok p
    → point_from_hex Point from_affine t ≡ ok p
unfolding point_to_hex point_from_hex
point_from_hex-point_to_hex Point is_infinity to_affine from_affine p t sent undoes =
    let (_, h) = guard-inv (not (is_infinity p)) _ _ sent in
    let (x, x_eq, h') = >>=-eq-ok (fe_to_hex (to_affine p).x) _ h in
    let (y, y_eq, e) = >>=-eq-ok (fe_to_hex (to_affine p).y) _ h' in
    let (x_hex, x_size, x_value) = fe_to_hex_inv _ x x_eq in
    let (y_hex, y_size, y_value) = fe_to_hex_inv _ y y_eq in
    let size : (length (x ++ y) == 128) ≡ true =
      (==_iff (length (x ++ y)) 128).1 (omega (arith, length-append x y, x_size, y_size)) in
    rw (← ok-injective e) (
      rw
        (
          size,
          all-append is_hex x y x_hex y_hex,
          take-append 64 x y x_size,
          drop-append 64 x y x_size,
          x_value,
          y_value,
        )
        undoes)
