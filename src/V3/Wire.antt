-- ===== src/V3/Wire.antt =====
-- packages/oprf/v3-grumpkin/service/oprf-node.mjs: the points on the wire.
-- `Point.fromAffine` and `assertValidity` are one parameter, which throws on a pair of coordinates that
-- is no point.
pub mod Roundtrip
use crisp_qes.Common.{
  ℕ, ◌^◌, not, Bool, List, [], ◌∷◌, ◌++◌, String, Result, ok, fail, ◌>>=◌, guard, ◌>>◌, ltb, take,
  drop, if◌then◌else◌,
}
use crisp_qes.Common.Text.{Text, codes, hex_value, hex_of_length}
use crisp_qes.Common.Text.Hex.{hex_digits}
use crisp_qes.V3.Words.{Affine}

-- 64 hex digits; a value of more throws.
unfoldable pub fe_to_hex : ℕ → Result String Text
fe_to_hex v =
    if ltb v (16 ^ 64)
    then ok (hex_digits 64 v [])
    else fail "feToHex: field element exceeds 32 bytes"

module _ (Point : Type 0) (is_infinity : Point → Bool) (to_affine : Point → Affine) where
  unfoldable pub point_to_hex : Point → Result String Text
  unfolding fe_to_hex
  point_to_hex point = do
    guard (not (is_infinity point)) "pointToHex: refusing to serialize point at infinity"
    let aff = to_affine point
    x ← fe_to_hex aff.x
    y ← fe_to_hex aff.y
    ok (codes "0x" ++ (x ++ y))

module _ (Point : Type 0) (from_affine : Affine → Result String Point) where
  unfoldable pub point_from_hex : Text → Result String Point
  unfolding hex_value
  point_from_hex hex = do
    guard (hex_of_length 128 hex) "pointFromHex: expected 0x-prefixed 64-byte (x||y) hex"
    let body = drop 2 hex
    from_affine (record { x = hex_value 0 (take 64 body); y = hex_value 0 (drop 64 body) })
