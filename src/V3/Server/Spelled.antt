-- ===== src/V3/Server/Spelled.antt =====
-- Field elements are spelled in a reply, and read again.
use crisp_qes.Common.{ℕ, ◌^◌, ◌≡◌, refl, ap₂, List, [], ◌∷◌, map, ok, All, arith, lt→ltb}
use crisp_qes.Common.Text.{Text, hex_to_bigint}
use crisp_qes.Common.Text.Hex.{bigint_to_hex32, hex_digits}
use crisp_qes.Tree.Total.{IsField}
use crisp_qes.V3.Gate.Bound.{bigint_to_hex32_inv}
use crisp_qes.V3.Server.Register.{hexes}

pub bigint_to_hex32_total :
    (v : ℕ) → IsField v → (t : Text) × (bigint_to_hex32 v ≡ ok t) × (hex_to_bigint t ≡ v)
unfolding bigint_to_hex32
bigint_to_hex32_total v h =
    let t : Text = 48 ∷ 120 ∷ hex_digits 64 v [] in
    let e : bigint_to_hex32 v ≡ ok t = rw (lt→ltb v (16 ^ 64) (omega (arith, h))) refl in
    (t, e, bigint_to_hex32_inv v t e)

pub hexes_total :
    (vs : List ℕ)
    → All IsField vs
    → (ts : List Text) × (hexes vs ≡ ok ts) × (map hex_to_bigint ts ≡ vs)
hexes_total [] h = ([], refl, refl)
hexes_total (v ∷ vs) (h, hs) =
    let (t, spelled, value) = bigint_to_hex32_total v h in
    let (ts, later, values) = hexes_total vs hs in
    (t ∷ ts, rw (spelled, later) refl, ap₂ (λ x xs. x ∷ xs) value values)
