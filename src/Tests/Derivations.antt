-- ===== src/Tests/Derivations.antt =====
-- A derivation that rejects its first draw, and a node over the numbers modulo 5 whose evaluation is
-- checked.
use crisp_qes.Common.{
  ℕ, ◌≡◌, refl, ap, false, Bool, String, Result, ◌==◌, ◌++◌, List, [], ◌∷◌, ok, arith, length,
}
use crisp_qes.Pedersen.{be_value, bytes_be_to_bigint}
use crisp_qes.V3.Kdf.{Seed, seed_to_bytes, be4, draw, sample, kdf_scalar, seeded_rand}
use crisp_qes.V3.Kdf.Bounds.{IsFirstDraw, seeded_rand-IsFirstDraw}
use crisp_qes.V3.Dleq.{
  Coordinates, pedersen_hash_fields, dleq_prove_share, ShareNode, share_node, evaluate,
}
use crisp_qes.Common.Text.{Text, codes, hex_value}
use crisp_qes.Common.Text.Hex.{hex_digits}
use crisp_qes.V3.Wire.{fe_to_hex, point_to_hex, point_from_hex}
use crisp_qes.V3.Node.{Answer, answer}
use crisp_qes.V3.Node.Accepted.{IsAccepted, answer-IsAccepted}
use crisp_qes.Tests.Shares.{
  r1, r2, value, fives, fives-IsField, line, line-IsCurve, law1, law2, residue,
}
use crisp_qes.V3.Words.{Affine}
use crisp_qes.Tests.Shares.{Residue}

-- In place of SHA-256, the last byte: the number of the round.
abbrev last_byte : List ℕ → List ℕ
last_byte [] = []
last_byte (b ∷ []) = b ∷ []
last_byte (a ∷ b ∷ bs) = last_byte (b ∷ bs)

seeded_rand-IsFirstDraw_example : IsFirstDraw last_byte 5 (7 ∷ 9 ∷ []) 3 (ok 1)
unfolding seeded_rand kdf_scalar sample draw seed_to_bytes be_value be4
seeded_rand-IsFirstDraw_example = seeded_rand-IsFirstDraw last_byte 5 (Seed.bytes (7 ∷ 9 ∷ [])) 3

-- In place of the hash of bb.js, the number of the fields.
abbrev counted : List (List ℕ) → ℕ → List ℕ
counted inputs index = length inputs ∷ []

abbrev plane : Coordinates fives line
plane = record {
  negate = λ p. fives.neg p;
  to_affine = λ p. record { x = value p; y = 0 };
  field_order = 101;
}

abbrev node : ShareNode counted fives line plane
node = record { i = 4; k_i = r2; kpub_i = r2 }

abbrev at_zero : Residue → Bool
at_zero p = value p == 0

abbrev point_at : Affine → Result String Residue
point_at a = ok (residue a.x)

point_at-undoes : (p : Residue) → at_zero p ≡ false → point_at (plane.to_affine p) ≡ ok p
point_at-undoes p finite = ap ok (law1 (λ q. residue (value q)) (λ q. q) refl p)

abbrev spelled : ℕ → Text
spelled x = codes "0x" ++ (hex_digits 64 x [] ++ hex_digits 64 0 [])

abbrev answered : Answer counted fives line plane at_zero point_at
answered = record { i = 4; b_i = spelled 1; dleq = record { c = 13; z = r2 }; kpub_i = spelled 2 }

answer-IsAccepted_example :
    IsAccepted counted fives fives-IsField line line-IsCurve plane
      (law2 _ _ refl)
      at_zero
      point_at
      point_at-undoes
      (spelled 3)
      6
      answered
unfolding share_node answer evaluate dleq_prove_share pedersen_hash_fields bytes_be_to_bigint
    point_to_hex point_from_hex fe_to_hex hex_digits hex_value
answer-IsAccepted_example =
    answer-IsAccepted counted fives fives-IsField line line-IsCurve plane (law2 _ _ refl) at_zero
      point_at point_at-undoes r1 4 7 node (spelled 3) 6 answered refl refl
      (λ same. omega (arith, ap value same)) (λ same. omega (arith, ap value same))
