-- ===== src/V3/Node/Accepted.antt =====
-- The answer of a node is read and accepted.
use crisp_qes.Common.{
  ℕ, ◌≡◌, ◌≢◌, sym, subst, ap, ◌∙◌, true, false, Bool, List, String, Result, ok, >>=-eq-ok,
  ok-injective,
}
use crisp_qes.Common.Text.{Text}
use crisp_qes.V3.Words.{Affine}
use crisp_qes.V3.Threshold.{ScalarField, Curve}
use crisp_qes.V3.Threshold.Field.{IsField}
use crisp_qes.V3.Threshold.Combine.{IsCurve}
use crisp_qes.V3.Wire.{point_to_hex, point_from_hex}
use crisp_qes.V3.Wire.Roundtrip.{point_to_hex-finite, point_from_hex-point_to_hex}
use crisp_qes.V3.Dleq.{
  Coordinates, dleq_prove_share, verify_dleq_share, ShareNode, share_node, evaluate,
}
use crisp_qes.V3.Dleq.Complete.{evaluate-verify_dleq_share}
use crisp_qes.V3.Node.{Answer, answer}

module _ (bb : List (List ℕ) → ℕ → List ℕ) (fn : ScalarField) (laws : IsField fn) (curve : Curve fn)
    (group : IsCurve fn curve) (co : Coordinates fn curve)
    (negates : (p : curve.Point) (a : fn.Scalar)
      → co.negate (group.act p a) ≡ group.act p (fn.neg a))
    (is_infinity : curve.Point → Bool) (from_affine : Affine → Result String curve.Point)
    (undoes : (p : curve.Point) → is_infinity p ≡ false → from_affine (co.to_affine p) ≡ ok p) where
  -- Both points of the answer are read, and the proof is accepted for them.
  abbrev pub IsAccepted : Text → ℕ → Answer bb fn curve co is_infinity from_affine → Type 0
  IsAccepted m_hex epoch a =
      (m : curve.Point) × (b_i : curve.Point) × (kpub_i : curve.Point) × (point_from_hex curve.Point
          from_affine m_hex
        ≡ ok m)
      × (point_from_hex curve.Point from_affine a.b_i ≡ ok b_i)
      × (point_from_hex curve.Point from_affine a.kpub_i ≡ ok kpub_i)
      × (verify_dleq_share bb fn curve co kpub_i m b_i epoch a.dleq ≡ ok true)

  evaluated_key :
      (t : fn.Scalar) (node : ShareNode bb fn curve co) (m : curve.Point) (epoch : ℕ) (e : _)
      → evaluate bb fn curve co t node m epoch ≡ ok e
      → node.kpub_i ≡ e.kpub_i
  unfolding evaluate
  evaluated_key t node m epoch e h =
      let (b, _, rest) = >>=-eq-ok (curve.multiply m node.k_i) _ h in
      let (_, _, same) =
        >>=-eq-ok (dleq_prove_share bb fn curve co t node.kpub_i node.k_i m b epoch) _ rest in
      ap (λ x. x.kpub_i) (ok-injective same)

  -- The texts of a node's answer are read as points, and the check of the proof accepts it for them,
  -- the point of the request and the epoch. It is assumed that neither the challenge nor the response
  -- is the scalar 0, and that `fromAffine` undoes `toAffine` for the points that are not at infinity.
  pub answer-IsAccepted :
      (t : fn.Scalar) (i k_i : ℕ) (node : ShareNode bb fn curve co) (m_hex : Text) (epoch : ℕ)
      (a : Answer bb fn curve co is_infinity from_affine)
      → share_node bb fn curve co i k_i ≡ ok node
      → answer bb fn curve co is_infinity from_affine t node m_hex epoch ≡ ok a
      → fn.create a.dleq.c ≢ fn.create 0
      → a.dleq.z ≢ fn.create 0
      → IsAccepted m_hex epoch a
  unfolding answer
  answer-IsAccepted t i k_i node m_hex epoch a made answered c_ne z_ne =
      let (m, m_eq, h₁) = >>=-eq-ok (point_from_hex curve.Point from_affine m_hex) _ answered in
      let (e, e_eq, h₂) = >>=-eq-ok (evaluate bb fn curve co t node m epoch) _ h₁ in
      let (b_i, b_eq, h₃) =
        >>=-eq-ok (point_to_hex curve.Point is_infinity co.to_affine e.b_i) _ h₂ in
      let (kpub_i, k_eq, same) =
        >>=-eq-ok (point_to_hex curve.Point is_infinity co.to_affine e.kpub_i) _ h₃ in
      let dleq_same : e.dleq ≡ a.dleq = ap (λ x. x.dleq) (ok-injective same) in
      let read : (p : curve.Point) (text : Text)
          → point_to_hex curve.Point is_infinity co.to_affine p ≡ ok text
          → point_from_hex curve.Point from_affine text ≡ ok p =
        λ p text sent.
          point_from_hex-point_to_hex curve.Point is_infinity co.to_affine from_affine p text sent
            (undoes p (point_to_hex-finite curve.Point is_infinity co.to_affine p text sent)) in
      subst (IsAccepted m_hex epoch) (ok-injective same) (
        m,
        e.b_i,
        e.kpub_i,
        m_eq,
        read e.b_i b_i b_eq,
        read e.kpub_i kpub_i k_eq,
        subst (λ q. verify_dleq_share bb fn curve co q m e.b_i epoch e.dleq ≡ ok true)
            (evaluated_key t node m epoch e e_eq)
            (evaluate-verify_dleq_share bb fn laws curve group co negates t i k_i node m epoch e
              made e_eq (λ zero_c. c_ne (ap (λ d. fn.create d.c) (sym dleq_same) ∙ zero_c))
              (λ zero_z. z_ne (ap (λ d. d.z) (sym dleq_same) ∙ zero_z))),
      )
