-- ===== src/V3/Node.antt =====
-- packages/oprf/v3-grumpkin/service/oprf-node.mjs: what a share node answers, from a text to texts.
pub mod Accepted
use crisp_qes.Common.{ℕ, Bool, List, String, Result, ok, fail, ◌>>=◌}
use crisp_qes.Common.Text.{Text}
use crisp_qes.V3.Words.{Affine}
use crisp_qes.V3.Threshold.{ScalarField, Curve}
use crisp_qes.V3.Wire.{point_to_hex, point_from_hex}
use crisp_qes.V3.Dleq.{Coordinates, Dleq, ShareNode, evaluate}

module _ (bb : List (List ℕ) → ℕ → List ℕ) (fn : ScalarField) (curve : Curve fn)
    (co : Coordinates fn curve) (is_infinity : curve.Point → Bool)
    (from_affine : Affine → Result String curve.Point) where
  pub record Answer : Type 0 where
    pub i : ℕ
    pub b_i : Text
    pub dleq : Dleq bb fn curve co
    pub kpub_i : Text

  unfoldable pub answer :
      (t : fn.Scalar)
      → ShareNode bb fn curve co
      → (m_hex : Text) → (epoch : ℕ) → Result String Answer
  answer t node m_hex epoch = do
    m ← point_from_hex curve.Point from_affine m_hex
    e ← evaluate bb fn curve co t node m epoch
    b_i ← point_to_hex curve.Point is_infinity co.to_affine e.b_i
    kpub_i ← point_to_hex curve.Point is_infinity co.to_affine e.kpub_i
    ok (record { i = e.i; b_i = b_i; dleq = e.dleq; kpub_i = kpub_i })
