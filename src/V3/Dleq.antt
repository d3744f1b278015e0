-- ===== src/V3/Dleq.antt =====
-- packages/oprf/v3-grumpkin/lib.mjs: the proof that a partial evaluation is by the scalar of a
-- published key, bound to an epoch; and ShareNode.evaluate of service/oprf-node.mjs.
-- The hash of bb.js is the parameter `bb`, and the nonce of a proof is an argument.
pub mod Complete
use crisp_qes.Common.{
  ℕ, ◌%◌, Bool, List, [], ◌∷◌, ◌++◌, map, String, Result, ok, fail, ◌>>=◌, ◌==◌, if◌then◌else◌,
}
use crisp_qes.Pedersen.{be_bytes, bytes_be_to_bigint}
use crisp_qes.V3.Words.{Affine}
use crisp_qes.V3.Threshold.{ScalarField, Curve}

-- What the proofs use of the curve besides its operations: `negate`, `toAffine`, and the order of the
-- field of the coordinates.
pub record Coordinates (fn : ScalarField) (curve : Curve fn) : Type 0 where
  pub negate : curve.Point → curve.Point
  pub to_affine : curve.Point → Affine
  pub field_order : ℕ

abbrev pub coordinates_of : List Affine → List ℕ
coordinates_of [] = []
coordinates_of (a ∷ rest) = a.x ∷ a.y ∷ coordinates_of rest

module _ (bb : List (List ℕ) → ℕ → List ℕ) (fn : ScalarField) (curve : Curve fn)
    (co : Coordinates fn curve) where
  open curve use {Point, base, multiply}

  pub record Dleq : Type 0 where
    pub c : ℕ
    pub z : fn.Scalar

  -- The fields are reduced, and encoded on 32 bytes.
  unfoldable pub pedersen_hash_fields : List ℕ → ℕ
  pedersen_hash_fields fields =
      bytes_be_to_bigint (bb (map (λ f. be_bytes 32 (f % co.field_order) []) fields) 0)

  abbrev pub challenge : (kpub m b a1 a2 : Point) → (epoch : ℕ) → ℕ
  challenge kpub m b a1 a2 epoch =
      pedersen_hash_fields
        (coordinates_of (map co.to_affine (base ∷ kpub ∷ m ∷ b ∷ a1 ∷ a2 ∷ [])) ++ epoch ∷ [])

  unfoldable pub dleq_prove_share :
      (t : fn.Scalar)
      → (kpub : Point) → fn.Scalar
      → (m b : Point) → (epoch : ℕ) → Result String Dleq
  unfolding pedersen_hash_fields
  dleq_prove_share t kpub k_i m b epoch = do
    a1 ← multiply base t
    a2 ← multiply m t
    let c = challenge kpub m b a1 a2 epoch
    ok (record { c = c; z = fn.add t (fn.mul (fn.create c) k_i) })

  unfoldable pub verify_dleq_share : (kpub m b : Point) → (epoch : ℕ) → Dleq → Result String Bool
  unfolding pedersen_hash_fields
  verify_dleq_share kpub m b epoch d = do
    zg ← multiply base d.z
    ck ← multiply kpub (fn.create d.c)
    zm ← multiply m d.z
    cb ← multiply b (fn.create d.c)
    let c_expected =
        challenge kpub m b (curve.add zg (co.negate ck)) (curve.add zm (co.negate cb)) epoch
    ok (c_expected % co.field_order == d.c % co.field_order)

  -- A node, with its share and the published key of it.
  pub record ShareNode : Type 0 where
    pub i : ℕ
    pub k_i : fn.Scalar
    pub kpub_i : Point

  -- The constructor, which throws on a share that is 0.
  unfoldable pub share_node : (i k_i : ℕ) → Result String ShareNode
  share_node i k_i =
      if k_i % fn.order == 0 then fail "ShareNode: k_i must be non-zero mod N" else do
        kpub_i ← multiply base (fn.create k_i)
        ok (record { i = i; k_i = fn.create k_i; kpub_i = kpub_i })

  pub record Evaluated : Type 0 where
    pub i : ℕ
    pub b_i : Point
    pub dleq : Dleq
    pub kpub_i : Point

  -- Between the decoding of the blinded point and the encoding of the results.
  unfoldable pub evaluate :
      (t : fn.Scalar) → ShareNode → (m : Point) → (epoch : ℕ) → Result String Evaluated
  unfolding dleq_prove_share
  evaluate t node m epoch = do
    b_i ← multiply m node.k_i
    dleq ← dleq_prove_share t node.kpub_i node.k_i m b_i epoch
    ok (record { i = node.i; b_i = b_i; dleq = dleq; kpub_i = node.kpub_i })
