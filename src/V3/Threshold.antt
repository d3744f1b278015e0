-- ===== src/V3/Threshold.antt =====
-- packages/oprf/v3-grumpkin/threshold/threshold-oprf.mjs: the key in shares, the partial evaluations
-- and their combination; and the combination in packages/web/src/lib/grumpkin.ts.
-- The scalar field and the curve of @noble/curves are parameters. A multiplication of a point may throw.
pub mod Field
pub mod Lagrange
pub mod Interpolation
pub mod Combine
pub mod Keygen
use crisp_qes.Common.{
  ℕ, zero, suc, ◌+◌, ◌-◌, ◌*◌, ◌/◌, ◌%◌, ◌^◌, Bool, true, false, ◌&&◌, ◌||◌, Option, none, some,
  List, [], ◌∷◌, ◌++◌, map, String, Result, ok, fail, ◌>>=◌, ◌>>◌, guard, ltb, leb, ◌==◌,
  if◌then◌else◌, any, not,
}
use crisp_qes.Common.Text.{codes}
use crisp_qes.Pedersen.{be_bytes, be_value}

-- `Fn`
pub record ScalarField : Type 1 where
  pub Scalar : Type 0
  pub create : ℕ → Scalar
  pub add : Scalar → Scalar → Scalar
  pub mul : Scalar → Scalar → Scalar
  pub neg : Scalar → Scalar
  pub sub : Scalar → Scalar → Scalar
  pub inv : Scalar → Scalar
  pub order : ℕ

module _ (fn : ScalarField) where
  open fn use {Scalar, create, add, mul, neg, sub, inv, order}

  -- Horner's loop from the highest coefficient down.
  unfoldable pub poly_eval : List Scalar → Scalar → Scalar
  poly_eval [] x = create 0
  poly_eval (c ∷ coeffs) x = add (mul (poly_eval coeffs x) x) c

  pub record Share : Type 0 where
    pub i : ℕ
    pub k_i : Scalar

  -- `m` calls of the source of randomness, which has made `counter` before.
  unfoldable pub draws : (ℕ → Scalar) → ℕ → ℕ → List Scalar
  draws rand zero counter = []
  draws rand (suc m) counter = rand counter ∷ draws rand m (suc counter)

  -- The shares of the nodes `i` to `i + m - 1`.
  unfoldable pub shares_from : List Scalar → ℕ → ℕ → List Share
  shares_from coeffs zero i = []
  shares_from coeffs (suc m) i =
      record { i = i; k_i = poly_eval coeffs (create i) } ∷ shares_from coeffs m (suc i)

  abbrev pub coefficients : (ℕ → Scalar) → Scalar → ℕ → ℕ → List Scalar
  coefficients rand k t counter = k ∷ draws rand (t - 1) counter

  unfoldable pub shamir_split :
      (ℕ → Scalar) → ℕ → (k : Scalar) → (n t : ℕ) → Result String (List Share)
  shamir_split rand counter k n t = do
    guard (leb 1 t && leb t n) "bad params: need 1<=t<=n"
    ok (shares_from (coefficients rand k t counter) n 1)

  pub record KeySet : Type 0 where
    pub shares : List Share
    pub k_implied : Scalar

  unfoldable pub add_shares : List Share → List Share → List Share
  add_shares (a ∷ final) (b ∷ shares) =
      record { i = a.i; k_i = add a.k_i b.k_i } ∷ add_shares final shares
  add_shares final _ = final

  unfoldable pub zero_shares : ℕ → ℕ → List Share
  zero_shares zero i = []
  zero_shares (suc m) i = record { i = i; k_i = create 0 } ∷ zero_shares m (suc i)

  -- The loop over the dealers that are left. A dealer draws a secret and `t - 1` coefficients.
  unfoldable pub deal :
      (ℕ → Scalar) → (n t : ℕ) → (dealers counter : ℕ) → KeySet → Result String KeySet
  deal rand n t zero counter keys = ok keys
  deal rand n t (suc dealers) counter keys = do
    shares ← shamir_split rand (suc counter) (rand counter) n t
    deal rand n t dealers (suc counter + (t - 1)) (record {
      shares = add_shares keys.shares shares;
      k_implied = add keys.k_implied (rand counter);
    })

  unfoldable pub dkg_keygen : (ℕ → Scalar) → (n t : ℕ) → Result String KeySet
  dkg_keygen rand n t =
      deal rand n t n 0 (record { shares = zero_shares n 1; k_implied = create 0 })

  -- The two products over the other indices.
  unfoldable pub lagrange_num : ℕ → List ℕ → Scalar → Scalar
  lagrange_num i [] num = num
  lagrange_num i (j ∷ indices) num =
      lagrange_num i indices (if j == i then num else mul num (neg (create j)))

  unfoldable pub lagrange_den : ℕ → List ℕ → Scalar → Scalar
  lagrange_den i [] den = den
  lagrange_den i (j ∷ indices) den =
      lagrange_den i indices (if j == i then den else mul den (sub (create i) (create j)))

  unfoldable pub lagrange_coeff : ℕ → List ℕ → Scalar
  unfolding lagrange_num lagrange_den
  lagrange_coeff i indices =
      mul (lagrange_num i indices (create 1)) (inv (lagrange_den i indices (create 1)))

  -- The loop with the set `seen`.
  unfoldable pub has_duplicate : List ℕ → List ℕ → Bool
  has_duplicate seen [] = false
  has_duplicate seen (i ∷ indices) =
      let rest = has_duplicate (i ∷ seen) indices in if any (λ j. j == i) seen then true else rest

pub record Curve (fn : ScalarField) : Type 1 where
  pub Point : Type 0
  pub base : Point
  pub add : Point → Point → Point
  pub multiply : Point → fn.Scalar → Result String Point

module _ (fn : ScalarField) (curve : Curve fn) where
  pub record Partial : Type 0 where
    pub i : ℕ
    pub b_i : curve.Point

  -- `B_i`, without its proof.
  unfoldable pub partial_eval : Share fn → curve.Point → Result String Partial
  partial_eval share m_point = do
    b_i ← curve.multiply m_point share.k_i
    ok (record { i = share.i; b_i = b_i })

  abbrev pub add_term : Option curve.Point → curve.Point → curve.Point
  add_term none term = term
  add_term (some y) term = curve.add y term

  unfoldable pub combine_from :
      List ℕ → List Partial → Option curve.Point → Result String (Option curve.Point)
  combine_from indices [] y = ok y
  combine_from indices (p ∷ partials) y = do
    term ← curve.multiply p.b_i (lagrange_coeff fn p.i indices)
    combine_from indices partials (some (add_term y term))

  abbrev pub indices_of : List Partial → List ℕ
  indices_of = map (λ (p : Partial). p.i)

  unfoldable pub combine : List Partial → Result String (Option curve.Point)
  unfolding combine_from
  combine partials = do
    guard (not (has_duplicate fn [] (indices_of partials))) "duplicate responder index"
    combine_from (indices_of partials) partials none

  abbrev pub or_no_partials : Option curve.Point → Result String curve.Point
  or_no_partials none = fail "combineThreshold: no partials"
  or_no_partials (some y) = ok y

  -- `combineThreshold` of the web client.
  unfoldable pub combine_threshold : List Partial → Result String curve.Point
  unfolding combine_from
  combine_threshold partials = do
    guard (not (has_duplicate fn [] (indices_of partials)))
        "combineThreshold: duplicate responder index"
    y ← combine_from (indices_of partials) partials none
    or_no_partials y
