-- ===== src/V3/Threshold/Keygen.antt =====
-- The shares of the generated key are the values of one polynomial, and any `t` of the nodes evaluate
-- by the key.
use crisp_qes.Common.{
  ℕ, zero, suc, ◌+◌, ◌-◌, ◌<◌, ◌≤◌, ◌≡◌, refl, sym, subst, ap, ap₂, ◌∙◌, some, List, [], ◌∷◌, map,
  length, get_elem?, All, arith, leb, leb→le, ◌&&◌, and_true, ok, guard-inv, >>=-eq-ok,
  ok-injective,
}
use crisp_qes.V3.Threshold.{
  ScalarField, Curve, Share, KeySet, Partial, poly_eval, draws, shares_from, coefficients,
  shamir_split, add_shares, zero_shares, deal, dkg_keygen, partial_eval, indices_of,
  combine_threshold,
}
use crisp_qes.V3.Threshold.Field
use crisp_qes.V3.Threshold.Field.{IsField}
use crisp_qes.V3.Threshold.Lagrange.{AreDistinct, AreBounded}
use crisp_qes.V3.Threshold.Combine.{IsCurve, ArePositive, AreValues, combine_threshold-poly_eval}

module _ (fn : ScalarField) (laws : IsField fn) where
  open fn use {Scalar, create, add, mul, neg, sub, inv, order}
  open laws use {
    add_assoc, add_comm, zero_add, add_neg, mul_assoc, mul_comm, one_mul, mul_add, sub_eq, mul_inv,
  }

  add_coeffs : List Scalar → List Scalar → List Scalar
  add_coeffs (a ∷ cs) (b ∷ ds) = add a b ∷ add_coeffs cs ds
  add_coeffs cs _ = cs

  length-add_coeffs : (cs ds : List Scalar) → length (add_coeffs cs ds) ≡ length cs
  unfolding add_coeffs
  length-add_coeffs [] ds = refl
  length-add_coeffs (a ∷ cs) [] = refl
  length-add_coeffs (a ∷ cs) (b ∷ ds) = ap suc (length-add_coeffs cs ds)

  poly_eval-add_coeffs :
      (cs ds : List Scalar) (x : Scalar)
      → length cs ≡ length ds
      → poly_eval fn (add_coeffs cs ds) x ≡ add (poly_eval fn cs x) (poly_eval fn ds x)
  unfolding add_coeffs poly_eval
  poly_eval-add_coeffs [] [] x e = sym (zero_add (create 0))
  poly_eval-add_coeffs [] (b ∷ ds) x e = absurd (omega (arith, e))
  poly_eval-add_coeffs (a ∷ cs) [] x e = absurd (omega (arith, e))
  poly_eval-add_coeffs (a ∷ cs) (b ∷ ds) x e =
      ap (λ z. add (mul z x) (add a b)) (poly_eval-add_coeffs cs ds x (omega (arith, e)))
      ∙ ap (λ z. add z (add a b)) (Field.add_mul fn laws (poly_eval fn cs x) (poly_eval fn ds x) x)
      ∙ Field.add_add_add_comm fn laws _ _ _ _

  add_shares-add_coeffs :
      (cs ds : List Scalar) (m i : ℕ)
      → length cs ≡ length ds
      → add_shares fn (shares_from fn cs m i) (shares_from fn ds m i)
        ≡ shares_from fn (add_coeffs cs ds) m i
  unfolding add_shares shares_from
  add_shares-add_coeffs cs ds zero i e = refl
  add_shares-add_coeffs cs ds (suc m) i e =
      ap₂
        (λ (k : Scalar) (rest : List (Share fn)).
          let s : Share fn = record { i = i; k_i = k } in s ∷ rest)
        (sym (poly_eval-add_coeffs cs ds (create i) e)) (add_shares-add_coeffs cs ds m (suc i) e)

  zeros : ℕ → List Scalar
  zeros zero = []
  zeros (suc t) = create 0 ∷ zeros t

  length-zeros : (t : ℕ) → length (zeros t) ≡ t
  unfolding zeros
  length-zeros zero = refl
  length-zeros (suc t) = ap suc (length-zeros t)

  poly_eval-zeros : (t : ℕ) (x : Scalar) → poly_eval fn (zeros t) x ≡ create 0
  unfolding zeros poly_eval
  poly_eval-zeros zero x = refl
  poly_eval-zeros (suc t) x =
      Field.add_zero fn laws _ ∙ ap (λ z. mul z x) (poly_eval-zeros t x) ∙ Field.zero_mul fn laws x

  zero_shares-zeros : (t m i : ℕ) → zero_shares fn m i ≡ shares_from fn (zeros t) m i
  unfolding zero_shares shares_from
  zero_shares-zeros t zero i = refl
  zero_shares-zeros t (suc m) i =
      ap₂
        (λ (k : Scalar) (rest : List (Share fn)).
          let s : Share fn = record { i = i; k_i = k } in s ∷ rest)
        (sym (poly_eval-zeros t (create i))) (zero_shares-zeros t m (suc i))

  length-draws : (rand : ℕ → Scalar) (m c : ℕ) → length (draws fn rand m c) ≡ m
  unfolding draws
  length-draws rand zero c = refl
  length-draws rand (suc m) c = ap suc (length-draws rand m (suc c))

  -- The shares are the values of a polynomial with `t` coefficients, whose value at 0 is the key.
  pub record IsShared (n t : ℕ) (keys : KeySet fn) : Type 0 where
    pub coeffs : List Scalar
    pub size : length coeffs ≡ t
    pub shares : keys.shares ≡ shares_from fn coeffs n 1
    pub key : keys.k_implied ≡ poly_eval fn coeffs (create 0)

  shamir_split_inv :
      (rand : ℕ → Scalar) (c : ℕ) (k : Scalar) (n t : ℕ) (shares : List (Share fn))
      → shamir_split fn rand c k n t ≡ ok shares
      → (1 ≤ t) × (t ≤ n) × (shares ≡ shares_from fn (coefficients fn rand k t c) n 1)
  unfolding shamir_split
  shamir_split_inv rand c k n t shares h =
      let (bounds, e) = guard-inv (leb 1 t && leb t n) _ _ h in
      let (low, high) = and_true (leb 1 t) (leb t n) bounds in
      (leb→le 1 t low, leb→le t n high, sym (ok-injective e))

  deal-IsShared :
      (rand : ℕ → Scalar) (n t dealers c : ℕ) (keys keys' : KeySet fn)
      → IsShared n t keys
      → deal fn rand n t dealers c keys ≡ ok keys'
      → IsShared n t keys'
  unfolding deal
  deal-IsShared rand n t zero c keys keys' s h = subst (λ k. IsShared n t k) (ok-injective h) s
  deal-IsShared rand n t (suc dealers) c keys keys' s h =
      let (shares, split, later) = >>=-eq-ok (shamir_split fn rand (suc c) (rand c) n t) _ h in
      let (low, _, e) = shamir_split_inv rand (suc c) (rand c) n t shares split in
      let fresh = coefficients fn rand (rand c) t (suc c) in
      let same : length s.coeffs ≡ length fresh =
        omega (arith, s.size, length-draws rand (t - 1) (suc c), low) in
      deal-IsShared rand n t dealers (suc c + (t - 1)) _ keys'
        (record {
          coeffs = add_coeffs s.coeffs fresh;
          size = length-add_coeffs s.coeffs fresh ∙ s.size;
          shares = ap₂ (add_shares fn) s.shares e ∙ add_shares-add_coeffs s.coeffs fresh n 1 same;
          key =
              ap₂ add s.key (at_zero (rand c) (draws fn rand (t - 1) (suc c)))
              ∙ sym (poly_eval-add_coeffs s.coeffs fresh (create 0) same);
        })
        later
    where
      at_zero : (k : Scalar) (rest : List Scalar) → k ≡ poly_eval fn (k ∷ rest) (create 0)
      at_zero k rest =
          unfold poly_eval in
          (sym (zero_add k)
            ∙ ap (λ z. add z k) (sym (Field.mul_zero fn laws (poly_eval fn rest (create 0)))))

  pub dkg_keygen-IsShared :
      (rand : ℕ → Scalar) (n t : ℕ) (keys : KeySet fn)
      → dkg_keygen fn rand n t ≡ ok keys
      → IsShared n t keys
  unfolding dkg_keygen
  dkg_keygen-IsShared rand n t keys h =
      deal-IsShared rand n t n 0 _ keys
        (record {
          coeffs = zeros t;
          size = length-zeros t;
          shares = zero_shares-zeros t n 1;
          key = sym (poly_eval-zeros t (create 0));
        })
        h

  -- What is found in the list of the shares.
  get_elem?-shares_from :
      (coeffs : List Scalar) (m i k : ℕ) (s : Share fn)
      → get_elem? (shares_from fn coeffs m i) k ≡ some s
      → (s.i ≡ i + k) × (s.k_i ≡ poly_eval fn coeffs (create s.i)) × (k < m)
  unfolding shares_from
  get_elem?-shares_from coeffs zero i k s h = cc
  get_elem?-shares_from coeffs (suc m) i zero s h =
      let first : Share fn = record { i = i; k_i = poly_eval fn coeffs (create i) } in
      let e : first ≡ s = cc in
      let index : i ≡ s.i = ap (λ (q : Share fn). q.i) e in
      (
        omega (arith, index),
        ap (λ (q : Share fn). q.k_i) (sym e) ∙ ap (λ j. poly_eval fn coeffs (create j)) index,
        omega arith,
      )
  get_elem?-shares_from coeffs (suc m) i (suc k) s h =
      let (index, value, lt) = get_elem?-shares_from coeffs m (suc i) k s h in
      (omega (arith, index), value, omega (arith, lt))

  -- A share of the key set.
  abbrev pub IsShareOf : KeySet fn → Share fn → Type 0
  IsShareOf keys s = (k : ℕ) × (get_elem? keys.shares k ≡ some s)

module _ (fn : ScalarField) (laws : IsField fn) (curve : Curve fn) (group : IsCurve fn curve) where
  open fn use {Scalar, create}
  open group use {act, multiplied}

  -- The partial evaluations of `m` by the nodes that respond, in their order.
  abbrev pub AreEvaluations : curve.Point → List (Share fn) → List (Partial fn curve) → Type 0
  AreEvaluations m [] [] = Unit
  AreEvaluations m (s ∷ shares) (p ∷ partials) =
      (partial_eval fn curve s m ≡ ok p) × AreEvaluations m shares partials
  AreEvaluations m _ _ = ⊥

  abbrev pub share_indices : List (Share fn) → List ℕ
  share_indices = map (λ (s : Share fn). s.i)

  partial_eval_inv :
      (s : Share fn) (m : curve.Point) (p : Partial fn curve)
      → partial_eval fn curve s m ≡ ok p
      → (p.i ≡ s.i) × (p.b_i ≡ act m s.k_i)
  unfolding partial_eval
  partial_eval_inv s m p h =
      let (q, made, e) = >>=-eq-ok (curve.multiply m s.k_i) _ h in
      let same : ◌≡◌ {A = Partial fn curve} (record { i = s.i; b_i = q }) p = ok-injective e in
      (
        ap (λ (r : Partial fn curve). r.i) (sym same),
        ap (λ (r : Partial fn curve). r.b_i) (sym same) ∙ multiplied m q s.k_i made,
      )

  -- The evaluations are by values of the polynomial, at the indices of the responders.
  evaluations_inv :
      (n t : ℕ) (keys : KeySet fn) (shared : IsShared fn laws n t keys) (m : curve.Point)
      (responders : List (Share fn)) (partials : List (Partial fn curve))
      → n < fn.order
      → All (IsShareOf fn laws keys) responders
      → AreEvaluations m responders partials
      → (indices_of fn curve partials ≡ share_indices responders)
        × (length partials ≡ length responders)
        × ArePositive fn laws curve group (indices_of fn curve partials)
        × AreBounded fn laws (indices_of fn curve partials)
        × AreValues fn laws curve group m (λ i. poly_eval fn shared.coeffs (create i)) partials
  evaluations_inv n t keys shared m [] [] lt all evs = (refl, refl, tt, tt, tt)
  evaluations_inv n t keys shared m [] (p ∷ partials) lt all evs = absurd evs
  evaluations_inv n t keys shared m (s ∷ responders) [] lt all evs = absurd evs
  evaluations_inv n t keys shared m (s ∷ responders) (p ∷ partials) lt (mem, all) (ev, evs) =
      let (index, value) = partial_eval_inv s m p ev in
      let (k, at) = mem in
      let (at_i, at_k, below) =
        get_elem?-shares_from fn laws shared.coeffs n 1 k s (rw shared.shares at at) in
      let (indices, size, pos, b, values) =
        evaluations_inv n t keys shared m responders partials lt all evs in
      (
        ap₂ (λ i is. i ∷ is) index indices,
        ap suc size,
        (omega (arith, index, at_i), pos),
        (omega (arith, index, at_i, below, lt), b),
        (
          value ∙ ap (act m) (at_k ∙ ap (λ i. poly_eval fn shared.coeffs (create i)) (sym index)),
          values,
        ),
      )

  -- The partial evaluations of a point by `t` or more different nodes of a generated key, fewer than
  -- the order of the group, are combined to the evaluation of that point by the key, whichever nodes
  -- respond.
  pub dkg_keygen-combine_threshold :
      (rand : ℕ → Scalar) (n t : ℕ) (keys : KeySet fn) (m : curve.Point)
      (responders : List (Share fn)) (partials : List (Partial fn curve))
      → dkg_keygen fn rand n t ≡ ok keys
      → n < fn.order
      → 0 < t
      → t ≤ length responders
      → All (IsShareOf fn laws keys) responders
      → AreDistinct (share_indices responders)
      → AreEvaluations m responders partials
      → combine_threshold fn curve partials ≡ ok (act m keys.k_implied)
  dkg_keygen-combine_threshold rand n t keys m responders partials made lt pos le all distinct evs =
      let shared = dkg_keygen-IsShared fn laws rand n t keys made in
      let (indices, size, positive, b, values) =
        evaluations_inv n t keys shared m responders partials lt all evs in
      let enough : length shared.coeffs ≤ length (indices_of fn curve partials) =
        subst (λ is. length shared.coeffs ≤ length is) (sym indices)
          (omega (arith, shared.size, le, length-share_indices responders)) in
      (combine_threshold-poly_eval fn laws curve group shared.coeffs m partials
        (omega (arith, size, pos, le)) enough (subst AreDistinct (sym indices) distinct) positive b
        values).0
      ∙ ap (λ k. ok (act m k)) (sym shared.key)
    where
      length-share_indices : (ss : List (Share fn)) → length (share_indices ss) ≡ length ss
      length-share_indices [] = refl
      length-share_indices (s ∷ ss) = ap suc (length-share_indices ss)
