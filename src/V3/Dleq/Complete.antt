-- ===== src/V3/Dleq/Complete.antt =====
-- The evaluation of a node carries a proof that is accepted.
use crisp_qes.Common.{
  ℕ, ◌%◌, ◌≡◌, ◌≢◌, refl, sym, subst, ap, ap₂, ◌∙◌, true, List, ok, >>=-eq-ok, ok-injective, ◌==◌,
  ==_iff, Bool-cases, inl, inr,
}
use crisp_qes.V3.Threshold.{ScalarField, Curve}
use crisp_qes.V3.Threshold.Field
use crisp_qes.V3.Threshold.Field.{IsField}
use crisp_qes.V3.Threshold.Combine.{IsCurve}
use crisp_qes.V3.Dleq.{
  Coordinates, Dleq, challenge, dleq_prove_share, verify_dleq_share, ShareNode, share_node,
  Evaluated, evaluate,
}

module _ (bb : List (List ℕ) → ℕ → List ℕ) (fn : ScalarField) (laws : IsField fn) (curve : Curve fn)
    (group : IsCurve fn curve) (co : Coordinates fn curve)
    (negates : (p : curve.Point) (a : fn.Scalar)
      → co.negate (group.act p a) ≡ group.act p (fn.neg a)) where
  open fn use {Scalar, create, add, mul, neg}
  open group use {act, multiplied, multiplies, act_add, act_act}

  -- `t + c * k - k * c`
  undone : (t c k : Scalar) → add (add t (mul c k)) (neg (mul k c)) ≡ t
  undone t c k =
      laws.add_assoc t (mul c k) (neg (mul k c))
      ∙ ap (λ x. add t (add x (neg (mul k c)))) (laws.mul_comm c k)
      ∙ ap (add t) (laws.add_neg (mul k c))
      ∙ Field.add_zero fn laws t

  -- The verifier finds the prover's point again.
  found_again :
      (p : curve.Point) (t c k : Scalar)
      → curve.add (act p (add t (mul c k))) (co.negate (act (act p k) c)) ≡ act p t
  found_again p t c k =
      ap (λ q. curve.add (act p (add t (mul c k))) (co.negate q)) (act_act p k c)
      ∙ ap (curve.add (act p (add t (mul c k)))) (negates p (mul k c))
      ∙ act_add p (add t (mul c k)) (neg (mul k c))
      ∙ ap (act p) (undone t c k)

  share_node-keyed :
      (i k_i : ℕ) (node : ShareNode bb fn curve co)
      → share_node bb fn curve co i k_i ≡ ok node
      → node.kpub_i ≡ act curve.base node.k_i
  unfolding share_node
  share_node-keyed i k_i node made = elim (Bool-cases (k_i % fn.order == 0)) [
    | inl zero_share ↦ absurd (let h = rw zero_share at made in cc)
    | inr fine ↦
        let h = rw fine at made in
        let (kpub_i, eq, same) = >>=-eq-ok (curve.multiply curve.base (create k_i)) _ h in
        subst (λ n. n.kpub_i ≡ act curve.base n.k_i) (ok-injective same)
          (multiplied curve.base kpub_i (create k_i) eq)
  ]

  -- What an evaluation consists of.
  abbrev IsEvaluated :
      Scalar → ShareNode bb fn curve co → curve.Point → ℕ → Evaluated bb fn curve co → Type 0
  IsEvaluated t node m epoch e =
      (e.b_i ≡ act m node.k_i)
      × (e.dleq.c
          ≡ challenge bb fn curve co node.kpub_i m (act m node.k_i) (act curve.base t) (act m t)
              epoch)
      × (e.dleq.z ≡ add t (mul (create e.dleq.c) node.k_i))

  evaluate-IsEvaluated :
      (t : Scalar) (node : ShareNode bb fn curve co) (m : curve.Point) (epoch : ℕ)
      (e : Evaluated bb fn curve co)
      → evaluate bb fn curve co t node m epoch ≡ ok e
      → IsEvaluated t node m epoch e
  unfolding evaluate dleq_prove_share
  evaluate-IsEvaluated t node m epoch e evaluated =
      let (b, b_eq, rest) = >>=-eq-ok (curve.multiply m node.k_i) _ evaluated in
      let (d, d_eq, e_eq) =
        >>=-eq-ok (dleq_prove_share bb fn curve co t node.kpub_i node.k_i m b epoch) _ rest in
      let (a1, a1_eq, d_rest) = >>=-eq-ok (curve.multiply curve.base t) _ d_eq in
      let (a2, a2_eq, same) = >>=-eq-ok (curve.multiply m t) _ d_rest in
      let transcript =
        ap (λ q. challenge bb fn curve co node.kpub_i m q a1 a2 epoch)
          (multiplied m b node.k_i b_eq)
        ∙ ap₂ (λ q r. challenge bb fn curve co node.kpub_i m (act m node.k_i) q r epoch)
            (multiplied curve.base a1 t a1_eq) (multiplied m a2 t a2_eq) in
      subst (IsEvaluated t node m epoch) (ok-injective e_eq) (
        subst
          (λ d.
            (b ≡ act m node.k_i)
            × (d.c
                ≡ challenge bb fn curve co node.kpub_i m (act m node.k_i) (act curve.base t)
                    (act m t) epoch)
            × (d.z ≡ add t (mul (create d.c) node.k_i)))
          (ok-injective same) (multiplied m b node.k_i b_eq, transcript, refl))

  -- A proof with these parts is accepted.
  verified :
      (t k : Scalar) (m : curve.Point) (epoch : ℕ) (d : Dleq bb fn curve co)
      → d.c
        ≡ challenge bb fn curve co (act curve.base k) m (act m k) (act curve.base t) (act m t) epoch
      → d.z ≡ add t (mul (create d.c) k)
      → create d.c ≢ create 0
      → d.z ≢ create 0
      → verify_dleq_share bb fn curve co (act curve.base k) m (act m k) epoch d ≡ ok true
  unfolding verify_dleq_share
  verified t k m epoch d c_eq z_eq c_ne z_ne =
      rw
        (
          multiplies curve.base d.z z_ne,
          multiplies (act curve.base k) (create d.c) c_ne,
          multiplies m d.z z_ne,
          multiplies (act m k) (create d.c) c_ne,
        )
        (ap (λ x. ok (x % co.field_order == d.c % co.field_order)) expected
          ∙ ap ok ((==_iff (d.c % co.field_order) (d.c % co.field_order)).1 refl))
    where
      again :
          (p : curve.Point)
          → curve.add (act p d.z) (co.negate (act (act p k) (create d.c))) ≡ act p t
      again p =
          ap (λ z. curve.add (act p z) (co.negate (act (act p k) (create d.c)))) z_eq
          ∙ found_again p t (create d.c) k

      expected :
          challenge bb fn curve co
            (act curve.base k)
            m
            (act m k)
            (curve.add (act curve.base d.z) (co.negate (act (act curve.base k) (create d.c))))
            (curve.add (act m d.z) (co.negate (act (act m k) (create d.c))))
            epoch
          ≡ d.c
      expected =
          ap₂ (λ a1 a2. challenge bb fn curve co (act curve.base k) m (act m k) a1 a2 epoch)
            (again curve.base) (again m)
          ∙ sym c_eq

  -- What a node evaluates is accepted by the check of the proof, for the key that the node publishes,
  -- the point and the epoch. It is assumed that neither the challenge nor the response is the scalar
  -- 0, which the curve's multiplication refuses.
  pub evaluate-verify_dleq_share :
      (t : Scalar) (i k_i : ℕ) (node : ShareNode bb fn curve co) (m : curve.Point) (epoch : ℕ)
      (e : Evaluated bb fn curve co)
      → share_node bb fn curve co i k_i ≡ ok node
      → evaluate bb fn curve co t node m epoch ≡ ok e
      → create e.dleq.c ≢ create 0
      → e.dleq.z ≢ create 0
      → verify_dleq_share bb fn curve co node.kpub_i m e.b_i epoch e.dleq ≡ ok true
  unfolding share_node evaluate dleq_prove_share verify_dleq_share
  evaluate-verify_dleq_share t i k_i node m epoch e made evaluated c_ne z_ne =
      let (b_eq, c_eq, z_eq) = evaluate-IsEvaluated t node m epoch e evaluated in
      let key_eq = share_node-keyed i k_i node made in
      rw (key_eq, b_eq)
        (verified t node.k_i m epoch e.dleq
          (subst
            (λ q.
              e.dleq.c
              ≡ challenge bb fn curve co q m (act m node.k_i) (act curve.base t) (act m t) epoch)
            key_eq c_eq)
          z_eq c_ne z_ne)
