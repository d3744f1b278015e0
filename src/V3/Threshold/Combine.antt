-- ===== src/V3/Threshold/Combine.antt =====
-- The combination of the partial evaluations.
use crisp_qes.Common.{
  ℕ, ◌<◌, ◌≤◌, ◌≡◌, ◌≢◌, refl, sym, ap, ◌∙◌, ◌↔◌, false, none, some, List, [], ◌∷◌, ◌==◌, any,
  length, All, arith, Bool-cases, inl, inr, ok, fail,
}
use crisp_qes.V3.Threshold.{
  ScalarField, Curve, Partial, poly_eval, lagrange_coeff, has_duplicate, combine_from, indices_of,
  combine, combine_threshold,
}
use crisp_qes.V3.Threshold.Field
use crisp_qes.V3.Threshold.Field.{IsField}
use crisp_qes.V3.Threshold.Lagrange
use crisp_qes.V3.Threshold.Lagrange.{
  AreDistinct, AreBounded, factor, weight, total, lagrange_coeff-weight,
}
use crisp_qes.V3.Threshold.Interpolation.{total-poly_eval}

-- What the combination relies on of the curve: multiplication is an action of the field, and is
-- refused at most for 0.
pub record IsCurve (fn : ScalarField) (curve : Curve fn) : Type 1 where
  pub act : curve.Point → fn.Scalar → curve.Point
  pub multiplied : (p q : curve.Point) (a : fn.Scalar) → curve.multiply p a ≡ ok q → q ≡ act p a
  pub multiplies :
      (p : curve.Point) (a : fn.Scalar) → a ≢ fn.create 0 → curve.multiply p a ≡ ok (act p a)
  pub act_add :
      (p : curve.Point) (a b : fn.Scalar) → curve.add (act p a) (act p b) ≡ act p (fn.add a b)
  pub act_act : (p : curve.Point) (a b : fn.Scalar) → act (act p a) b ≡ act p (fn.mul a b)

module _ (fn : ScalarField) where
  -- The indices are different from each other and from those seen.
  abbrev AreFresh : List ℕ → List ℕ → Type 0
  AreFresh seen indices = All (λ i. any (λ j. j == i) seen ≡ false) indices

  AreFresh-cons :
      (s : ℕ) (seen indices : List ℕ)
      → AreFresh (s ∷ seen) indices ↔ (All (λ j. s ≢ j) indices × AreFresh seen indices)
  AreFresh-cons s seen [] = (λ _. (tt, tt), λ _. tt)
  AreFresh-cons s seen (i ∷ indices) =
      let (forth, back) = AreFresh-cons s seen indices in
      (
        λ (fresh, rest).
            let (apart, others) = forth rest in
            (((ground (arith, fresh)), apart), (ground (arith, fresh), others)),
        λ ((ne, apart), (fresh, others)). (ground (arith, ne, fresh), back (apart, others)),
      )

  has_duplicate-AreDistinct :
      (seen indices : List ℕ)
      → (has_duplicate fn seen indices ≡ false) ↔ (AreDistinct indices × AreFresh seen indices)
  unfolding has_duplicate
  has_duplicate-AreDistinct seen [] = (λ _. (tt, tt), λ _. refl)
  has_duplicate-AreDistinct seen (i ∷ indices) =
      let (forth, back) = has_duplicate-AreDistinct (i ∷ seen) indices in
      let (split, join) = AreFresh-cons i seen indices in
      elim (Bool-cases (any (λ j. j == i) seen)) [
        | inl old ↦ rw old (λ h. cc, λ h. cc)
        | inr new ↦ rw new (
          λ h.
              let (distinct, fresh) = forth h in
              let (apart, others) = split fresh in ((apart, distinct), (refl, others)),
          λ ((apart, distinct), (_, others)). back (distinct, join (apart, others)),
        )
      ]

  -- The check of the indices lets exactly lists of different indices through.
  pub has_duplicate_iff :
      (indices : List ℕ) → (has_duplicate fn [] indices ≡ false) ↔ AreDistinct indices
  has_duplicate_iff indices =
      let (forth, back) = has_duplicate-AreDistinct [] indices in
      (λ h. (forth h).0, λ d. back (d, none_seen indices))
    where
      none_seen : (is : List ℕ) → All (λ i. any (λ j. j == i) [] ≡ false) is
      none_seen [] = tt
      none_seen (i ∷ is) = (refl, none_seen is)

module _ (fn : ScalarField) (laws : IsField fn) (curve : Curve fn) (group : IsCurve fn curve) where
  open fn use {Scalar, create, add, mul, neg, sub, inv, order}
  open group use {act, multiplied, multiplies, act_add, act_act}

  abbrev pub ArePositive : List ℕ → Type 0
  ArePositive = All (λ j. 0 < j)

  -- The partial evaluations of `m` by shares that are the values of `f` at their indices.
  abbrev pub AreValues : curve.Point → (ℕ → Scalar) → List (Partial fn curve) → Type 0
  AreValues m f = All (λ (p : Partial fn curve). p.b_i ≡ act m (f p.i))

  factor_ne : (i j : ℕ) → i < order → 0 < j → j < order → factor fn laws i j ≢ create 0
  factor_ne i j i_lt pos lt = elim (Bool-cases (j == i)) [
    | inl same ↦ λ h. Field.one_ne fn laws (sym (Lagrange.factor_same fn laws i j same) ∙ h)
    | inr other ↦ λ h.
        let apart : i ≢ j = ground arith in
        Field.mul_ne fn laws _ _ (Field.neg_ne fn laws j pos lt)
          (Field.inv_ne fn laws _ (Field.sub_ne fn laws i j i_lt lt apart))
          (sym (Lagrange.factor_other fn laws i j other) ∙ h)
  ]

  weight_ne :
      (i : ℕ) (indices : List ℕ)
      → i < order
      → ArePositive indices
      → AreBounded fn laws indices
      → weight fn laws indices i ≢ create 0
  unfolding weight
  weight_ne i [] lt pos b = Field.one_ne fn laws
  weight_ne i (j ∷ indices) lt pos b =
      Field.mul_ne fn laws _ _ (factor_ne i j lt pos.0 b.0) (weight_ne i indices lt pos.1 b.1)

  -- A term of the loop is the weighted value.
  term_of :
      (indices : List ℕ) (m : curve.Point) (f : ℕ → Scalar) (p : Partial fn curve)
      → ArePositive indices
      → AreBounded fn laws indices
      → p.b_i ≡ act m (f p.i)
      → p.i < order
      → curve.multiply p.b_i (lagrange_coeff fn p.i indices)
        ≡ ok (act m (mul (weight fn laws indices p.i) (f p.i)))
  term_of indices m f p pos b value lt =
      let w = weight fn laws indices p.i in
      rw (lagrange_coeff-weight fn laws p.i indices lt b, value)
        (multiplies (act m (f p.i)) w (weight_ne p.i indices lt pos b)
          ∙ ap ok (act_act m (f p.i) w ∙ ap (act m) (laws.mul_comm (f p.i) w)))

  -- The loop adds the weighted values to the scalar of the sum so far.
  combine_from-total :
      (indices : List ℕ) (m : curve.Point) (f : ℕ → Scalar) (partials : List (Partial fn curve))
      (a : Scalar)
      → ArePositive indices
      → AreBounded fn laws indices
      → AreValues m f partials
      → AreBounded fn laws (indices_of fn curve partials)
      → combine_from fn curve indices partials (some (act m a))
        ≡ ok (some (act m (add a (total fn laws indices (indices_of fn curve partials) f))))
  unfolding combine_from total
  combine_from-total indices m f [] a pos b values lts =
      ap (λ z. ok (some (act m z))) (sym (Field.add_zero fn laws a))
  combine_from-total indices m f (p ∷ partials) a pos b values lts =
      let w = weight fn laws indices p.i in
      let rest = total fn laws indices (indices_of fn curve partials) f in
      let term = term_of indices m f p pos b values.0 lts.0 in
      rw (term, act_add m a (mul w (f p.i)))
        (combine_from-total indices m f partials (add a (mul w (f p.i))) pos b values.1 lts.1
          ∙ ap (λ z. ok (some (act m z))) (laws.add_assoc a (mul w (f p.i)) rest))

  -- Enough partial evaluations of `m`, by different shares of a polynomial, are combined to the
  -- evaluation of `m` by the value of the polynomial at 0.
  pub combine_threshold-poly_eval :
      (coeffs : List Scalar) (m : curve.Point) (partials : List (Partial fn curve))
      → 0 < length partials
      → length coeffs ≤ length (indices_of fn curve partials)
      → AreDistinct (indices_of fn curve partials)
      → ArePositive (indices_of fn curve partials)
      → AreBounded fn laws (indices_of fn curve partials)
      → AreValues m (λ i. poly_eval fn coeffs (create i)) partials
      → (combine_threshold fn curve partials ≡ ok (act m (poly_eval fn coeffs (create 0))))
        × (combine fn curve partials ≡ ok (some (act m (poly_eval fn coeffs (create 0)))))
  unfolding combine_threshold combine
  combine_threshold-poly_eval coeffs m [] filled le distinct pos b values =
      absurd (omega (arith, filled))
  combine_threshold-poly_eval coeffs m (p ∷ partials) filled le distinct pos b values =
      let f = λ (i : ℕ). poly_eval fn coeffs (create i) in
      let indices = indices_of fn curve (p ∷ partials) in
      let apart = (has_duplicate_iff fn indices).1 distinct in
      let sum : combine_from fn curve indices (p ∷ partials) none
          ≡ ok (some (act m (poly_eval fn coeffs (create 0)))) =
        loop indices p partials pos b values b
        ∙ ap (λ z. ok (some (act m z))) (total-poly_eval fn laws coeffs indices le distinct b) in
      rw (apart, sum) (refl, refl)
    where
      loop :
          (indices : List ℕ) (p : Partial fn curve) (partials : List (Partial fn curve))
          → ArePositive indices
          → AreBounded fn laws indices
          → AreValues m (λ i. poly_eval fn coeffs (create i)) (p ∷ partials)
          → AreBounded fn laws (indices_of fn curve (p ∷ partials))
          → combine_from fn curve indices (p ∷ partials) none
            ≡ ok (
                some (
                  act m (
                    total fn laws indices
                      (indices_of fn curve (p ∷ partials))
                      (λ i. poly_eval fn coeffs (create i)))))
      loop indices p partials pos b values lts =
          let f = λ (i : ℕ). poly_eval fn coeffs (create i) in
          unfold combine_from total in
          (rw (term_of indices m f p pos b values.0 lts.0) (
            combine_from-total indices m f partials (mul (weight fn laws indices p.i) (f p.i)) pos b
              values.1 lts.1))

  -- Repeated indices are refused.
  pub combine_threshold_repeated :
      (partials : List (Partial fn curve))
      → ¬ AreDistinct (indices_of fn curve partials)
      → (combine_threshold fn curve partials ≡ fail "combineThreshold: duplicate responder index")
        × (combine fn curve partials ≡ fail "duplicate responder index")
  unfolding combine_threshold combine
  combine_threshold_repeated partials h =
      elim (Bool-cases (has_duplicate fn [] (indices_of fn curve partials))) [
        | inl repeated ↦ rw repeated (refl, refl)
        | inr apart ↦ absurd (h ((has_duplicate_iff fn (indices_of fn curve partials)).0 apart))
      ]
