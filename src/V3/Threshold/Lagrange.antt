-- ===== src/V3/Threshold/Lagrange.antt =====
-- The weights of the responders take the values of a polynomial to its value at 0.
use crisp_qes.Common.{
  ℕ, ◌<◌, ◌≡◌, ◌≢◌, refl, sym, ap, ap₂, ◌∙◌, true, false, List, [], ◌∷◌, ◌==◌, if◌then◌else◌, All,
  arith, Bool-cases, inl, inr,
}
use crisp_qes.V3.Threshold.{ScalarField, lagrange_num, lagrange_den, lagrange_coeff}
use crisp_qes.V3.Threshold.Field
use crisp_qes.V3.Threshold.Field.{IsField}

abbrev pub AreDistinct : List ℕ → Type 0
AreDistinct [] = Unit
AreDistinct (i ∷ indices) = All (λ j. i ≢ j) indices × AreDistinct indices

module _ (fn : ScalarField) (laws : IsField fn) where
  open fn use {Scalar, create, add, mul, neg, sub, inv, order}
  open laws use {
    add_assoc, add_comm, zero_add, add_neg, mul_assoc, mul_comm, one_mul, mul_add, sub_eq, mul_inv,
  }

  abbrev pub AreBounded : List ℕ → Type 0
  AreBounded = All (λ j. j < order)

  -- `-j / (i - j)`, or 1 for `i` itself.
  unfoldable pub factor : ℕ → ℕ → Scalar
  factor i j = if j == i then create 1 else mul (neg (create j)) (inv (sub (create i) (create j)))

  unfoldable pub weight : List ℕ → ℕ → Scalar
  weight [] i = create 1
  weight (j ∷ indices) i = mul (factor i j) (weight indices i)

  pub factor_same : (i j : ℕ) → (j == i) ≡ true → factor i j ≡ create 1
  unfolding factor
  factor_same i j e = rw e refl

  pub factor_other :
      (i j : ℕ)
      → (j == i) ≡ false
      → factor i j ≡ mul (neg (create j)) (inv (sub (create i) (create j)))
  unfolding factor
  factor_other i j e = rw e refl

  -- The quotient of the loops is the product of the factors.
  loops-weight :
      (i : ℕ) (indices : List ℕ) (num den : Scalar)
      → i < order
      → AreBounded indices
      → den ≢ create 0
      → mul (lagrange_num fn i indices num) (inv (lagrange_den fn i indices den))
        ≡ mul (mul num (inv den)) (weight indices i)
  unfolding lagrange_num lagrange_den weight
  loops-weight i [] num den lt b ne = sym (Field.mul_one fn laws _)
  loops-weight i (j ∷ indices) num den lt b ne = elim (Bool-cases (j == i)) [
    | inl same ↦
        let one = ap (λ x. mul x (weight indices i)) (factor_same i j same) ∙ one_mul _ in
        rw same (loops-weight i indices num den lt b.1 ne ∙ ap (mul (mul num (inv den))) (sym one))
    | inr other ↦
        let d = sub (create i) (create j) in
        let nj = neg (create j) in
        let w = weight indices i in
        let apart : i ≢ j = ground arith in
        let d_ne = Field.sub_ne fn laws i j lt b.0 apart in
        rw other (
          loops-weight i indices (mul num nj) (mul den d) lt b.1
            (Field.mul_ne fn laws den d ne d_ne)
          ∙ ap (λ x. mul (mul (mul num nj) x) w) (Field.inv_mul fn laws den d ne d_ne)
          ∙ ap (λ x. mul x w) (Field.mul_mul_mul_comm fn laws num nj (inv den) (inv d))
          ∙ mul_assoc (mul num (inv den)) (mul nj (inv d)) w
          ∙ ap (λ x. mul (mul num (inv den)) (mul x w)) (sym (factor_other i j other)))
  ]

  pub lagrange_coeff-weight :
      (i : ℕ) (indices : List ℕ)
      → i < order
      → AreBounded indices
      → lagrange_coeff fn i indices ≡ weight indices i
  unfolding lagrange_coeff
  lagrange_coeff-weight i indices lt b =
      loops-weight i indices (create 1) (create 1) lt b (Field.one_ne fn laws)
      ∙ ap (λ x. mul x (weight indices i)) (mul_inv (create 1) (Field.one_ne fn laws))
      ∙ one_mul (weight indices i)

  -- The weighted sum of `g` over the indices `over`.
  unfoldable pub total : List ℕ → List ℕ → (ℕ → Scalar) → Scalar
  total indices [] g = create 0
  total indices (i ∷ over) g = add (mul (weight indices i) (g i)) (total indices over g)

  pub total-cong :
      (indices over : List ℕ) (P : ℕ → Type 0) (g h : ℕ → Scalar)
      → All P over
      → ((i : ℕ) → P i → g i ≡ h i)
      → total indices over g ≡ total indices over h
  unfolding total
  total-cong indices [] P g h ps e = refl
  total-cong indices (i ∷ over) P g h ps e =
      ap₂ (λ x y. add (mul (weight indices i) x) y) (e i ps.0)
        (total-cong indices over P g h ps.1 e)

  pub total-add :
      (indices over : List ℕ) (g h : ℕ → Scalar)
      → total indices over (λ i. add (g i) (h i))
        ≡ add (total indices over g) (total indices over h)
  unfolding total
  total-add indices [] g h = sym (zero_add (create 0))
  total-add indices (i ∷ over) g h =
      ap₂ add (mul_add (weight indices i) (g i) (h i)) (total-add indices over g h)
      ∙ Field.add_add_add_comm fn laws _ _ _ _

  pub total-scale :
      (indices over : List ℕ) (c : Scalar) (g : ℕ → Scalar)
      → total indices over (λ i. mul c (g i)) ≡ mul c (total indices over g)
  unfolding total
  total-scale indices [] c g = sym (Field.mul_zero fn laws c)
  total-scale indices (i ∷ over) c g =
      ap₂ add (Field.mul_left_comm fn laws (weight indices i) c (g i))
        (total-scale indices over c g)
      ∙ sym (mul_add c (mul (weight indices i) (g i)) (total indices over g))

  -- An index more in the weights is a factor of the function.
  pub total-cons :
      (s : ℕ) (indices over : List ℕ) (g : ℕ → Scalar)
      → total (s ∷ indices) over g ≡ total indices over (λ i. mul (factor i s) (g i))
  unfolding total weight
  total-cons s indices [] g = refl
  total-cons s indices (i ∷ over) g =
      ap₂ add
        (mul_assoc (factor i s) (weight indices i) (g i)
          ∙ Field.mul_left_comm fn laws (factor i s) (weight indices i) (g i))
        (total-cons s indices over g)

  weight_swap :
      (s t : ℕ) (indices : List ℕ) (i : ℕ) → weight (s ∷ t ∷ indices) i ≡ weight (t ∷ s ∷ indices) i
  unfolding weight
  weight_swap s t indices i =
      Field.mul_left_comm fn laws (factor i s) (factor i t) (weight indices i)

  total_swap_weights :
      (s t : ℕ) (indices over : List ℕ) (g : ℕ → Scalar)
      → total (s ∷ t ∷ indices) over g ≡ total (t ∷ s ∷ indices) over g
  unfolding total
  total_swap_weights s t indices [] g = refl
  total_swap_weights s t indices (i ∷ over) g =
      ap₂ (λ x y. add (mul x (g i)) y) (weight_swap s t indices i)
        (total_swap_weights s t indices over g)

  pub total_swap :
      (s t : ℕ) (indices : List ℕ) (g : ℕ → Scalar)
      → total (s ∷ t ∷ indices) (s ∷ t ∷ indices) g ≡ total (t ∷ s ∷ indices) (t ∷ s ∷ indices) g
  unfolding total
  total_swap s t indices g =
      Field.add_left_comm fn laws _ _ _ ∙ total_swap_weights s t indices (t ∷ s ∷ indices) g
