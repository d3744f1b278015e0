-- ===== src/V3/Threshold/Interpolation.antt =====
-- The weighted values of a polynomial add up to its value at 0.
use crisp_qes.Common.{
  ℕ, ◌<◌, ◌≤◌, ◌≡◌, ◌≢◌, refl, sym, ap, ap₂, ◌∙◌, false, List, [], ◌∷◌, ◌==◌, length, All, arith,
  ==_iff,
}
use crisp_qes.V3.Threshold.{ScalarField, poly_eval}
use crisp_qes.V3.Threshold.Field
use crisp_qes.V3.Threshold.Field.{IsField}
use crisp_qes.V3.Threshold.Lagrange
use crisp_qes.V3.Threshold.Lagrange.{AreDistinct, AreBounded, factor, weight, total}

module _ (fn : ScalarField) (laws : IsField fn) where
  open fn use {Scalar, create, add, mul, neg, sub, inv, order}
  open laws use {
    add_assoc, add_comm, zero_add, add_neg, mul_assoc, mul_comm, one_mul, mul_add, sub_eq, mul_inv,
  }

  -- The value at `i` of `x - s`.
  abbrev root_at : ℕ → ℕ → Scalar
  root_at s i = sub (create i) (create s)

  -- Other indices than `s`, below the order.
  abbrev IsOther : ℕ → ℕ → Type 0
  IsOther s i = (s ≢ i) × (i < order)

  All-IsOther :
      (s : ℕ) (indices : List ℕ)
      → All (λ j. s ≢ j) indices
      → AreBounded fn laws indices
      → All (IsOther s) indices
  All-IsOther s [] a b = tt
  All-IsOther s (i ∷ indices) a b = ((a.0, b.0), All-IsOther s indices a.1 b.1)

  factor_root :
      (s i : ℕ) (q : Scalar)
      → s < order
      → IsOther s i
      → mul (factor fn laws i s) (mul (root_at s i) q) ≡ mul (neg (create s)) q
  factor_root s i q lt o =
      let apart : i ≢ s = ground (arith, o.0) in
      let other : (s == i) ≡ false = ground (arith, o.0) in
      let d = root_at s i in
      let ns = neg (create s) in
      ap (λ x. mul x (mul d q)) (Lagrange.factor_other fn laws i s other)
      ∙ Field.mul_mul_mul_comm fn laws ns (inv d) d q
      ∙ mul_assoc ns d (mul (inv d) q)
      ∙ ap (mul ns) (
          sym (mul_assoc d (inv d) q)
          ∙ ap (λ x. mul x q) (mul_inv d (Field.sub_ne fn laws i s o.1 lt apart))
          ∙ one_mul q)

  -- `x - s` takes the index `s` out of the sum.
  total_root :
      (s : ℕ) (indices : List ℕ) (q : ℕ → Scalar)
      → s < order
      → All (λ j. s ≢ j) indices
      → AreBounded fn laws indices
      → total fn laws (s ∷ indices) (s ∷ indices) (λ i. mul (root_at s i) (q i))
        ≡ mul (neg (create s)) (total fn laws indices indices q)
  unfolding total
  total_root s indices q lt a b =
      let g = λ (i : ℕ). mul (root_at s i) (q i) in
      let w = weight fn laws (s ∷ indices) s in
      let first : mul w (g s) ≡ create 0 =
        ap (λ x. mul w (mul x (q s))) (Field.sub_self fn laws (create s))
        ∙ ap (mul w) (Field.zero_mul fn laws (q s))
        ∙ Field.mul_zero fn laws w in
      ap (λ x. add x (total fn laws (s ∷ indices) indices g)) first
      ∙ zero_add (total fn laws (s ∷ indices) indices g)
      ∙ Lagrange.total-cons fn laws s indices indices g
      ∙ Lagrange.total-cong fn laws indices indices (IsOther s) _ _ (All-IsOther s indices a b)
          (λ i o. factor_root s i (q i) lt o)
      ∙ Lagrange.total-scale fn laws indices indices (neg (create s)) q

  abbrev constant : Scalar → ℕ → Scalar
  constant c i = c

  -- `x - s = (t - s) + (x - t)`
  root_at-add : (s t i : ℕ) → root_at s i ≡ add (root_at s t) (root_at t i)
  root_at-add s t i =
      let x = create i in
      let y = create t in
      let nt = neg y in
      let ns = neg (create s) in
      sub_eq x (create s)
      ∙ ap (add x) (
          sym (zero_add ns)
          ∙ ap (λ z. add z ns) (sym (Field.neg_add fn laws y))
          ∙ add_assoc nt y ns)
      ∙ sym (add_assoc x nt (add y ns))
      ∙ add_comm (add x nt) (add y ns)
      ∙ ap₂ add (sym (sub_eq y (create s))) (sym (sub_eq x y))

  -- The same at 0, times 1.
  neg-add :
      (s t : ℕ)
      → mul (neg (create s)) (create 1)
        ≡ add (mul (root_at s t) (create 1)) (mul (neg (create t)) (create 1))
  neg-add s t =
      let y = create t in
      let nt = neg y in
      let ns = neg (create s) in
      ap (λ z. mul z (create 1))
        (sym (zero_add ns)
          ∙ ap (λ z. add z ns) (sym (Field.neg_add fn laws y))
          ∙ add_assoc nt y ns
          ∙ add_comm nt (add y ns)
          ∙ ap (λ z. add z nt) (sym (sub_eq y (create s))))
      ∙ Field.add_mul fn laws (root_at s t) nt (create 1)

  AreOther-sym : (s t : ℕ) → s ≢ t → t ≢ s
  AreOther-sym s t h e = h (sym e)

  -- The weights add up to 1.
  pub total_one :
      (s : ℕ) (indices : List ℕ)
      → AreDistinct (s ∷ indices)
      → AreBounded fn laws (s ∷ indices)
      → total fn laws (s ∷ indices) (s ∷ indices) (constant (create 1)) ≡ create 1
  total_one s [] a b =
      let w : weight fn laws (s ∷ []) s ≡ create 1 =
        unfold weight in
        (Field.mul_one fn laws _ ∙ Lagrange.factor_same fn laws s s ((==_iff s s).1 refl)) in
      unfold total in (Field.add_zero fn laws _ ∙ Field.mul_one fn laws _ ∙ w)
  total_one s (t ∷ indices) (st, (ti, distinct)) (s_lt, (t_lt, b)) =
      let all = s ∷ t ∷ indices in
      let sum = total fn laws all all in
      let one = constant (create 1) in
      let d = root_at s t in
      let t_term = mul (neg (create t)) (create 1) in
      let without_s : sum (λ i. mul (root_at s i) (create 1)) ≡ mul (neg (create s)) (create 1) =
        total_root s (t ∷ indices) one s_lt st (t_lt, b)
        ∙ ap (mul (neg (create s))) (total_one t indices (ti, distinct) (t_lt, b)) in
      let without_t : sum (λ i. mul (root_at t i) (create 1)) ≡ t_term =
        Lagrange.total_swap fn laws s t indices (λ i. mul (root_at t i) (create 1))
        ∙ total_root t (s ∷ indices) one t_lt (AreOther-sym s t st.0, ti) (s_lt, b)
        ∙ ap (mul (neg (create t))) (total_one s indices (st.1, distinct) (s_lt, b)) in
      let split : (λ (i : ℕ). mul (root_at s i) (create 1))
          ≡ (λ i. add (mul d (create 1)) (mul (root_at t i) (create 1))) =
        λ k i.
          (ap (λ z. mul z (create 1)) (root_at-add s t i)
              ∙ Field.add_mul fn laws d (root_at t i) (create 1))
            k in
      let parted : sum (λ i. mul (root_at s i) (create 1)) ≡ add (mul d (sum one)) t_term =
        ap sum split
        ∙ Lagrange.total-add fn laws all all _ _
        ∙ ap₂ add (Lagrange.total-scale fn laws all all d one) without_t in
      Field.mul_cancel fn laws d (sum one) (create 1)
        (Field.sub_ne fn laws t s t_lt s_lt (AreOther-sym s t st.0))
        (Field.add_cancel fn laws t_term (mul d (sum one)) (mul d (create 1)) (
          add_comm t_term (mul d (sum one))
          ∙ sym parted
          ∙ without_s
          ∙ neg-add s t
          ∙ add_comm (mul d (create 1)) t_term))

  poly_eval_empty : (x : Scalar) → poly_eval fn [] x ≡ mul (create 0) (poly_eval fn [] x)
  unfolding poly_eval
  poly_eval_empty x = sym (Field.zero_mul fn laws (create 0))

  -- A round of Horner's loop at `i`, around `s`.
  horner :
      (c : Scalar) (coeffs : List Scalar) (s i : ℕ)
      → poly_eval fn (c ∷ coeffs) (create i)
        ≡ add
            (add
              (mul (root_at s i) (poly_eval fn coeffs (create i)))
              (mul (create s) (poly_eval fn coeffs (create i))))
            (mul c (create 1))
  unfolding poly_eval
  horner c coeffs s i =
      let x = create i in
      let p = poly_eval fn coeffs x in
      let whole : x ≡ add (root_at s i) (create s) =
        sym (Field.add_zero fn laws x)
        ∙ ap (add x) (sym (Field.neg_add fn laws (create s)))
        ∙ sym (add_assoc x (neg (create s)) (create s))
        ∙ ap (λ z. add z (create s)) (sym (sub_eq x (create s))) in
      ap₂ add
        (mul_comm p x ∙ ap (λ z. mul z p) whole ∙ Field.add_mul fn laws (root_at s i) (create s) p)
        (sym (Field.mul_one fn laws c))

  -- The weighted sum of the values of a polynomial with at most as many coefficients as there are
  -- indices, all of them different, is its value at 0.
  pub total-poly_eval :
      (coeffs : List Scalar) (indices : List ℕ)
      → length coeffs ≤ length indices
      → AreDistinct indices
      → AreBounded fn laws indices
      → total fn laws indices indices (λ i. poly_eval fn coeffs (create i))
        ≡ poly_eval fn coeffs (create 0)
  total-poly_eval [] indices le a b =
      let zero : (λ (i : ℕ). poly_eval fn [] (create i))
          ≡ (λ i. mul (create 0) (poly_eval fn [] (create i))) =
        λ k i. poly_eval_empty (create i) k in
      ap (total fn laws indices indices) zero
      ∙ Lagrange.total-scale fn laws indices indices (create 0) _
      ∙ Field.zero_mul fn laws _
      ∙ (unfold poly_eval in refl)
  total-poly_eval (c ∷ coeffs) [] le a b = absurd (omega (arith, le))
  total-poly_eval (c ∷ coeffs) (s ∷ indices) le (si, distinct) (s_lt, b) =
      let all = s ∷ indices in
      let p = λ (i : ℕ). poly_eval fn coeffs (create i) in
      let p0 = poly_eval fn coeffs (create 0) in
      let without_s : total fn laws all all (λ i. mul (root_at s i) (p i))
          ≡ mul (neg (create s)) p0 =
        total_root s indices p s_lt si b
        ∙ ap (mul (neg (create s)))
            (total-poly_eval coeffs indices (omega (arith, le)) distinct b) in
      let scaled : total fn laws all all (λ i. mul (create s) (p i)) ≡ mul (create s) p0 =
        Lagrange.total-scale fn laws all all (create s) p
        ∙ ap (mul (create s))
            (total-poly_eval coeffs all (omega (arith, le)) (si, distinct) (s_lt, b)) in
      let last : total fn laws all all (constant (mul c (create 1))) ≡ c =
        Lagrange.total-scale fn laws all all c (constant (create 1))
        ∙ ap (mul c) (total_one s indices (si, distinct) (s_lt, b))
        ∙ Field.mul_one fn laws c in
      let parts : (λ (i : ℕ). poly_eval fn (c ∷ coeffs) (create i))
          ≡ (λ i. add (add (mul (root_at s i) (p i)) (mul (create s) (p i))) (mul c (create 1))) =
        λ k i. horner c coeffs s i k in
      ap (total fn laws all all) parts
      ∙ Lagrange.total-add fn laws all all _ _
      ∙ ap₂ add (Lagrange.total-add fn laws all all _ _ ∙ ap₂ add without_s scaled) last
      ∙ ap (λ z. add z c) (Field.neg_mul_add fn laws (create s) p0)
      ∙ (unfold poly_eval in ap (λ z. add z c) (sym (Field.mul_zero fn laws p0)))
