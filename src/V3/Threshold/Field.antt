-- ===== src/V3/Threshold/Field.antt =====
-- The laws of the scalar field, and what follows from them.
use crisp_qes.Common.{ℕ, ◌<◌, ◌≡◌, ◌≢◌, sym, ap, ap₂, ◌∙◌, arith}
use crisp_qes.V3.Threshold.{ScalarField}

-- `Fn` is a field, and two numbers below its order are different elements.
pub record IsField (fn : ScalarField) : Type 1 where
  pub add_assoc : (a b c : fn.Scalar) → fn.add (fn.add a b) c ≡ fn.add a (fn.add b c)
  pub add_comm : (a b : fn.Scalar) → fn.add a b ≡ fn.add b a
  pub zero_add : (a : fn.Scalar) → fn.add (fn.create 0) a ≡ a
  pub add_neg : (a : fn.Scalar) → fn.add a (fn.neg a) ≡ fn.create 0
  pub mul_assoc : (a b c : fn.Scalar) → fn.mul (fn.mul a b) c ≡ fn.mul a (fn.mul b c)
  pub mul_comm : (a b : fn.Scalar) → fn.mul a b ≡ fn.mul b a
  pub one_mul : (a : fn.Scalar) → fn.mul (fn.create 1) a ≡ a
  pub mul_add : (a b c : fn.Scalar) → fn.mul a (fn.add b c) ≡ fn.add (fn.mul a b) (fn.mul a c)
  pub sub_eq : (a b : fn.Scalar) → fn.sub a b ≡ fn.add a (fn.neg b)
  pub mul_inv : (a : fn.Scalar) → a ≢ fn.create 0 → fn.mul a (fn.inv a) ≡ fn.create 1
  pub create_injective : (i j : ℕ) → i < fn.order → j < fn.order → fn.create i ≡ fn.create j → i ≡ j
  pub order_gt : 1 < fn.order

module _ (fn : ScalarField) (laws : IsField fn) where
  open fn use {Scalar, create, add, mul, neg, sub, inv, order}
  open laws use {
    add_assoc, add_comm, zero_add, add_neg, mul_assoc, mul_comm, one_mul, mul_add, sub_eq, mul_inv,
    create_injective, order_gt,
  }

  pub add_left_comm : (a b c : Scalar) → add a (add b c) ≡ add b (add a c)
  add_left_comm a b c = sym (add_assoc a b c) ∙ ap (λ x. add x c) (add_comm a b) ∙ add_assoc b a c

  pub mul_left_comm : (a b c : Scalar) → mul a (mul b c) ≡ mul b (mul a c)
  mul_left_comm a b c = sym (mul_assoc a b c) ∙ ap (λ x. mul x c) (mul_comm a b) ∙ mul_assoc b a c

  pub add_add_add_comm : (a b c d : Scalar) → add (add a b) (add c d) ≡ add (add a c) (add b d)
  add_add_add_comm a b c d =
      add_assoc a b (add c d) ∙ ap (add a) (add_left_comm b c d) ∙ sym (add_assoc a c (add b d))

  pub mul_mul_mul_comm : (a b c d : Scalar) → mul (mul a b) (mul c d) ≡ mul (mul a c) (mul b d)
  mul_mul_mul_comm a b c d =
      mul_assoc a b (mul c d) ∙ ap (mul a) (mul_left_comm b c d) ∙ sym (mul_assoc a c (mul b d))

  pub add_zero : (a : Scalar) → add a (create 0) ≡ a
  add_zero a = add_comm a (create 0) ∙ zero_add a

  pub mul_one : (a : Scalar) → mul a (create 1) ≡ a
  mul_one a = mul_comm a (create 1) ∙ one_mul a

  pub add_mul : (a b c : Scalar) → mul (add a b) c ≡ add (mul a c) (mul b c)
  add_mul a b c = mul_comm (add a b) c ∙ mul_add c a b ∙ ap₂ add (mul_comm c a) (mul_comm c b)

  pub neg_add : (a : Scalar) → add (neg a) a ≡ create 0
  neg_add a = add_comm (neg a) a ∙ add_neg a

  -- From `a + b = a + c`.
  pub add_cancel : (a b c : Scalar) → add a b ≡ add a c → b ≡ c
  add_cancel a b c h =
      sym (zero_add b)
      ∙ ap (λ x. add x b) (sym (neg_add a))
      ∙ add_assoc (neg a) a b
      ∙ ap (add (neg a)) h
      ∙ sym (add_assoc (neg a) a c)
      ∙ ap (λ x. add x c) (neg_add a)
      ∙ zero_add c

  pub mul_zero : (a : Scalar) → mul a (create 0) ≡ create 0
  mul_zero a = add_cancel (mul a (create 0)) (mul a (create 0)) (create 0) (
      sym (mul_add a (create 0) (create 0))
      ∙ ap (mul a) (zero_add (create 0))
      ∙ sym (add_zero (mul a (create 0))))

  pub zero_mul : (a : Scalar) → mul (create 0) a ≡ create 0
  zero_mul a = mul_comm (create 0) a ∙ mul_zero a

  pub sub_self : (a : Scalar) → sub a a ≡ create 0
  sub_self a = sub_eq a a ∙ add_neg a

  -- `-a * b + a * b = 0`
  pub neg_mul_add : (a b : Scalar) → add (mul (neg a) b) (mul a b) ≡ create 0
  neg_mul_add a b = sym (add_mul (neg a) a b) ∙ ap (λ x. mul x b) (neg_add a) ∙ zero_mul b

  pub one_ne : create 1 ≢ create 0
  one_ne h = let e = create_injective 1 0 order_gt (omega (arith, order_gt)) h in omega (arith, e)

  -- From `a * b = a * c`, for `a` other than 0.
  pub mul_cancel : (a b c : Scalar) → a ≢ create 0 → mul a b ≡ mul a c → b ≡ c
  mul_cancel a b c ne h = sym (undo b) ∙ ap (mul (inv a)) h ∙ undo c
    where
      undo : (x : Scalar) → mul (inv a) (mul a x) ≡ x
      undo x =
          sym (mul_assoc (inv a) a x)
          ∙ ap (λ y. mul y x) (mul_comm (inv a) a ∙ mul_inv a ne)
          ∙ one_mul x

  pub mul_ne : (a b : Scalar) → a ≢ create 0 → b ≢ create 0 → mul a b ≢ create 0
  mul_ne a b ha hb h = hb (mul_cancel a b (create 0) ha (h ∙ sym (mul_zero a)))

  pub inv_ne : (a : Scalar) → a ≢ create 0 → inv a ≢ create 0
  inv_ne a ha h = one_ne (sym (mul_inv a ha) ∙ ap (mul a) h ∙ mul_zero a)

  pub inv_mul : (a b : Scalar) → a ≢ create 0 → b ≢ create 0 → inv (mul a b) ≡ mul (inv a) (inv b)
  inv_mul a b ha hb =
      mul_cancel (mul a b) (inv (mul a b)) (mul (inv a) (inv b)) (mul_ne a b ha hb)
        (mul_inv (mul a b) (mul_ne a b ha hb) ∙ sym product)
    where
      product : mul (mul a b) (mul (inv a) (inv b)) ≡ create 1
      product =
          mul_assoc a b (mul (inv a) (inv b))
          ∙ ap (mul a) (mul_left_comm b (inv a) (inv b))
          ∙ sym (mul_assoc a (inv a) (mul b (inv b)))
          ∙ ap₂ mul (mul_inv a ha) (mul_inv b hb)
          ∙ one_mul (create 1)

  -- Two numbers below the order that differ have a difference other than 0.
  pub sub_ne : (i j : ℕ) → i < order → j < order → i ≢ j → sub (create i) (create j) ≢ create 0
  sub_ne i j hi hj ne h = ne (
      create_injective i j hi hj (
        sym (add_zero (create i))
        ∙ ap (add (create i)) (sym (neg_add (create j)))
        ∙ sym (add_assoc (create i) (neg (create j)) (create j))
        ∙ ap (λ x. add x (create j)) (sym (sub_eq (create i) (create j)) ∙ h)
        ∙ zero_add (create j)))

  -- `-j` is 0 for 0 alone.
  pub neg_ne : (j : ℕ) → 0 < j → j < order → neg (create j) ≢ create 0
  neg_ne j pos lt h =
      let e =
        create_injective j 0 lt (omega (arith, order_gt))
          (sym (add_zero (create j)) ∙ ap (add (create j)) (sym h) ∙ add_neg (create j)) in
      omega (arith, e, pos)
