-- ===== src/Tests/Shares.antt =====
-- The numbers modulo 5 in place of the scalar field of Grumpkin and of its points, and a key in three
-- shares over them.
use crisp_qes.Common.{
  ℕ, zero, suc, ◌+◌, ◌*◌, ◌-◌, ◌%◌, ◌<◌, ◌≡◌, ◌≢◌, refl, sym, ap, ◌∙◌, Bool, true, [], ◌∷◌, String,
  Result, ok, fail, ok-injective, arith, ◌&&◌, ◌==◌,
}
use crisp_qes.V3.Threshold.{
  ScalarField, Curve, Share, KeySet, Partial, poly_eval, draws, shares_from, shamir_split,
  add_shares, zero_shares, deal, dkg_keygen, partial_eval, combine_threshold,
}
use crisp_qes.V3.Threshold.Field.{IsField}
use crisp_qes.V3.Threshold.Combine.{IsCurve}
use crisp_qes.V3.Threshold.Keygen.{dkg_keygen-combine_threshold}

pub data Residue : Type 0 where
  r0 : Residue
  r1 : Residue
  r2 : Residue
  r3 : Residue
  r4 : Residue

abbrev pub value : Residue → ℕ
value r0 = 0
value r1 = 1
value r2 = 2
value r3 = 3
value r4 = 4

abbrev small : ℕ → Residue
small zero = r0
small (suc zero) = r1
small (suc (suc zero)) = r2
small (suc (suc (suc zero))) = r3
small (suc (suc (suc (suc n)))) = r4

abbrev pub residue : ℕ → Residue
residue n = small (n % 5)

abbrev inverse : Residue → Residue
inverse r2 = r3
inverse r3 = r2
inverse a = a

abbrev pub fives : ScalarField
fives = record {
  Scalar = Residue;
  create = residue;
  add = λ a b. residue (value a + value b);
  mul = λ a b. residue (value a * value b);
  neg = λ a. residue (5 - value a);
  sub = λ a b. residue (value a + (5 - value b));
  inv = inverse;
  order = 5;
}

-- A test of every residue.
abbrev every : (Residue → Bool) → Bool
every f = f r0 && (f r1 && (f r2 && (f r3 && f r4)))

every-true : (f : Residue → Bool) → every f ≡ true → (a : Residue) → f a ≡ true
every-true f h r0 = ground arith
every-true f h r1 = ground arith
every-true f h r2 = ground arith
every-true f h r3 = ground arith
every-true f h r4 = ground arith

value_injective : (a b : Residue) → (value a == value b) ≡ true → a ≡ b
value_injective a b h = sym (small-value a) ∙ ap small (ground arith) ∙ small-value b
  where
    small-value : (c : Residue) → small (value c) ≡ c
    small-value r0 = refl
    small-value r1 = refl
    small-value r2 = refl
    small-value r3 = refl
    small-value r4 = refl

pub law1 :
    (f g : Residue → Residue)
    → every (λ a. value (f a) == value (g a)) ≡ true
    → (a : Residue) → f a ≡ g a
law1 f g h a = value_injective (f a) (g a) (every-true (λ b. value (f b) == value (g b)) h a)

pub law2 :
    (f g : Residue → Residue → Residue)
    → every (λ a. every (λ b. value (f a b) == value (g a b))) ≡ true
    → (a b : Residue) → f a b ≡ g a b
law2 f g h a = law1 (f a) (g a) (every-true (λ c. every (λ b. value (f c b) == value (g c b))) h a)

pub law3 :
    (f g : Residue → Residue → Residue → Residue)
    → every (λ a. every (λ b. every (λ c. value (f a b c) == value (g a b c)))) ≡ true
    → (a b c : Residue) → f a b c ≡ g a b c
law3 f g h a =
    law2 (f a) (g a)
      (every-true (λ d. every (λ b. every (λ c. value (f d b c) == value (g d b c)))) h a)

value-residue : (n : ℕ) → n < 5 → value (residue n) ≡ n
value-residue zero lt = refl
value-residue (suc zero) lt = refl
value-residue (suc (suc zero)) lt = refl
value-residue (suc (suc (suc zero))) lt = refl
value-residue (suc (suc (suc (suc zero)))) lt = refl
value-residue (suc (suc (suc (suc (suc n))))) lt = absurd (omega (arith, lt))

pub fives-IsField : IsField fives
fives-IsField = record {
  add_assoc = law3 _ _ refl;
  add_comm = law2 _ _ refl;
  zero_add = law1 _ _ refl;
  add_neg = law1 _ _ refl;
  mul_assoc = law3 _ _ refl;
  mul_comm = law2 _ _ refl;
  one_mul = law1 _ _ refl;
  mul_add = law3 _ _ refl;
  sub_eq = law2 _ _ refl;
  mul_inv = inverted;
  create_injective =
      λ i j i_lt j_lt e. sym (value-residue i i_lt) ∙ ap value e ∙ value-residue j j_lt;
  order_gt = omega arith;
}
  where
    inverted : (a : Residue) → a ≢ r0 → residue (value a * value (inverse a)) ≡ r1
    inverted r0 ne = absurd (ne refl)
    inverted r1 ne = refl
    inverted r2 ne = refl
    inverted r3 ne = refl
    inverted r4 ne = refl

-- A point is refused by nothing but the scalar 0.
abbrev pub line : Curve fives
line = record {
  Point = Residue;
  base = r1;
  add = λ p q. residue (value p + value q);
  multiply = times;
}
  where
    times : Residue → Residue → Result String Residue
    times p r0 = fail "invalid scalar"
    times p a = ok (residue (value p * value a))

pub multiplied : (p q a : Residue) → line.multiply p a ≡ ok q → q ≡ residue (value p * value a)
multiplied p q r0 e = cc
multiplied p q r1 e = sym (ok-injective e)
multiplied p q r2 e = sym (ok-injective e)
multiplied p q r3 e = sym (ok-injective e)
multiplied p q r4 e = sym (ok-injective e)

pub multiplies : (p a : Residue) → a ≢ r0 → line.multiply p a ≡ ok (residue (value p * value a))
multiplies p r0 ne = absurd (ne refl)
multiplies p r1 ne = refl
multiplies p r2 ne = refl
multiplies p r3 ne = refl
multiplies p r4 ne = refl

abbrev pub line-IsCurve : IsCurve fives line
line-IsCurve = record {
  act = λ p a. residue (value p * value a);
  multiplied = multiplied;
  multiplies = multiplies;
  act_add = law3 _ _ refl;
  act_act = law3 _ _ refl;
}

abbrev random : ℕ → Residue
random n = residue (n * n + 2)

abbrev share : ℕ → Residue → Share fives
share i k_i = record { i = i; k_i = k_i }

abbrev sample_keys : KeySet fives
sample_keys = record { shares = share 1 r2 ∷ share 2 r3 ∷ share 3 r4 ∷ []; k_implied = r1 }

abbrev part : ℕ → Residue → Partial fives line
part i b_i = record { i = i; b_i = b_i }

dkg_keygen-combine_threshold_example :
    combine_threshold fives line (part 3 r2 ∷ part 1 r1 ∷ []) ≡ ok r3
unfolding dkg_keygen deal shamir_split shares_from poly_eval draws add_shares zero_shares
    partial_eval
dkg_keygen-combine_threshold_example =
    dkg_keygen-combine_threshold fives fives-IsField line line-IsCurve random 3 2 sample_keys r3
      (share 3 r4 ∷ share 1 r2 ∷ []) (part 3 r2 ∷ part 1 r1 ∷ []) refl (omega arith) (omega arith)
      (omega arith) ((2, refl), ((0, refl), tt)) (((λ e. omega (arith, e)), tt), (tt, tt))
      (refl, (refl, tt))
