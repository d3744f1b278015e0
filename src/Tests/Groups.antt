-- ===== src/Tests/Groups.antt =====
-- A small group in place of ristretto255: the numbers modulo 7, with scalars that multiply.
use native.Mathlib.Nat.{suc-mul, zero-mul, mul-add, mul_assoc, mul_comm, add-mod}
use crisp_qes.Common.{
  ℕ, zero, suc, ◌+◌, ◌*◌, ◌%◌, ◌≡◌, refl, sym, ap, ◌∙◌, true, List, [], ◌∷◌, ◌++◌, String, Result,
  ok, fail, ok-injective, replicate, arith,
}
use crisp_qes.Oprf.Voprf.{
  Ristretto, BlindEvaluateOutput, le_bytes, le_value, derive_public_key, generate_proof,
  blind_evaluate, verify_proof,
}
use crisp_qes.Oprf.Voprf.Proof.{IsRistretto, verify_proof-blind_evaluate}

abbrev point_of : List ℕ → Result String ℕ
point_of [] = fail "no point"
point_of (p ∷ bytes) = ok p

abbrev sevens : Ristretto
sevens = record {
  Point = ℕ;
  base = 1;
  add = λ p q. (p + q) % 7;
  multiply = λ p a. ok ((p * a) % 7);
  to_bytes = λ p. p ∷ replicate 31 0;
  from_bytes = point_of;
  hash_to_scalar = λ bytes. 3;
  order = 7;
}

step : (a b x : ℕ) → a % 7 ≡ b % 7 → (a + x % 7) % 7 ≡ (b + x) % 7
step a b x h = omega arith

mul-mod_inner : (p x : ℕ) → (p * (x % 7)) % 7 ≡ (p * x) % 7
mul-mod_inner zero x = rw (zero-mul, zero-mul) refl
mul-mod_inner (suc p) x = rw (suc-mul, suc-mul) (step (p * (x % 7)) (p * x) x (mul-mod_inner p x))

sevens-IsRistretto : IsRistretto sevens
sevens-IsRistretto = record {
  act = λ p a. (p * a) % 7;
  multiplied = λ p q a e. sym (ok-injective e);
  multiplies = λ p a pos lt. refl;
  act_add = λ p a b. added p a b;
  act_act = λ p a b. multiplied_twice p a b;
  decodes = λ p. refl;
  encodes = λ p. refl;
  hashed = λ bytes. omega arith;
  order_bound = omega arith;
}
  where
    added : (p a b : ℕ) → ((p * a) % 7 + (p * b) % 7) % 7 ≡ (p * ((a + b) % 7)) % 7
    added p a b =
        sym (add-mod (p * a) (p * b) 7)
        ∙ ap (λ n. n % 7) (sym (mul-add p a b))
        ∙ sym (mul-mod_inner p (a + b))

    multiplied_twice : (p a b : ℕ) → (((p * a) % 7) * b) % 7 ≡ (p * ((a * b) % 7)) % 7
    multiplied_twice p a b =
        ap (λ n. n % 7) (mul_comm ((p * a) % 7) b)
        ∙ mul-mod_inner b (p * a)
        ∙ ap (λ n. n % 7) (mul_comm b (p * a) ∙ mul_assoc p a b)
        ∙ sym (mul-mod_inner p (a * b))

abbrev public_key : List ℕ
public_key = 2 ∷ replicate 31 0

-- The evaluation of the point 4 with the secret 2 and the random scalar 5.
abbrev sample_output : BlindEvaluateOutput
sample_output = record { y = 1 ∷ replicate 31 0; proof = le_bytes 32 3 ++ le_bytes 32 6 }

verify_proof-blind_evaluate_example :
    verify_proof sevens public_key (4 ∷ replicate 31 0) sample_output.y sample_output.proof
    ≡ ok true
unfolding derive_public_key blind_evaluate generate_proof le_bytes le_value
verify_proof-blind_evaluate_example =
    verify_proof-blind_evaluate sevens sevens-IsRistretto 5 2 (4 ∷ replicate 31 0) public_key
      sample_output (omega arith) refl refl (omega arith) (omega arith)
