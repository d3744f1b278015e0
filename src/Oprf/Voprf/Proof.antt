-- ===== src/Oprf/Voprf/Proof.antt =====
-- The proof that an evaluation carries is accepted.
use native.Mathlib.Nat.{mul_comm, mod-lt, mod-eq_of_lt}
use crisp_qes.Common.{
  take-append, drop-append, ℕ, ◌+◌, ◌*◌, ◌%◌, ◌^◌, ◌≤◌, ◌<◌, ◌≡◌, refl, sym, subst, ap, ap₂, ◌∙◌,
  true, List, ◌++◌, ok, >>=-eq-ok, ok-injective, length, length-append, take, drop, ◌==◌, arith,
  ==_iff,
}
use crisp_qes.Oprf.Voprf.Scalars.{length-le_bytes, le_value-le_bytes, take_all, sub_then_add}
use crisp_qes.Oprf.Voprf.{
  Ristretto, BlindEvaluateOutput, i2osp2, le_bytes, le_value, framed, transcript, serialize_scalar,
  deserialize_scalar, response, derive_public_key, generate_proof, blind_evaluate, check_challenge,
  verify_proof,
}

-- What the evaluation relies on of the group: multiplication is an action of the scalars modulo the
-- order, it is refused at most for 0, and points have encodings of 32 bytes.
pub record IsRistretto (g : Ristretto) : Type 1 where
  pub act : g.Point → ℕ → g.Point
  pub multiplied : (p q : g.Point) (a : ℕ) → g.multiply p a ≡ ok q → q ≡ act p a
  pub multiplies : (p : g.Point) (a : ℕ) → 0 < a → a < g.order → g.multiply p a ≡ ok (act p a)
  pub act_add : (p : g.Point) (a b : ℕ) → g.add (act p a) (act p b) ≡ act p ((a + b) % g.order)
  pub act_act : (p : g.Point) (a b : ℕ) → act (act p a) b ≡ act p ((a * b) % g.order)
  pub decodes : (p : g.Point) → g.from_bytes (g.to_bytes p) ≡ ok p
  pub encodes : (p : g.Point) → length (g.to_bytes p) ≡ 32
  pub hashed : (bytes : List ℕ) → g.hash_to_scalar bytes < g.order
  pub order_bound : g.order ≤ 256 ^ 32

module _ (g : Ristretto) (laws : IsRistretto g) where
  -- The verifier's combination of a scalar and the challenge gives the prover's point.
  combined :
      (p : g.Point) (r c k : ℕ)
      → r < g.order
      → g.add (laws.act p (response g r c k)) (laws.act (laws.act p k) c) ≡ laws.act p r
  combined p r c k h =
      let positive : 0 < g.order = omega arith in
      rw (laws.act_act p k c, mul_comm k c)
        (laws.act_add p (response g r c k) ((c * k) % g.order)
          ∙ ap (laws.act p)
              (sub_then_add g.order r ((c * k) % g.order) h (mod-lt (c * k) positive)))

  framed-to_bytes : (p : g.Point) → framed (g.to_bytes p) ≡ i2osp2 32 ++ g.to_bytes p
  framed-to_bytes p = ap (λ n. i2osp2 n ++ g.to_bytes p) (laws.encodes p)

  -- The challenge is found again from the combined points.
  check_challenge_complete :
      (k_pub m y : List ℕ) (c s : ℕ) (k_point m_point y_point t2 t3 : g.Point)
      → c
        ≡ g.hash_to_scalar (transcript k_pub m y (framed (g.to_bytes t2)) (framed (g.to_bytes t3)))
      → 0 < c
      → 0 < s
      → s < g.order
      → g.add (laws.act g.base s) (laws.act k_point c) ≡ t2
      → g.add (laws.act m_point s) (laws.act y_point c) ≡ t3
      → check_challenge g k_pub m y c s k_point m_point y_point ≡ ok true
  unfolding check_challenge
  check_challenge_complete k_pub m y c s k_point m_point y_point t2 t3 challenge c_pos s_pos s_lt e₂
        e₃ =
      let c_lt : c < g.order = subst (λ n. n < g.order) (sym challenge) (laws.hashed _) in
      let again : c
          ≡ g.hash_to_scalar
              (transcript k_pub m y (i2osp2 32 ++ g.to_bytes t2) (i2osp2 32 ++ g.to_bytes t3)) =
        challenge
        ∙ ap₂ (λ a b. g.hash_to_scalar (transcript k_pub m y a b)) (framed-to_bytes t2)
            (framed-to_bytes t3) in
      rw
        (
          laws.multiplies g.base s s_pos s_lt,
          laws.multiplies k_point c c_pos c_lt,
          laws.multiplies m_point s s_pos s_lt,
          laws.multiplies y_point c c_pos c_lt,
          e₂,
          e₃,
          sym again,
          mod-eq_of_lt c_lt,
          (==_iff c c).1 refl,
        )
        refl

  scalar_round : (x : ℕ) → x < g.order → deserialize_scalar g (serialize_scalar g x) ≡ ok x
  scalar_round x h =
      let small : x % g.order ≡ x = mod-eq_of_lt h in
      rw
        (
          small,
          length-le_bytes 32 x,
          le_value-le_bytes 32 x (omega (arith, laws.order_bound)),
          small,
        )
        refl

  decode_scalars :
      (c s : ℕ)
      → c < g.order
      → s < g.order
      → (deserialize_scalar g (take 32 (serialize_scalar g c ++ serialize_scalar g s)) ≡ ok c)
        × (deserialize_scalar g (take 32 (drop 32 (serialize_scalar g c ++ serialize_scalar g s)))
            ≡ ok s)
  decode_scalars c s h k =
      let c_len = length-le_bytes 32 (c % g.order) in
      let s_len = length-le_bytes 32 (s % g.order) in
      (
        ap (deserialize_scalar g)
              (take-append 32 (serialize_scalar g c) (serialize_scalar g s) c_len)
            ∙ scalar_round c h,
        ap (λ b. deserialize_scalar g (take 32 b))
              (drop-append 32 (serialize_scalar g c) (serialize_scalar g s) c_len)
            ∙ ap (deserialize_scalar g) (take_all 32 (serialize_scalar g s) s_len)
            ∙ scalar_round s k,
      )

  -- The challenge of the transcript, for the points of the scalar `r`.
  abbrev challenge_of : (k_pub m y : List ℕ) (m_point : g.Point) (r : ℕ) → ℕ
  challenge_of k_pub m y m_point r = g.hash_to_scalar (
      transcript k_pub m y (framed (g.to_bytes (laws.act g.base r)))
        (framed (g.to_bytes (laws.act m_point r))))

  generate_proof_inv :
      (r k : ℕ) (k_pub m y proof : List ℕ) (m_point : g.Point)
      → g.from_bytes m ≡ ok m_point
      → generate_proof g r k k_pub m y ≡ ok proof
      → serialize_scalar g (challenge_of k_pub m y m_point r)
          ++ serialize_scalar g (response g r (challenge_of k_pub m y m_point r) k)
        ≡ proof
  unfolding generate_proof
  generate_proof_inv r k k_pub m y proof m_point decoded_m generated =
      let (t2, multiplied_2, h₁) = >>=-eq-ok (g.multiply g.base r) _ generated in
      let (m_again, decoded_again, h₂) = >>=-eq-ok (g.from_bytes m) _ h₁ in
      let (t3, multiplied_3, h₃) = >>=-eq-ok (g.multiply m_again r) _ h₂ in
      let same : m_again ≡ m_point = ok-injective (sym decoded_again ∙ decoded_m) in
      let e₂ = laws.multiplied g.base t2 r multiplied_2 in
      let e₃ = laws.multiplied m_again t3 r multiplied_3 ∙ ap (λ p. laws.act p r) same in
      ap₂
        (λ a b.
          let c =
            g.hash_to_scalar
              (transcript k_pub m y (framed (g.to_bytes a)) (framed (g.to_bytes b))) in
          serialize_scalar g c ++ serialize_scalar g (response g r c k))
        (sym e₂) (sym e₃)
      ∙ ok-injective h₃

  verify_proof_complete :
      (k_pub m y proof : List ℕ) (c s : ℕ) (k_point m_point y_point : g.Point)
      → serialize_scalar g c ++ serialize_scalar g s ≡ proof
      → c < g.order
      → s < g.order
      → g.from_bytes k_pub ≡ ok k_point
      → g.from_bytes m ≡ ok m_point
      → g.from_bytes y ≡ ok y_point
      → check_challenge g k_pub m y c s k_point m_point y_point ≡ ok true
      → verify_proof g k_pub m y proof ≡ ok true
  unfolding verify_proof
  verify_proof_complete k_pub m y proof c s k_point m_point y_point built h k k_dec m_dec y_dec
        checked =
      let size : length proof ≡ 64 =
        ap length (sym built)
        ∙ length-append (serialize_scalar g c) (serialize_scalar g s)
        ∙ ap₂ (λ a b. a + b) (length-le_bytes 32 (c % g.order))
            (length-le_bytes 32 (s % g.order)) in
      let (first, second) = decode_scalars c s h k in
      let full : (length proof == 64) ≡ true = (==_iff (length proof) 64).1 size in
      let first' : deserialize_scalar g (take 32 proof) ≡ ok c =
        subst (λ b. deserialize_scalar g (take 32 b) ≡ ok c) built first in
      let second' : deserialize_scalar g (take 32 (drop 32 proof)) ≡ ok s =
        subst (λ b. deserialize_scalar g (take 32 (drop 32 b)) ≡ ok s) built second in
      rw (full, first', second', k_dec, m_dec, y_dec) checked

  proof_scalars :
      (c s : ℕ) (proof : List ℕ)
      → serialize_scalar g c ++ serialize_scalar g s ≡ proof
      → c < g.order
      → s < g.order
      → (le_value (take 32 proof) ≡ c) × (le_value (take 32 (drop 32 proof)) ≡ s)
  proof_scalars c s proof built h k =
      let c_len = length-le_bytes 32 (c % g.order) in
      let s_len = length-le_bytes 32 (s % g.order) in
      let value : (x : ℕ) → x < g.order → le_value (serialize_scalar g x) ≡ x = λ x lt.
        ap (λ y. le_value (le_bytes 32 y)) (mod-eq_of_lt lt)
        ∙ le_value-le_bytes 32 x (omega (arith, laws.order_bound)) in
      (
        ap (λ b. le_value (take 32 b)) (sym built)
            ∙ ap le_value (take-append 32 (serialize_scalar g c) (serialize_scalar g s) c_len)
            ∙ value c h,
        ap (λ b. le_value (take 32 (drop 32 b))) (sym built)
            ∙ ap (λ b. le_value (take 32 b))
                (drop-append 32 (serialize_scalar g c) (serialize_scalar g s) c_len)
            ∙ ap le_value (take_all 32 (serialize_scalar g s) s_len)
            ∙ value s k,
      )

  -- The proof of an evaluation verifies, for the public key of the secret that evaluated, unless one
  -- of its two scalars is 0, which the group's multiplication refuses.
  pub verify_proof-blind_evaluate :
      (r k : ℕ) (m k_pub : List ℕ) (out : BlindEvaluateOutput)
      → r < g.order
      → derive_public_key g k ≡ ok k_pub
      → blind_evaluate g r m k k_pub ≡ ok out
      → 0 < le_value (take 32 out.proof)
      → 0 < le_value (take 32 (drop 32 out.proof))
      → verify_proof g k_pub m out.y out.proof ≡ ok true
  unfolding derive_public_key blind_evaluate generate_proof
  verify_proof-blind_evaluate r k m k_pub out h derived evaluated c_pos s_pos =
      let (k_point, multiplied, pub_bytes) = >>=-eq-ok (g.multiply g.base k) _ derived in
      let (m_point, decoded_m, h₁) = >>=-eq-ok (g.from_bytes m) _ evaluated in
      let (y_point, multiplied_y, h₂) = >>=-eq-ok (g.multiply m_point k) _ h₁ in
      let (proof, generated, h₃) =
        >>=-eq-ok (generate_proof g r k k_pub m (g.to_bytes y_point)) _ h₂ in
      accepted k_point m_point y_point proof decoded_m (laws.multiplied g.base k_point k multiplied)
        (laws.multiplied m_point y_point k multiplied_y) (ok-injective pub_bytes) generated
        (ok-injective h₃)
    where
      accepted :
          (k_point m_point y_point : g.Point) (proof : List ℕ)
          → g.from_bytes m ≡ ok m_point
          → k_point ≡ laws.act g.base k
          → y_point ≡ laws.act m_point k
          → g.to_bytes k_point ≡ k_pub
          → generate_proof g r k k_pub m (g.to_bytes y_point) ≡ ok proof
          → record { y = g.to_bytes y_point; proof = proof } ≡ out
          → verify_proof g k_pub m out.y out.proof ≡ ok true
      accepted k_point m_point y_point proof dec_m k_eq y_eq pub_eq generated out_eq =
          let y = g.to_bytes y_point in
          let c = challenge_of k_pub m y m_point r in
          let s = response g r c k in
          let built = generate_proof_inv r k k_pub m y proof m_point dec_m generated in
          let c_lt : c < g.order = laws.hashed _ in
          let s_lt : s < g.order = mod-lt _ (omega (arith, h)) in
          let proof_eq : proof ≡ out.proof = ap (λ (o : BlindEvaluateOutput). o.proof) out_eq in
          let (c_val, s_val) = proof_scalars c s proof built c_lt s_lt in
          let c_pos' : 0 < c =
            omega (arith, c_pos, c_val, ap (λ b. le_value (take 32 b)) proof_eq) in
          let s_pos' : 0 < s =
            omega (arith, s_pos, s_val, ap (λ b. le_value (take 32 (drop 32 b))) proof_eq) in
          let checked =
            check_challenge_complete k_pub m y c s k_point m_point y_point (laws.act g.base r)
              (laws.act m_point r) refl c_pos' s_pos' s_lt
              (ap (λ q. g.add (laws.act g.base s) (laws.act q c)) k_eq ∙ combined g.base r c k h)
              (ap (λ q. g.add (laws.act m_point s) (laws.act q c)) y_eq
                ∙ combined m_point r c k h) in
          let verified =
            verify_proof_complete k_pub m y proof c s k_point m_point y_point built c_lt s_lt
              (subst (λ b. g.from_bytes b ≡ ok k_point) pub_eq (laws.decodes k_point)) dec_m
              (laws.decodes y_point) checked in
          subst (λ (o : BlindEvaluateOutput). verify_proof g k_pub m o.y o.proof ≡ ok true) out_eq
            verified
