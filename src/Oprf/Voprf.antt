-- ===== src/Oprf/Voprf.antt =====
-- packages/oprf/src/oprf.ts: the verifiable blind evaluation.
-- The group of @noble/curves, ristretto255, and its hash to scalars are the parameter `g`. A
-- multiplication or a decoding may throw.
pub mod Scalars
pub mod Proof
use crisp_qes.Common.{
  ℕ, zero, suc, ◌+◌, ◌-◌, ◌*◌, ◌/◌, ◌%◌, Bool, true, false, List, [], ◌∷◌, ◌++◌, String, Result, ok,
  fail, ◌>>=◌, ◌>>◌, guard, length, take, drop, ◌==◌, if◌then◌else◌,
}
use crisp_qes.Common.Text.{codes}

pub record Ristretto : Type 1 where
  pub Point : Type 0
  pub base : Point
  pub add : Point → Point → Point
  pub multiply : Point → ℕ → Result String Point
  pub to_bytes : Point → List ℕ
  pub from_bytes : List ℕ → Result String Point
  pub hash_to_scalar : List ℕ → ℕ
  pub order : ℕ

-- `I2OSP(n, 2)`
abbrev pub i2osp2 : ℕ → List ℕ
i2osp2 n = (n / 256 % 256) ∷ (n % 256) ∷ []

-- `n` bytes of a number, the least significant first.
unfoldable pub le_bytes : ℕ → ℕ → List ℕ
le_bytes zero x = []
le_bytes (suc n) x = (x % 256) ∷ le_bytes n (x / 256)

unfoldable pub le_value : List ℕ → ℕ
le_value [] = 0
le_value (b ∷ bs) = b + 256 * le_value bs

-- A field of the transcript, with its length.
abbrev pub framed : List ℕ → List ℕ
framed bytes = i2osp2 (length bytes) ++ bytes

abbrev pub transcript : (k_pub m y t2 t3 : List ℕ) → List ℕ
transcript k_pub m y t2 t3 =
    codes "Challenge" ++ (framed k_pub ++ (framed m ++ (framed y ++ (t2 ++ t3))))

pub record BlindEvaluateOutput : Type 0 where
  pub y : List ℕ
  pub proof : List ℕ

module _ (g : Ristretto) where
  -- `ss` and `ds`: scalars of 32 bytes.
  abbrev pub serialize_scalar : ℕ → List ℕ
  serialize_scalar s = le_bytes 32 (s % g.order)

  abbrev pub deserialize_scalar : List ℕ → Result String ℕ
  deserialize_scalar bytes =
      if length bytes == 32 then ok (le_value bytes % g.order) else fail "scalar must be 32 bytes"

  -- `FN.sub(r, FN.mul(c, k))`
  abbrev pub response : (r c k : ℕ) → ℕ
  response r c k = (r + (g.order - (c * k) % g.order)) % g.order

  unfoldable pub derive_public_key : ℕ → Result String (List ℕ)
  derive_public_key k = do k_point ← g.multiply g.base k; ok (g.to_bytes k_point)

  -- `generateProof`, for the random scalar `r`.
  unfoldable pub generate_proof : (r k : ℕ) (k_pub m y : List ℕ) → Result String (List ℕ)
  generate_proof r k k_pub m y = do
    t2 ← g.multiply g.base r
    m_point ← g.from_bytes m
    t3 ← g.multiply m_point r
    let c =
        g.hash_to_scalar (transcript k_pub m y (framed (g.to_bytes t2)) (framed (g.to_bytes t3)))
    ok (serialize_scalar c ++ serialize_scalar (response r c k))

  unfoldable pub blind_evaluate :
      (r : ℕ) (blinded_input : List ℕ) (secret_key : ℕ) (pub_key : List ℕ)
      → Result String BlindEvaluateOutput
  unfolding generate_proof
  blind_evaluate r blinded_input secret_key pub_key = do
    m ← g.from_bytes blinded_input
    y ← g.multiply m secret_key
    proof ← generate_proof r secret_key pub_key blinded_input (g.to_bytes y)
    ok (record { y = g.to_bytes y; proof = proof })

  -- The three points of `verifyProof`; a decoding that fails rejects the proof.
  abbrev pub decoded {ℓ} :
      {A : Type ℓ} → Result String A → (A → Result String Bool) → Result String Bool
  decoded (ok a) k = k a
  decoded (fail e) k = ok false

  -- The check of the challenge, for the decoded scalars and points.
  unfoldable pub check_challenge :
      (k_pub m y : List ℕ) (c s : ℕ) (k_point m_point y_point : g.Point) → Result String Bool
  check_challenge k_pub m y c s k_point m_point y_point = do
    gs ← g.multiply g.base s
    kc ← g.multiply k_point c
    ms ← g.multiply m_point s
    yc ← g.multiply y_point c
    ok (
        c
        == g.hash_to_scalar (
            transcript k_pub m y (i2osp2 32 ++ g.to_bytes (g.add gs kc))
              (i2osp2 32 ++ g.to_bytes (g.add ms yc)))
          % g.order)

  unfoldable pub verify_proof : (k_pub m y proof : List ℕ) → Result String Bool
  unfolding check_challenge
  verify_proof k_pub m y proof =
      if length proof == 64
      then (do
        c ← deserialize_scalar (take 32 proof)
        s ← deserialize_scalar (take 32 (drop 32 proof))
        decoded (g.from_bytes k_pub) λ k_point. decoded (g.from_bytes m) λ m_point.
            decoded (g.from_bytes y)
              λ y_point. check_challenge k_pub m y c s k_point m_point y_point)
      else ok false
