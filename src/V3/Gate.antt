-- ===== src/V3/Gate.antt =====
-- packages/oprf/v3-grumpkin/service/proof-gate.mjs: the checks of the two proofs.
-- The verifier of bb.js for a circuit is the parameter `gate`; it may throw. A text that it throws is
-- not cut to 300 characters.
pub mod Bound
pub mod Nullifier
use crisp_qes.Common.{
  ℕ, Bool, true, false, ◌&&◌, List, [], ◌∷◌, String, ◌==◌, Result, ok, fail, ◌>>=◌, ◌>>◌, guard,
  length,
}
use crisp_qes.Common.Text.{Text}
use crisp_qes.V3.Words.{
  Word, ProofField, Affine, NullifierPublics, proof_to_bytes, normalize_public_inputs,
  extract_m_from_public_inputs, extract_threshold_nullifier_publics, public_input_word_count,
}

pub data GateCode : Type 0 where
  malformed_proof : GateCode
  malformed_config : GateCode
  proof_mismatched_m : GateCode
  nullifier_mismatched_m : GateCode
  nullifier_mismatched_cr : GateCode
  nullifier_mismatched_kpub_set : GateCode
  nullifier_mismatched_epoch : GateCode
  nullifier_mismatched_commitment : GateCode
  proof_rejected : GateCode

pub record Refusal : Type 0 where
  pub code : GateCode
  pub detail : String

abbrev pub refuse : GateCode → String → Refusal
refuse code detail = record { code = code; detail = detail }

abbrev pub Gate : Type 0
Gate = List ℕ → List Text → Result String Bool

-- What the `try` block of a check reads; what it throws is a malformed proof.
pub record Parsed (A : Type 0) : Type 0 where
  pub proof_bytes : List ℕ
  pub pi_words : List Text
  pub publics : A

unfoldable pub parse :
    {A : Type 0} → ProofField → List Word → Result String A → Result String (Parsed A)
parse proof words extracted = do
  proof_bytes ← proof_to_bytes proof
  pi_words ← normalize_public_inputs words
  publics ← extracted
  ok (record { proof_bytes = proof_bytes; pi_words = pi_words; publics = publics })

abbrev pub or_refuse {ℓ} : {A : Type ℓ} → GateCode → Result String A → Result Refusal A
or_refuse code (ok a) = ok a
or_refuse code (fail e) = fail (refuse code e)

-- `a.x === b.x && a.y === b.y`
abbrev pub same_point : Affine → Affine → Bool
same_point a b = (a.x == b.x) && (a.y == b.y)

-- The three keys in the order of their indices; another number of keys is no set.
abbrev pub kpub_set_ok : NullifierPublics → List Affine → Result Refusal Bool
kpub_set_ok p (k1 ∷ k2 ∷ k3 ∷ []) =
    ok (same_point p.kpub1 k1 && (same_point p.kpub2 k2 && same_point p.kpub3 k3))
kpub_set_ok p _ =
    fail (refuse GateCode.malformed_config "publishedKpubSet must be 3 points [Kpub1,Kpub2,Kpub3]")

-- What the live service expects of a nullifier proof.
pub record Expected : Type 0 where
  pub m : Affine
  pub published_kpub_set : List Affine
  pub epoch : ℕ
  pub cr : ℕ
  pub commitment : ℕ

-- The cross-checks (a), (d), (e), (f) and (c), in the order of the source.
unfoldable pub cross_checks : Expected → NullifierPublics → Result Refusal (Unit {0})
cross_checks expected p = do
  guard (same_point p.m expected.m)
      (refuse GateCode.nullifier_mismatched_m "nullifier proof M does not equal the enroll proof M")
  guard (p.cr == expected.cr) (
      refuse GateCode.nullifier_mismatched_cr
        "nullifier proof C_r does not equal the enroll proof C_r")
  set_ok ← kpub_set_ok p expected.published_kpub_set
  guard set_ok (
      refuse GateCode.nullifier_mismatched_kpub_set
        "nullifier proof Kpub set does not equal the canonical published set")
  guard (p.epoch == expected.epoch) (
      refuse GateCode.nullifier_mismatched_epoch
        "nullifier proof epoch does not equal the current enrollEpoch")
  guard (p.nullifier == expected.commitment) (
      refuse GateCode.nullifier_mismatched_commitment
        "nullifier proof commitment does not equal the registered commitment")

-- The call of the verifier, which rejects if it throws.
unfoldable pub run_verifier : Gate → String → {A : Type 0} → Parsed A → Result Refusal (Unit {0})
run_verifier gate detail parsed = do
  valid ← or_refuse GateCode.proof_rejected (gate parsed.proof_bytes parsed.pi_words)
  guard valid (refuse GateCode.proof_rejected detail)

unfoldable pub verify_enroll_commit_proof :
    Gate → ProofField → List Word → (expected_m : Affine) → Result Refusal (Unit {0})
verify_enroll_commit_proof gate proof public_inputs expected_m = do
  parsed ←
      or_refuse GateCode.malformed_proof
        (parse proof public_inputs (extract_m_from_public_inputs public_inputs))
  guard (length parsed.pi_words == public_input_word_count)
      (refuse GateCode.malformed_proof "public_inputs must be 13 field words")
  guard (same_point parsed.publics expected_m)
      (refuse GateCode.proof_mismatched_m "proof public output M does not equal request M")
  run_verifier gate "proof verification failed" parsed

unfoldable pub verify_threshold_nullifier_proof :
    Gate → ProofField → List Word → Expected → Result Refusal NullifierPublics
verify_threshold_nullifier_proof gate proof public_inputs expected = do
  parsed ←
      or_refuse GateCode.malformed_proof
        (parse proof public_inputs (extract_threshold_nullifier_publics public_inputs))
  guard (length parsed.pi_words == 13)
      (refuse GateCode.malformed_proof "threshold nullifier public_inputs must be 13 field words")
  cross_checks expected parsed.publics
  run_verifier gate "nullifier proof verification failed" parsed
  ok parsed.publics
