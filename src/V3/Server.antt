-- ===== src/V3/Server.antt =====
-- packages/oprf/v3-grumpkin/service/server.mjs: what the routes of the threshold service read of a
-- request, and the service's tree with its map from commitments to positions.
-- Parameters: bb.js, SHA-256, the curve's `fromAffine`, and what the responder nodes answer.
pub mod Register
pub mod BlindEval
pub mod Indexed
pub mod Preserved
pub mod OnChain
pub mod Spelled
pub mod Path
pub mod Complete
pub mod Evaluation
pub mod Reachable
use crisp_qes.Common.{
  ℕ, zero, suc, ◌+◌, ◌*◌, ◌-◌, Bool, true, false, ◌&&◌, Option, none, some, List, [], ◌∷◌, ◌++◌,
  map, String, ltb, ◌==◌, if◌then◌else◌, Result, ok, fail, ◌>>=◌, ◌>>◌, guard, length, take, drop,
  bytes_eq, replicate,
}
use crisp_qes.Common.Text.{Text, codes, lower, hex_of_length, hex_to_bigint, hex_value, starts_with}
use crisp_qes.Common.Text.Hex.{bigint_to_hex32}
use crisp_qes.Pedersen.{fr_max}
use crisp_qes.Oprf.Service.{RootUpdate}
use crisp_qes.V3.Words.{Word, ProofField, Affine, Digest, extract_digest_from_public_inputs}
use crisp_qes.V3.Gate.{Gate, GateCode, Refusal}
use crisp_qes.V3.Merkle.{MerkleIndex, from_leaves}
use crisp_qes.V3.Challenge.{expected_digest_limbs}
use crisp_qes.V3.ChainSync.{Chain, Synced, sync_merkle_from_chain}

pub data Payload : Type 0 where
  bad_request : (detail : String) → Payload
  bad_blinded_input : (message : String) → Payload
  proof_gate_unavailable : Payload
  malformed_proof : (message : String) → Payload
  refused : Refusal → Payload
  challenge_mismatch : Payload
  chain_sync_unavailable : Payload
  already_enrolled : (commitment : Text) → Payload
  eval_error : (message : String) → Payload
  evaluated : (partials : List Text) (epoch : ℕ) → Payload
  registered :
      (leaf_index : ℕ) (merkle_path : List Text) (merkle_path_indices : List ℕ)
      (old_root new_root commitment : Text) (signed : RootUpdate)
      → Payload
  not_enrolled : (commitment : Text) → Payload
  path_found :
      (leaf_index : ℕ) (merkle_path : List Text) (merkle_path_indices : List ℕ) (root : Text)
      → Payload

pub record Reply : Type 0 where
  pub code : ℕ
  pub payload : Payload

abbrev pub reply_with : ℕ → Payload → Reply
reply_with code payload = record { code = code; payload = payload }

-- A value of a request's body as it comes from JSON: an array as `Uint8Array.from` reads it, and as
-- words.
pub data Json : Type 0 where
  text : Text → Json
  array : (bytes : List ℕ) (words : List Word) → Json
  other : Json

-- The field's value where `typeof v === "string" && p.test(v)`.
abbrev pub matching : (Text → Bool) → Json → String → Result Reply Text
matching p (Json.text t) detail =
    if p t then ok t else fail (reply_with 400 (Payload.bad_request detail))
matching p _ detail = fail (reply_with 400 (Payload.bad_request detail))

-- `isProofField`
abbrev pub is_proof_field : Json → String → Result Reply ProofField
is_proof_field (Json.text t) detail = ok (ProofField.text t)
is_proof_field (Json.array bs ws) detail = ok (ProofField.bytes bs)
is_proof_field _ detail = fail (reply_with 400 (Payload.bad_request detail))

-- `isWordArray`
abbrev pub is_word_array : Json → String → Result Reply (List Word)
is_word_array (Json.array bs (w ∷ ws)) detail = ok (w ∷ ws)
is_word_array _ detail = fail (reply_with 400 (Payload.bad_request detail))

abbrev pub hex32 : Text → Bool
hex32 = hex_of_length 64

abbrev pub point_hex : Text → Bool
point_hex = hex_of_length 128

pub record BlindEvalRequest : Type 0 where
  pub m : Json
  pub proof : Json
  pub public_inputs : Json

pub record BlindEvalBody : Type 0 where
  pub m : Text
  pub proof : ProofField
  pub public_inputs : List Word

unfoldable pub validate_blind_eval_body : BlindEvalRequest → Result Reply BlindEvalBody
validate_blind_eval_body body = do
  m ← matching point_hex body.m "M must be 0x-prefixed 64-byte (x||y) Grumpkin point hex"
  proof ← is_proof_field body.proof "proof must be 0x-hex string or byte array"
  public_inputs ←
      is_word_array body.public_inputs
        "publicInputs must be a non-empty array of 0x-hex field words"
  ok (record { m = m; proof = proof; public_inputs = public_inputs })

pub record RegisterRequest : Type 0 where
  pub commitment : Json
  pub enroll_proof : Json
  pub enroll_public_inputs : Json
  pub nullifier_proof : Json
  pub nullifier_public_inputs : Json

pub record RegisterBody : Type 0 where
  pub commitment : Text
  pub enroll_proof : ProofField
  pub enroll_public_inputs : List Word
  pub nullifier_proof : ProofField
  pub nullifier_public_inputs : List Word

unfoldable pub validate_register_body : RegisterRequest → Result Reply RegisterBody
validate_register_body body = do
  commitment ← matching hex32 body.commitment "commitment must be 0x-prefixed 32-byte hex"
  guard (ltb (hex_to_bigint commitment) fr_max)
      (reply_with 400 (Payload.bad_request "commitment exceeds Fr range (must be < 2^254)"))
  enroll_proof ← is_proof_field body.enroll_proof "enrollProof must be 0x-hex string or byte array"
  enroll_public_inputs ←
      is_word_array body.enroll_public_inputs
        "enrollPublicInputs must be a non-empty array of 0x-hex field words"
  nullifier_proof ←
      is_proof_field body.nullifier_proof "nullifierProof must be 0x-hex string or byte array"
  nullifier_public_inputs ←
      is_word_array body.nullifier_public_inputs
        "nullifierPublicInputs must be a non-empty array of 0x-hex field words"
  ok (record {
    commitment = commitment;
    enroll_proof = enroll_proof;
    enroll_public_inputs = enroll_public_inputs;
    nullifier_proof = nullifier_proof;
    nullifier_public_inputs = nullifier_public_inputs;
  })

-- The map `leafIndexOf`, whose keys are texts.
abbrev pub LeafIndexOf : Type 0
LeafIndexOf = List (Text × ℕ)

unfoldable pub get_index : Text → LeafIndexOf → Option ℕ
get_index wanted [] = none
get_index wanted ((key, i) ∷ entries) =
    if bytes_eq key wanted then some i else get_index wanted entries

-- The newest entry of a key comes first.
abbrev pub set_index : Text → ℕ → LeafIndexOf → LeafIndexOf
set_index key i entries = (key, i) ∷ entries

-- `indexLeaves`, from the position `i` on.
unfoldable pub index_leaves : List ℕ → ℕ → LeafIndexOf → Result String LeafIndexOf
index_leaves [] i entries = ok entries
index_leaves (leaf ∷ leaves) i entries = do
  key ← bigint_to_hex32 leaf
  index_leaves leaves (suc i) (set_index key i entries)

pub record State : Type 0 where
  pub merkle : MerkleIndex
  pub leaf_index_of : LeafIndexOf

-- What a synced state starts from: `fromBlock`, or none where no RPC is configured.
pub record Config : Type 0 where
  pub enroll_epoch : Text
  pub threshold_epoch : ℕ
  pub published_kpub_set : List Affine
  pub from_block : Option ℕ

pub record Services : Type 0 where
  pub bb : List (List ℕ) → ℕ → List ℕ
  pub sha256 : List ℕ → List ℕ
  pub gate : Option Gate
  pub nullifier_gate : Option Gate
  pub from_affine : Affine → Result String Affine
  pub evaluate : Text → ℕ → Result String (List Text)

-- `a.hi === b.hi && a.lo === b.lo`, and false if either threw.
abbrev pub same_digest : Result String Digest → Result String Digest → Bool
same_digest (ok a) (ok b) = (a.hi == b.hi) && (a.lo == b.lo)
same_digest _ _ = false

module _ (cfg : Config) (sv : Services) where
  unfoldable pub state_of : Synced → Result String State
  unfolding index_leaves
  state_of synced = do
    leaf_index_of ← index_leaves synced.leaves 0 []
    ok (record { merkle = synced.index; leaf_index_of = leaf_index_of })

  abbrev pub boot_from : Chain → List ℕ → (from_block : Option ℕ) → Result String State
  boot_from chain leaves (some from_block) =
      sync_merkle_from_chain sv.bb chain from_block >>= state_of
  boot_from chain leaves none = do
    merkle ← from_leaves sv.bb leaves
    leaf_index_of ← index_leaves leaves 0 []
    ok (record { merkle = merkle; leaf_index_of = leaf_index_of })

  -- The state at the start, from the chain or from given leaves.
  unfoldable pub boot : Chain → List ℕ → Result String State
  boot chain leaves = boot_from chain leaves cfg.from_block

  abbrev pub resync_from :
      Result String Text → Chain → State → (from_block : Option ℕ) → Result String State
  resync_from onchain chain st none = ok st
  resync_from onchain chain st (some from_block) = do
    live ← onchain
    root ← bigint_to_hex32 st.merkle.root
    let synced = sync_merkle_from_chain sv.bb chain from_block >>= state_of
    if bytes_eq (lower root) (lower live) then ok st else synced

  -- `onchain` is the root that was read first; `chain` is what the reads of the synchronisation answer.
  unfoldable pub resync_if_stale :
      (onchain : Result String Text) → Chain → State → Result String State
  resync_if_stale onchain chain st = resync_from onchain chain st cfg.from_block

  unfoldable pub challenge_digest_ok : (m_hex : Text) → List Word → Bool
  unfolding lower
  challenge_digest_ok m_hex public_inputs =
      same_digest (extract_digest_from_public_inputs public_inputs)
        (expected_digest_limbs sv.sha256 (lower m_hex) cfg.enroll_epoch)
