-- ===== src/V3/Server/Register.antt =====
-- packages/oprf/v3-grumpkin/service/server.mjs: the routes that enroll a commitment and that give its
-- path again. A request runs to its end before the next one.
pub mod Failures
pub mod Challenge
pub mod Admission
pub mod Outcomes
use crisp_qes.Common.{
  ℕ, zero, suc, ◌-◌, Bool, true, false, Option, none, some, List, [], ◌∷◌, ◌++◌, String,
  if◌then◌else◌, Result, ok, fail, ◌>>=◌, ◌>>◌, guard, length, drop, replicate,
}
use crisp_qes.Common.Text.{Text, codes, starts_with, hex_to_bigint}
use crisp_qes.Common.Text.Hex.{bigint_to_hex32}
use crisp_qes.V3.Words.{
  Word, word_at, Affine, NullifierPublics, extract_m_from_public_inputs, extract_cr_from_enroll,
}
use crisp_qes.V3.Gate.{Gate, Expected, verify_enroll_commit_proof, verify_threshold_nullifier_proof}
use crisp_qes.V3.Merkle
use crisp_qes.V3.Merkle.{MerkleIndex, AppendResult, ProofResult}
use crisp_qes.V3.ChainSync.{Chain}
use crisp_qes.V3.Server.{
  Payload, Reply, reply_with, Json, hex32, RegisterRequest, RegisterBody, validate_register_body,
  get_index, set_index, State, Config, Services, resync_if_stale, challenge_digest_ok,
}
use crisp_qes.V3.Server.BlindEval.{or_refused, or_unavailable, or_reply}

-- What ends a handler early: a reply, or what is thrown.
pub data Stop : Type 0 where
  answered : Reply → Stop
  thrown : String → Stop

abbrev pub or_answer {ℓ} : {A : Type ℓ} → Result Reply A → Result Stop A
or_answer (ok a) = ok a
or_answer (fail r) = fail (Stop.answered r)

abbrev pub or_throw {ℓ} : {A : Type ℓ} → Result String A → Result Stop A
or_throw (ok a) = ok a
or_throw (fail e) = fail (Stop.thrown e)

-- A route's reply, or what it throws, and the state afterwards.
abbrev pub Outcome : Type 0
Outcome = Result Stop Reply × State

-- `w.replace(/^0x/, "").padStart(64, "0")`, which throws for no text.
abbrev pub padded_hex : Word → Result String Text
padded_hex (Word.text t) =
    let h = if starts_with t (codes "0x") then drop 2 t else t in
    ok (replicate (64 - length h) 48 ++ h)
padded_hex _ = fail "replace is not a function"

abbrev pub hexes : List ℕ → Result String (List Text)
hexes [] = ok []
hexes (v ∷ vs) = do t ← bigint_to_hex32 v; ts ← hexes vs; ok (t ∷ ts)

module _ (cfg : Config) (sv : Services) where
  abbrev pub expected_of : RegisterBody → Affine → ℕ → Expected
  expected_of body enroll_m enroll_cr = record {
    m = enroll_m;
    published_kpub_set = cfg.published_kpub_set;
    epoch = cfg.threshold_epoch;
    cr = enroll_cr;
    commitment = hex_to_bigint body.commitment;
  }

  -- The route up to the synchronisation: nothing is stored.
  unfoldable pub admit : RegisterRequest → Result Stop RegisterBody
  unfolding validate_register_body
  admit req = do
    body ← or_answer (validate_register_body req)
    gate ← or_answer (or_unavailable sv.gate)
    nullifier_gate ← or_answer (or_unavailable sv.nullifier_gate)
    enroll_m ← or_answer (
        or_reply 400 Payload.malformed_proof
          (extract_m_from_public_inputs body.enroll_public_inputs))
    or_answer (
        or_refused
          (verify_enroll_commit_proof gate body.enroll_proof body.enroll_public_inputs enroll_m))
    ex_hex ← or_throw (padded_hex (word_at body.enroll_public_inputs 8))
    ey_hex ← or_throw (padded_hex (word_at body.enroll_public_inputs 9))
    guard (challenge_digest_ok cfg sv (codes "0x" ++ (ex_hex ++ ey_hex)) body.enroll_public_inputs)
        (Stop.answered (reply_with 409 Payload.challenge_mismatch))
    enroll_cr ←
        or_answer
          (or_reply 400 Payload.malformed_proof (extract_cr_from_enroll body.enroll_public_inputs))
    publics ← or_answer (
        or_refused (
          verify_threshold_nullifier_proof nullifier_gate body.nullifier_proof
            body.nullifier_public_inputs (expected_of body enroll_m enroll_cr)))
    ok body

  -- The reply to an append; the numbers are spelled on 32 bytes.
  unfoldable pub registered : Text → AppendResult → Result String Reply
  registered commitment r = do
    path ← hexes r.path
    old_root ← bigint_to_hex32 r.old_root
    new_root ← bigint_to_hex32 r.new_root
    ok (
        reply_with 200 (
          Payload.registered r.leaf_index path r.indices old_root new_root commitment (record {
            old_root = r.old_root;
            new_root = r.new_root;
            new_commitments = hex_to_bigint commitment ∷ [];
          })))

  abbrev pub appended : State → Text → Result String AppendResult × MerkleIndex → Outcome
  appended st commitment (fail e, merkle) =
      (fail (Stop.thrown e), record { merkle = merkle; leaf_index_of = st.leaf_index_of })
  appended st commitment (ok r, merkle) = (
    or_throw (registered commitment r),
    record { merkle = merkle; leaf_index_of = set_index commitment r.leaf_index st.leaf_index_of },
  )

  -- The collision check has found the position, or none.
  abbrev pub enroll_at : State → Text → Option ℕ → Outcome
  enroll_at st commitment (some i) = (ok (reply_with 409 (Payload.already_enrolled commitment)), st)
  enroll_at st commitment none =
      appended st commitment (Merkle.append sv.bb st.merkle (hex_to_bigint commitment))

  -- From the collision check on, with the state that was synced.
  unfoldable pub enroll : State → Text → Outcome
  enroll st commitment = enroll_at st commitment (get_index commitment st.leaf_index_of)

  abbrev pub enroll_synced : State → Text → Result String State → Outcome
  enroll_synced st commitment (fail e) = (ok (reply_with 503 Payload.chain_sync_unavailable), st)
  enroll_synced st commitment (ok synced) = enroll synced commitment

  abbrev pub register_admitted :
      Result String Text → Chain → State → Result Stop RegisterBody → Outcome
  register_admitted onchain chain st (fail (Stop.answered r)) = (ok r, st)
  register_admitted onchain chain st (fail (Stop.thrown e)) = (fail (Stop.thrown e), st)
  register_admitted onchain chain st (ok body) =
      enroll_synced st body.commitment (resync_if_stale cfg sv onchain chain st)

  -- `POST /v3/register`, with what the chain answers meanwhile.
  unfoldable pub register : Result String Text → Chain → State → RegisterRequest → Outcome
  unfolding admit enroll
  register onchain chain st req = register_admitted onchain chain st (admit req)

  unfoldable pub path_reply : ProofResult → Result String Reply
  path_reply proof = do
    root ← bigint_to_hex32 proof.root
    path ← hexes proof.path
    ok (reply_with 200 (Payload.path_found proof.leaf_index path proof.indices root))

  abbrev pub path_at : State → Text → Option ℕ → Result Stop Reply
  path_at st commitment none = ok (reply_with 404 (Payload.not_enrolled commitment))
  path_at st commitment (some i) = or_throw (Merkle.proof_at sv.bb st.merkle i >>= path_reply)

  abbrev pub path_synced : State → Text → Result String State → Outcome
  path_synced st commitment (fail e) = (ok (reply_with 503 Payload.chain_sync_unavailable), st)
  path_synced st commitment (ok synced) =
      (path_at synced commitment (get_index commitment synced.leaf_index_of), synced)

  -- `GET /v3/enrollment/:commitment/path`
  unfoldable pub enrollment_path : Result String Text → Chain → State → Text → Outcome
  enrollment_path onchain chain st commitment =
      let found = path_synced st commitment (resync_if_stale cfg sv onchain chain st) in
      if hex32 commitment then found else (
        ok (reply_with 400 (Payload.bad_request "commitment must be 0x-prefixed 32-byte hex")),
        st,
      )
