-- ===== src/V3/Server/BlindEval.antt =====
-- packages/oprf/v3-grumpkin/service/server.mjs: the route that evaluates a blinded point.
use crisp_qes.Common.{
  ℕ, Option, none, some, String, Result, ok, fail, ◌>>=◌, ◌>>◌, guard, take, drop,
}
use crisp_qes.Common.Text.{Text, hex_value}
use crisp_qes.V3.Words.{Affine}
use crisp_qes.V3.Gate.{Gate, GateCode, Refusal, verify_enroll_commit_proof}
use crisp_qes.V3.Server.{
  Payload, Reply, reply_with, BlindEvalRequest, validate_blind_eval_body, Config, Services,
  challenge_digest_ok,
}

-- A request that is refused by a proof gate: 401 if the verifier rejected it.
abbrev pub status_of : GateCode → ℕ
status_of GateCode.proof_rejected = 401
status_of _ = 400

abbrev pub or_refused {ℓ} : {A : Type ℓ} → Result Refusal A → Result Reply A
or_refused (ok a) = ok a
or_refused (fail r) = fail (reply_with (status_of r.code) (Payload.refused r))

abbrev pub or_unavailable : Option Gate → Result Reply Gate
or_unavailable none = fail (reply_with 503 Payload.proof_gate_unavailable)
or_unavailable (some gate) = ok gate

-- What is thrown is answered with the status.
abbrev pub or_reply {ℓ} : {A : Type ℓ} → ℕ → (String → Payload) → Result String A → Result Reply A
or_reply code payload (ok a) = ok a
or_reply code payload (fail e) = fail (reply_with code (payload e))

-- The coordinates in `0x{x}{y}`.
abbrev pub point_of_hex : Text → Affine
point_of_hex hex = record {
  x = hex_value 0 (take 64 (drop 2 hex));
  y = hex_value 0 (drop 64 (drop 2 hex));
}

abbrev pub answer_of : Result Reply Reply → Reply
answer_of (ok r) = r
answer_of (fail r) = r

module _ (cfg : Config) (sv : Services) where
  -- The route with an early return as a failure.
  unfoldable pub evaluate : BlindEvalRequest → Result Reply Reply
  unfolding validate_blind_eval_body
  evaluate req = do
    body ← validate_blind_eval_body req
    m_aff ← or_reply 400 Payload.bad_blinded_input (sv.from_affine (point_of_hex body.m))
    gate ← or_unavailable sv.gate
    or_refused (verify_enroll_commit_proof gate body.proof body.public_inputs m_aff)
    guard (challenge_digest_ok cfg sv body.m body.public_inputs)
        (reply_with 409 Payload.challenge_mismatch)
    partials ← or_reply 500 Payload.eval_error (sv.evaluate body.m cfg.threshold_epoch)
    ok (reply_with 200 (Payload.evaluated partials cfg.threshold_epoch))

  -- `POST /v3/blind-eval`
  unfoldable pub blind_eval : BlindEvalRequest → Reply
  unfolding evaluate
  blind_eval req = answer_of (evaluate req)
