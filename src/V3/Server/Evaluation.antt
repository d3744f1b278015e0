-- ===== src/V3/Server/Evaluation.antt =====
-- What a request has passed whose blinded point is evaluated.
use crisp_qes.Common.{
  ◌≡◌, sym, some, List, ok, guard-inv, >>=-eq-ok, ok-injective, Result-cases, inl, inr, arith,
}
use crisp_qes.Common.Text.{Text, lower}
use crisp_qes.V3.Words.{Affine, Digest, extract_digest_from_public_inputs}
use crisp_qes.V3.Gate.{Gate, verify_enroll_commit_proof}
use crisp_qes.V3.Gate.Bound.{SpelledAt, Verified, to_big-SpelledAt, verify_enroll_commit_proof_iff}
use crisp_qes.V3.Challenge.{expected_digest_limbs}
use crisp_qes.V3.Server.{
  Payload, Reply, reply_with, point_hex, BlindEvalRequest, BlindEvalBody, validate_blind_eval_body,
  Config, Services, challenge_digest_ok,
}
use crisp_qes.V3.Server.BlindEval.{
  or_refused, or_unavailable, or_reply, point_of_hex, evaluate, blind_eval,
}
use crisp_qes.V3.Server.Register.Challenge.{same_digest_inv}
use crisp_qes.V3.Server.Register.Failures.{
  Fails, Fails-bind, Fails-ok, Fails-guard, IsNoSuccess, Fails-matching, Fails-is_proof_field,
  Fails-is_word_array, Fails-or_refused, Fails-or_unavailable, Fails-or_reply,
}
use crisp_qes.V3.Server.Register.Admission.{
  or_refused-ok, or_reply-ok, or_unavailable-ok, extract_digest_inv,
}

Fails-validate : (req : BlindEvalRequest) → Fails IsNoSuccess (validate_blind_eval_body req)
unfolding validate_blind_eval_body
Fails-validate req = Fails-bind (Fails-matching point_hex req.m _) λ m.
    Fails-bind (Fails-is_proof_field req.proof _)
      λ proof. Fails-bind (Fails-is_word_array req.public_inputs _) λ words. Fails-ok

module _ (cfg : Config) (sv : Services) where
  evaluate-IsNoSuccess : (req : BlindEvalRequest) → Fails IsNoSuccess (evaluate cfg sv req)
  unfolding evaluate
  evaluate-IsNoSuccess req = Fails-bind (Fails-validate req) λ body.
      Fails-bind
        (Fails-or_reply 400 Payload.bad_blinded_input (sv.from_affine (point_of_hex body.m))
          (λ e. omega (arith, e)))
        λ m. Fails-bind (Fails-or_unavailable sv.gate) λ gate.
          Fails-bind
            (Fails-or_refused (verify_enroll_commit_proof gate body.proof body.public_inputs m))
            λ _.
              Fails-bind
                (Fails-guard (challenge_digest_ok cfg sv body.m body.public_inputs)
                  (reply_with 409 Payload.challenge_mismatch) (λ e. omega (arith, e)))
                λ _.
                  Fails-bind
                    (Fails-or_reply 500 Payload.eval_error (sv.evaluate body.m cfg.threshold_epoch)
                      (λ e. omega (arith, e)))
                    λ partials. Fails-ok

  -- The verifier has accepted the proof; its words spell the point of the request and the hash of the
  -- challenge for the request's text and the epoch; and the responders have evaluated that text.
  pub record IsGated (req : BlindEvalRequest) (r : Reply) : Type 0 where
    pub body : BlindEvalBody
    pub validated : validate_blind_eval_body req ≡ ok body
    pub gate : Gate
    pub has_gate : sv.gate ≡ some gate
    pub m : Affine
    pub on_curve : sv.from_affine (point_of_hex body.m) ≡ ok m
    pub texts : List Text
    pub verified : Verified gate body.proof body.public_inputs texts
    pub m_x : SpelledAt texts 8 m.x
    pub m_y : SpelledAt texts 9 m.y
    pub digest : Digest
    pub hashed : expected_digest_limbs sv.sha256 (lower body.m) cfg.enroll_epoch ≡ ok digest
    pub hi : SpelledAt texts 11 digest.hi
    pub lo : SpelledAt texts 12 digest.lo
    pub partials : List Text
    pub responded : sv.evaluate body.m cfg.threshold_epoch ≡ ok partials
    pub reply : r ≡ reply_with 200 (Payload.evaluated partials cfg.threshold_epoch)

  evaluate-IsGated :
      (req : BlindEvalRequest) (r : Reply) → evaluate cfg sv req ≡ ok r → IsGated req r
  unfolding evaluate challenge_digest_ok
  evaluate-IsGated req r h =
      let (body, validated, h₁) = >>=-eq-ok (validate_blind_eval_body req) _ h in
      let words = body.public_inputs in
      let (m, on_curve, h₂) =
        >>=-eq-ok (or_reply 400 Payload.bad_blinded_input (sv.from_affine (point_of_hex body.m))) _
          h₁ in
      let (gate, available, h₃) = >>=-eq-ok (or_unavailable sv.gate) _ h₂ in
      let (_, accepted, h₄) =
        >>=-eq-ok (or_refused (verify_enroll_commit_proof gate body.proof words m)) _ h₃ in
      let (matches, h₅) = guard-inv (challenge_digest_ok cfg sv body.m words) _ _ h₄ in
      let (partials, responded, same) =
        >>=-eq-ok (or_reply 500 Payload.eval_error (sv.evaluate body.m cfg.threshold_epoch)) _ h₅ in
      let (texts, v, sx, sy) =
        (verify_enroll_commit_proof_iff gate body.proof words m).0 (or_refused-ok _ _ accepted) in
      let (d, bound, hashed) =
        same_digest_inv (extract_digest_from_public_inputs words)
          (expected_digest_limbs sv.sha256 (lower body.m) cfg.enroll_epoch) matches in
      let (at_hi, at_lo) = extract_digest_inv words d bound in
      record {
        body = body;
        validated = validated;
        gate = gate;
        has_gate = or_unavailable-ok _ _ available;
        m = m;
        on_curve = or_reply-ok _ _ _ _ on_curve;
        texts = texts;
        verified = v;
        m_x = sx;
        m_y = sy;
        digest = d;
        hashed = hashed;
        hi = (to_big-SpelledAt words texts 11 d.hi v.words_read (omega (arith, v.size))).0 at_hi;
        lo = (to_big-SpelledAt words texts 12 d.lo v.words_read (omega (arith, v.size))).0 at_lo;
        partials = partials;
        responded = or_reply-ok _ _ _ _ responded;
        reply = sym (ok-injective same);
      }

  -- A point is evaluated, with the answer 200, only for a request whose proof the verifier has accepted
  -- with words that spell that point, on the curve, and the hash of its challenge.
  pub blind_eval-IsGated :
      (req : BlindEvalRequest)
      → (blind_eval cfg sv req).code ≡ 200
      → IsGated req (blind_eval cfg sv req)
  unfolding blind_eval
  blind_eval-IsGated req = elim (Result-cases (evaluate cfg sv req)) [
    | inl (r, done) ↦ rw done λ _. evaluate-IsGated req r done
    | inr (q, refused) ↦
        rw refused λ code. absurd ((evaluate-IsNoSuccess req).with_failure q refused code)
  ]
