-- ===== src/V3/Server/Register/Admission.antt =====
-- What a request of an enrollment has passed before anything is stored.
use crisp_qes.Common.{
  ℕ, ◌≡◌, subst, ap, Option, none, some, List, ◌++◌, String, Result, ok, fail, guard-inv, >>=-eq-ok,
  ok-injective, length, ◌==◌, arith,
}
use crisp_qes.Common.Text.{Text, codes, lower}
use crisp_qes.V3.Words.{
  Word, word_at, Affine, Digest, affine_at, to_big, extract_digest_from_public_inputs,
  extract_m_from_public_inputs, extract_cr_from_enroll,
}
use crisp_qes.V3.Gate.{Gate, Refusal, verify_enroll_commit_proof, verify_threshold_nullifier_proof}
use crisp_qes.V3.Gate.Bound.{
  SpelledAt, Verified, to_big-SpelledAt, extract_m_inv, verify_enroll_commit_proof_iff,
}
use crisp_qes.V3.Gate.Nullifier.{Binds, verify_threshold_nullifier_proof_iff}
use crisp_qes.V3.Server.{
  Payload, Reply, reply_with, RegisterRequest, RegisterBody, validate_register_body, Config,
  Services, challenge_digest_ok,
}
use crisp_qes.V3.Server.BlindEval.{or_refused, or_unavailable, or_reply, point_of_hex}
use crisp_qes.V3.Challenge.{expected_digest_limbs}
use crisp_qes.V3.Server.Register.Challenge.{challenge_digest_ok-point_of_hex}
use crisp_qes.V3.Server.Register.Failures.{
  Fails, Fails-bind, Fails-ok, Fails-guard, IsRefusal, Fails-or_answer, Fails-or_throw,
  Fails-or_refused, Fails-or_unavailable, Fails-or_reply, Fails-validate,
}
use crisp_qes.V3.Server.Register.{Stop, or_answer, or_throw, padded_hex, expected_of, admit}

pub or_answer-ok : {A : Type 0} (r : Result Reply A) (a : A) → or_answer r ≡ ok a → r ≡ ok a
or_answer-ok (ok b) a h = ap ok (ok-injective h)
or_answer-ok (fail q) a h = cc

pub or_refused-ok : {A : Type 0} (r : Result Refusal A) (a : A) → or_refused r ≡ ok a → r ≡ ok a
or_refused-ok (ok b) a h = ap ok (ok-injective h)
or_refused-ok (fail q) a h = cc

pub or_reply-ok :
    {A : Type 0} (code : ℕ) (payload : String → Payload) (r : Result String A) (a : A)
    → or_reply code payload r ≡ ok a
    → r ≡ ok a
or_reply-ok code payload (ok b) a h = ap ok (ok-injective h)
or_reply-ok code payload (fail q) a h = cc

pub or_unavailable-ok : (o : Option Gate) (g : Gate) → or_unavailable o ≡ ok g → o ≡ some g
or_unavailable-ok none g h = cc
or_unavailable-ok (some g') g h = ap some (ok-injective h)

pub or_throw-ok : {A : Type 0} (r : Result String A) (a : A) → or_throw r ≡ ok a → r ≡ ok a
or_throw-ok (ok b) a h = ap ok (ok-injective h)
or_throw-ok (fail q) a h = cc

affine_at_inv :
    (words : List Word) (a : Affine)
    → affine_at words 8 ≡ ok a
    → (to_big words 8 ≡ ok a.x) × (to_big words 9 ≡ ok a.y)
unfolding affine_at
affine_at_inv words a h = ground arith

pub extract_digest_inv :
    (words : List Word) (d : Digest)
    → extract_digest_from_public_inputs words ≡ ok d
    → (to_big words 11 ≡ ok d.hi) × (to_big words 12 ≡ ok d.lo)
unfolding extract_digest_from_public_inputs
extract_digest_inv words d h = ground arith

module _ (cfg : Config) (sv : Services) where
  -- A request that is not admitted is not answered 200.
  pub admit-IsRefusal : (req : RegisterRequest) → Fails IsRefusal (admit cfg sv req)
  unfolding admit
  admit-IsRefusal req = Fails-bind (Fails-or_answer _ (Fails-validate req)) λ body.
      let words = body.enroll_public_inputs in
      Fails-bind (Fails-or_answer _ (Fails-or_unavailable sv.gate)) λ gate.
        Fails-bind (Fails-or_answer _ (Fails-or_unavailable sv.nullifier_gate)) λ gate'.
          Fails-bind
            (Fails-or_answer _ (
              Fails-or_reply 400 Payload.malformed_proof (extract_m_from_public_inputs words)
                (λ e. omega (arith, e))))
            λ m.
              Fails-bind
                (Fails-or_answer _
                  (Fails-or_refused (verify_enroll_commit_proof gate body.enroll_proof words m)))
                λ _. Fails-bind (Fails-or_throw (padded_hex (word_at words 8))) λ ex_hex.
                  Fails-bind (Fails-or_throw (padded_hex (word_at words 9))) λ ey_hex.
                    Fails-bind
                      (Fails-guard
                        (challenge_digest_ok cfg sv (codes "0x" ++ (ex_hex ++ ey_hex)) words)
                        (Stop.answered (reply_with 409 Payload.challenge_mismatch))
                        (λ e. omega (arith, e)))
                      λ _.
                        Fails-bind
                          (Fails-or_answer _ (
                            Fails-or_reply 400 Payload.malformed_proof
                              (extract_cr_from_enroll words) (λ e. omega (arith, e))))
                          λ cr.
                            Fails-bind
                              (Fails-or_answer _ (
                                Fails-or_refused (
                                  verify_threshold_nullifier_proof gate' body.nullifier_proof
                                    body.nullifier_public_inputs (expected_of cfg sv body m cr))))
                              λ publics. Fails-ok

  -- Both verifiers have accepted. The words of the enrollment proof spell its point, the commitment
  -- to its blinding factor, and the hash of the challenge of that point and the epoch; those of the nullifier proof spell the same values, the published keys,
  -- the current epoch and the commitment that is to be enrolled.
  pub record IsAdmitted (req : RegisterRequest) (body : RegisterBody) : Type 0 where
    pub validated : validate_register_body req ≡ ok body
    pub gate : Gate
    pub has_gate : sv.gate ≡ some gate
    pub nullifier_gate : Gate
    pub has_nullifier_gate : sv.nullifier_gate ≡ some nullifier_gate
    pub enroll_texts : List Text
    pub enroll_verified : Verified gate body.enroll_proof body.enroll_public_inputs enroll_texts
    pub m : Affine
    pub m_x : SpelledAt enroll_texts 8 m.x
    pub m_y : SpelledAt enroll_texts 9 m.y
    pub cr : ℕ
    pub c_r : SpelledAt enroll_texts 10 cr
    pub challenge : Text
    pub of_m : point_of_hex challenge ≡ m
    pub digest : Digest
    pub hashed : expected_digest_limbs sv.sha256 (lower challenge) cfg.enroll_epoch ≡ ok digest
    pub hi : SpelledAt enroll_texts 11 digest.hi
    pub lo : SpelledAt enroll_texts 12 digest.lo
    pub nullifier_texts : List Text
    pub nullifier_verified :
        Verified nullifier_gate body.nullifier_proof body.nullifier_public_inputs nullifier_texts
    pub binds : Binds nullifier_texts (expected_of cfg sv body m cr)

  pub admit-IsAdmitted :
      (req : RegisterRequest) (body : RegisterBody)
      → admit cfg sv req ≡ ok body
      → IsAdmitted req body
  unfolding admit extract_cr_from_enroll
  admit-IsAdmitted req body h =
      let (body', h₀, k₀) = >>=-eq-ok (or_answer (validate_register_body req)) _ h in
      let (gate, h₁, k₁) = >>=-eq-ok (or_answer (or_unavailable sv.gate)) _ k₀ in
      let (gate', h₂, k₂) = >>=-eq-ok (or_answer (or_unavailable sv.nullifier_gate)) _ k₁ in
      let words = body'.enroll_public_inputs in
      let (m, h₃, k₃) =
        >>=-eq-ok
          (or_answer (or_reply 400 Payload.malformed_proof (extract_m_from_public_inputs words))) _
          k₂ in
      let (_, h₄, k₄) =
        >>=-eq-ok
          (or_answer (or_refused (verify_enroll_commit_proof gate body'.enroll_proof words m))) _
          k₃ in
      let (ex, padded_x, k₅) = >>=-eq-ok (or_throw (padded_hex (word_at words 8))) _ k₄ in
      let (ey, padded_y, k₆) = >>=-eq-ok (or_throw (padded_hex (word_at words 9))) _ k₅ in
      let (matches, k₇) =
        guard-inv (challenge_digest_ok cfg sv (codes "0x" ++ (ex ++ ey)) words) _ _ k₆ in
      let (cr, h₈, k₈) =
        >>=-eq-ok (or_answer (or_reply 400 Payload.malformed_proof (extract_cr_from_enroll words)))
          _ k₇ in
      let (publics, h₉, e) =
        >>=-eq-ok
          (or_answer (
            or_refused (
              verify_threshold_nullifier_proof gate' body'.nullifier_proof
                body'.nullifier_public_inputs (expected_of cfg sv body' m cr))))
          _ k₈ in
      let (texts, v, sx, sy) =
        (verify_enroll_commit_proof_iff gate body'.enroll_proof words m).0
          (or_refused-ok _ _ (or_answer-ok _ _ h₄)) in
      let (texts', v', b) =
        (verify_threshold_nullifier_proof_iff gate' body'.nullifier_proof
            body'.nullifier_public_inputs (expected_of cfg sv body' m cr)).0
          (publics, or_refused-ok _ _ (or_answer-ok _ _ h₉)) in
      let (_, read) =
        guard-inv (length words == 13) _ _ (or_reply-ok _ _ _ _ (or_answer-ok _ _ h₈)) in
      let (at_x, at_y) =
        affine_at_inv words m
          (extract_m_inv words m (or_reply-ok _ _ _ _ (or_answer-ok _ _ h₃))).1 in
      let (of_m, d, bound, hashed) =
        challenge_digest_ok-point_of_hex cfg sv words m ex ey at_x at_y (or_throw-ok _ _ padded_x)
          (or_throw-ok _ _ padded_y) matches in
      let (at_hi, at_lo) = extract_digest_inv words d bound in
      subst (IsAdmitted req) (ok-injective e) (record {
        validated = or_answer-ok _ _ h₀;
        gate = gate;
        has_gate = or_unavailable-ok _ _ (or_answer-ok _ _ h₁);
        nullifier_gate = gate';
        has_nullifier_gate = or_unavailable-ok _ _ (or_answer-ok _ _ h₂);
        enroll_texts = texts;
        enroll_verified = v;
        m = m;
        m_x = sx;
        m_y = sy;
        cr = cr;
        c_r = (to_big-SpelledAt words texts 10 cr v.words_read (omega (arith, v.size))).0 read;
        challenge = codes "0x" ++ (ex ++ ey);
        of_m = of_m;
        digest = d;
        hashed = hashed;
        hi = (to_big-SpelledAt words texts 11 d.hi v.words_read (omega (arith, v.size))).0 at_hi;
        lo = (to_big-SpelledAt words texts 12 d.lo v.words_read (omega (arith, v.size))).0 at_lo;
        nullifier_texts = texts';
        nullifier_verified = v';
        binds = b;
      })
