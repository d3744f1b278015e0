-- ===== src/Oprf/Service/Gates.antt =====
-- Which evaluations are answered.
use crisp_qes.Common.{
  ℕ, ◌≤◌, ◌≡◌, refl, sym, subst, ap, ◌↔◌, ◌⊎◌, Bool, true, false, not, ◌&&◌, Option, none, some,
  List, ltb, Result, ok, fail, guard, >>=-eq-ok, >>=-eq-fail, Bool-cases, inl, inr, arith,
  ok-injective,
}
use crisp_qes.Common.Text.{Text}
use crisp_qes.Oprf.Dob.{Date, age_in_years}
use crisp_qes.Oprf.Dob.Age.{HasReached, age_in_years-HasReached}
use crisp_qes.Oprf.Attestation.{
  AttestationError, ParsedP7s, VerifiedAttestation, verify_attestation,
}
use crisp_qes.Oprf.Attestation.Sound.{IsVerified, verify_attestation-IsVerified}
use crisp_qes.Oprf.Service.{
  OprfConfig, Clock, BlindEvalRequest, Payload, Reply, reply_with, hex32, base64, string_field,
  Services, or_unauthorized, age_gate, Admitted, expected_digest, attestation_opts, admit,
}

string_field-inv :
    (p : Text → Bool) (o : Option Text) (t : Text)
    → string_field p o ≡ ok t
    → (o ≡ some t) × (p t ≡ true)
string_field-inv p none t h = cc
string_field-inv p (some u) t h = elim (Bool-cases (p u)) [
  | inr bad ↦
      let e : ◌≡◌ {A = Result Reply Text} (fail (reply_with 400 Payload.bad_request)) (ok t) =
        rw bad at h in
      cc
  | inl valid ↦
      let e : ◌≡◌ {A = Result Reply Text} (ok u) (ok t) = rw valid at h in
      let same : u ≡ t = ok-injective e in (ap some same, subst (λ v. p v ≡ true) same valid)
]

pub string_field_refused :
    (p : Text → Bool) (o : Option Text) (r : Reply) → string_field p o ≡ fail r → r.code ≡ 400
string_field_refused p none r h =
    let e : reply_with 400 Payload.bad_request ≡ r = cc in rw (sym e) refl
string_field_refused p (some t) r h = elim (Bool-cases (p t)) [
  | inl valid ↦ let e : ◌≡◌ {A = Result Reply Text} (ok t) (fail r) = rw valid at h in cc
  | inr bad ↦
      let e : ◌≡◌ {A = Result Reply Text} (fail (reply_with 400 Payload.bad_request)) (fail r) =
        rw bad at h in
      let same : reply_with 400 Payload.bad_request ≡ r = cc in rw (sym same) refl
]

or_unauthorized-inv {ℓ} :
    {A : Type ℓ} (m : Result AttestationError A) {a : A} → or_unauthorized m ≡ ok a → m ≡ ok a
or_unauthorized-inv (ok a) h = ap ok (ok-injective h)
or_unauthorized-inv (fail e) h = cc

-- The age gate is passed exactly if no threshold is set, the certificate has no birth date, or the
-- birthday of the threshold has been reached.
pub age_gate_iff :
    (threshold : ℕ) (dob : Option Date) (today : Date)
    → (age_gate threshold dob today ≡ ok tt) ↔ (
        (threshold ≡ 0)
        ⊎ ((dob ≡ none) ⊎ ((d : Date) × (dob ≡ some d) × HasReached threshold d today)))
unfolding age_gate
age_gate_iff threshold none today = (λ h. inr (inl refl), λ h. refl)
age_gate_iff threshold (some d) today = elim (Bool-cases (ltb 0 threshold)) [
  | inr off ↦ rw off (λ h. inl (ground arith), λ x. refl)
  | inl on ↦
      let (reached, grown) = age_in_years-HasReached threshold d today (ground arith) in
      elim (Bool-cases (ltb (age_in_years d today) threshold)) [
        | inl young ↦
            rw (on, young)
              (
                λ h. cc,
                λ x. elim x [
                  | inl zero ↦ absurd (ground arith)
                  | inr (inl missing) ↦ cc
                  | inr (inr (t, same, at)) ↦
                      let e : t ≡ d = cc in
                      absurd
                        (ground (arith, grown (subst (λ u. HasReached threshold u today) e at)))
                ],
              )
        | inr old ↦ rw (on, old) (λ h. inr (inr (d, refl, reached (ground arith))), λ x. refl)
      ]
]

module _ (cfg : OprfConfig) (sv : Services) where
  -- What a request has passed before anything is stored for it: its envelope is verified, for the
  -- artifact of its own blinded input where binding is enforced, and its subject is old enough.
  pub record IsAdmitted (clock : Clock) (req : BlindEvalRequest) (a : Admitted) : Type 0 where
    pub blinded : req.blinded_input ≡ some a.blinded_input
    pub p7s : Text
    pub enveloped : req.p7s ≡ some p7s
    pub decoded : a.p7s_bytes ≡ sv.base64_to_bytes p7s
    pub digest : Option (List ℕ)
    pub expected : expected_digest cfg sv a.blinded_input ≡ ok digest
    pub parsed : ParsedP7s
    pub parses : sv.parse_p7s a.p7s_bytes ≡ some parsed
    pub verified : VerifiedAttestation
    pub attested : IsVerified sv.lib parsed (attestation_opts cfg sv clock.ms digest) verified
    pub grown : age_gate cfg.age_threshold verified.dob clock.today ≡ ok tt
    pub subject : a.subject_serial ≡ verified.subject_serial

  pub admit-IsAdmitted :
      (clock : Clock) (req : BlindEvalRequest) (a : Admitted)
      → admit cfg sv clock req ≡ ok a
      → IsAdmitted clock req a
  unfolding admit
  admit-IsAdmitted clock req a h =
      let (blinded_input, blinded, h₁) = >>=-eq-ok (string_field hex32 req.blinded_input) _ h in
      let (p7s, enveloped, h₂) = >>=-eq-ok (string_field base64 req.p7s) _ h₁ in
      let (digest, expected, h₃) =
        >>=-eq-ok (or_unauthorized (expected_digest cfg sv blinded_input)) _ h₂ in
      let (verified, attested, h₄) =
        >>=-eq-ok
          (or_unauthorized (
            verify_attestation sv.lib (sv.parse_p7s (sv.base64_to_bytes p7s))
              (attestation_opts cfg sv clock.ms digest)))
          _ h₃ in
      let (_, grown, h₅) = >>=-eq-ok (age_gate cfg.age_threshold verified.dob clock.today) _ h₄ in
      let (parsed, parses, checked) =
        verify_attestation-IsVerified sv.lib _ (attestation_opts cfg sv clock.ms digest) verified
          (or_unauthorized-inv _ attested) in
      subst (λ (b : Admitted). IsAdmitted clock req b) (ok-injective h₅)
        (record {
          blinded = (string_field-inv hex32 req.blinded_input blinded_input blinded).0;
          p7s = p7s;
          enveloped = (string_field-inv base64 req.p7s p7s enveloped).0;
          decoded = refl;
          digest = digest;
          expected = or_unauthorized-inv (expected_digest cfg sv blinded_input) expected;
          parsed = parsed;
          parses = parses;
          verified = verified;
          attested = checked;
          grown = grown;
          subject = refl;
        })

  or_unauthorized-fail {ℓ} :
      {A : Type ℓ} (m : Result AttestationError A) (r : Reply)
      → or_unauthorized m ≡ fail r
      → r.code ≡ 401
  or_unauthorized-fail (ok a) r h = cc
  or_unauthorized-fail (fail e) r h =
      let same : reply_with 401 (Payload.attestation_failed e) ≡ r = cc in rw (sym same) refl

  age_gate-fail :
      (threshold : ℕ) (dob : Option Date) (today : Date) (r : Reply)
      → age_gate threshold dob today ≡ fail r
      → r.code ≡ 403
  unfolding age_gate
  age_gate-fail threshold none today r h = cc
  age_gate-fail threshold (some d) today r h =
      refused (not (ltb 0 threshold && ltb (age_in_years d today) threshold)) _ h
    where
      refused : (b : Bool) (q : Payload) → guard b (reply_with 403 q) ≡ fail r → r.code ≡ 403
      refused true q e = cc
      refused false q e = let same : reply_with 403 q ≡ r = cc in rw (sym same) refl

  -- A request that is not admitted is answered with 400, 401 or 403.
  pub admit_refused :
      (clock : Clock) (req : BlindEvalRequest) (r : Reply)
      → admit cfg sv clock req ≡ fail r
      → 400 ≤ r.code
  unfolding admit
  admit_refused clock req r h = elim (>>=-eq-fail (string_field hex32 req.blinded_input) _ h) [
    | inl e ↦ omega (arith, string_field_refused hex32 req.blinded_input r e)
    | inr (blinded_input, _, h₁) ↦ elim (>>=-eq-fail (string_field base64 req.p7s) _ h₁) [
      | inl e ↦ omega (arith, string_field_refused base64 req.p7s r e)
      | inr (p7s, _, h₂) ↦
          elim (>>=-eq-fail (or_unauthorized (expected_digest cfg sv blinded_input)) _ h₂) [
            | inl e ↦ omega (arith, or_unauthorized-fail (expected_digest cfg sv blinded_input) r e)
            | inr (digest, _, h₃) ↦
                elim (>>=-eq-fail
                  (or_unauthorized (
                    verify_attestation sv.lib (sv.parse_p7s (sv.base64_to_bytes p7s))
                      (attestation_opts cfg sv clock.ms digest)))
                  _ h₃) [
                    | inl e ↦ omega (arith, or_unauthorized-fail _ r e)
                    | inr (verified, _, h₄) ↦
                        elim (>>=-eq-fail (age_gate cfg.age_threshold verified.dob clock.today) _
                          h₄) [
                            | inl e ↦ omega (
                              arith,
                              age_gate-fail cfg.age_threshold verified.dob clock.today r e,
                            )
                            | inr (_, _, h₅) ↦ cc
                          ]
                  ]
          ]
    ]
  ]
