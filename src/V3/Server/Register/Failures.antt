-- ===== src/V3/Server/Register/Failures.antt =====
-- What the steps of a handler fail with: none of the replies is a success.
use crisp_qes.Common.{
  ℕ, ◌≡◌, ◌≢◌, refl, subst, Bool, true, false, Bool-cases, inl, inr, Option, none, some, [], ◌∷◌,
  String, Result, ok, fail, ◌>>=◌, guard, arith,
}
use crisp_qes.Common.Text.{Text}
use crisp_qes.V3.Gate.{Gate, GateCode, Refusal}
use crisp_qes.V3.Server.{
  Payload, Reply, Json, matching, is_proof_field, is_word_array, hex32, RegisterRequest,
  validate_register_body,
}
use crisp_qes.V3.Server.BlindEval.{or_refused, or_unavailable, or_reply, status_of}
use crisp_qes.V3.Server.Register.{Stop, or_answer, or_throw}

-- What a step fails with, if it fails, is `P`.
pub record Fails {E A : Type 0} (P : E → Type 0) (r : Result E A) : Type 0 where
  pub with_failure : (e : E) → r ≡ fail e → P e

pub Fails-bind :
    {E A B : Type 0} {P : E → Type 0} {step : Result E A} {next : A → Result E B}
    → Fails P step
    → ((a : A) → Fails P (next a))
    → Fails P (step >>= next)
Fails-bind {step = ok a} first later = later a
Fails-bind {step = fail s} first later = record { with_failure = λ e h. first.with_failure e cc }

pub Fails-ok : {E A : Type 0} {P : E → Type 0} {a : A} → Fails P (ok a)
Fails-ok = record { with_failure = λ e h. cc }

pub Fails-fail : {E A : Type 0} {P : E → Type 0} {e : E} → P e → Fails {A = A} P (fail e)
Fails-fail {P = P} {e = e} p = record {
  with_failure = λ e' h. (let same : e ≡ e' = cc in subst P same p);
}

pub Fails-guard : {E : Type 0} {P : E → Type 0} (b : Bool) (e : E) → P e → Fails P (guard b e)
Fails-guard true e p = Fails-ok
Fails-guard false e p = Fails-fail p

-- It is not answered 200.
abbrev pub IsNoSuccess : Reply → Type 0
IsNoSuccess q = q.code ≢ 200

abbrev pub IsRefusal : Stop → Type 0
IsRefusal (Stop.answered q) = IsNoSuccess q
IsRefusal (Stop.thrown e) = Unit

pub Fails-or_answer :
    {A : Type 0} (r : Result Reply A) → Fails IsNoSuccess r → Fails IsRefusal (or_answer r)
Fails-or_answer (ok a) h = Fails-ok
Fails-or_answer (fail q) h = Fails-fail (h.with_failure q refl)

pub Fails-or_throw : {A : Type 0} (r : Result String A) → Fails IsRefusal (or_throw r)
Fails-or_throw (ok a) = Fails-ok
Fails-or_throw (fail e) = Fails-fail tt

status_of_ne : (code : GateCode) → status_of code ≢ 200
status_of_ne code e = ground arith

pub Fails-or_refused : {A : Type 0} (r : Result Refusal A) → Fails IsNoSuccess (or_refused r)
Fails-or_refused (ok a) = Fails-ok
Fails-or_refused (fail s) = Fails-fail (status_of_ne s.code)

pub Fails-or_unavailable : (o : Option Gate) → Fails IsNoSuccess (or_unavailable o)
Fails-or_unavailable none = Fails-fail (λ e. omega (arith, e))
Fails-or_unavailable (some g) = Fails-ok

pub Fails-or_reply :
    {A : Type 0} (code : ℕ) (payload : String → Payload) (r : Result String A)
    → code ≢ 200
    → Fails IsNoSuccess (or_reply code payload r)
Fails-or_reply code payload (ok a) ne = Fails-ok
Fails-or_reply code payload (fail e) ne = Fails-fail ne

pub Fails-matching :
    (p : Text → Bool) (j : Json) (detail : String) → Fails IsNoSuccess (matching p j detail)
Fails-matching p (Json.text t) detail = elim (Bool-cases (p t)) [
  | inl fits ↦ rw fits (Fails-ok)
  | inr bad ↦ rw bad (Fails-fail (λ e. omega (arith, e)))
]
Fails-matching p (Json.array bs ws) detail = Fails-fail (λ e. omega (arith, e))
Fails-matching p Json.other detail = Fails-fail (λ e. omega (arith, e))

pub Fails-is_proof_field :
    (j : Json) (detail : String) → Fails IsNoSuccess (is_proof_field j detail)
Fails-is_proof_field (Json.text t) detail = Fails-ok
Fails-is_proof_field (Json.array bs ws) detail = Fails-ok
Fails-is_proof_field Json.other detail = Fails-fail (λ e. omega (arith, e))

pub Fails-is_word_array : (j : Json) (detail : String) → Fails IsNoSuccess (is_word_array j detail)
Fails-is_word_array (Json.text t) detail = Fails-fail (λ e. omega (arith, e))
Fails-is_word_array (Json.array bs []) detail = Fails-fail (λ e. omega (arith, e))
Fails-is_word_array (Json.array bs (w ∷ ws)) detail = Fails-ok
Fails-is_word_array Json.other detail = Fails-fail (λ e. omega (arith, e))

pub Fails-validate : (req : RegisterRequest) → Fails IsNoSuccess (validate_register_body req)
unfolding validate_register_body
Fails-validate req = Fails-bind (Fails-matching hex32 req.commitment _) λ commitment.
    Fails-bind (Fails-guard _ _ (λ e. omega (arith, e))) λ _.
      Fails-bind (Fails-is_proof_field req.enroll_proof _) λ enroll_proof.
        Fails-bind (Fails-is_word_array req.enroll_public_inputs _) λ enroll_words.
          Fails-bind (Fails-is_proof_field req.nullifier_proof _) λ nullifier_proof.
            Fails-bind (Fails-is_word_array req.nullifier_public_inputs _) λ words. Fails-ok
