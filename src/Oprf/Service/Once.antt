-- ===== src/Oprf/Service/Once.antt =====
-- An envelope is evaluated once, and a subject not more often than the cap.
use crisp_qes.Common.{
  ℕ, ◌/◌, ◌≤◌, ◌≡◌, refl, sym, subst, ◌⊎◌, true, false, List, ltb, Result, ok, fail, Result-cases,
  Bool-cases, inl, inr, arith, take, drop,
}
use crisp_qes.Common.Text.Hex.{from_hex}
use crisp_qes.Oprf.Store.{Store, record_p7s_hash_if_fresh, increment_blind_eval_count}
use crisp_qes.Oprf.Store.Replay.{Step, Steps, replay_refused}
use crisp_qes.Oprf.Service.{
  OprfConfig, Clock, BlindEvalRequest, Evaluation, Payload, Reply, reply_with, Services, Admitted,
  admit, throttle, evaluate, evaluate_admitted, blind_eval,
}
use crisp_qes.Oprf.Service.Gates.{IsAdmitted, admit-IsAdmitted, admit_refused}

module _ (cfg : OprfConfig) (sv : Services) where
  -- The count that the throttle compared with the cap is within it, unless there is no cap.
  abbrev pub IsWithinCap : Store → List ℕ → ℕ → Type 0
  IsWithinCap s subject now_sec =
      (cfg.max_blind_eval_per_rnokpp_per_epoch ≡ 0)
      ⊎ ((increment_blind_eval_count s (sv.sha256 subject) now_sec).0.count
          ≤ cfg.max_blind_eval_per_rnokpp_per_epoch)

  throttle-IsWithinCap :
      (s : Store) (subject : List ℕ) (now_sec : ℕ)
      → (throttle cfg sv s subject now_sec).0 ≡ false
      → IsWithinCap s subject now_sec
  unfolding throttle
  throttle-IsWithinCap s subject now_sec h =
      elim (Bool-cases (ltb 0 cfg.max_blind_eval_per_rnokpp_per_epoch)) [
        | inr off ↦ inl (ground arith)
        | inl on ↦
            let within : ltb cfg.max_blind_eval_per_rnokpp_per_epoch
                  (increment_blind_eval_count s (sv.sha256 subject) now_sec).0.count
                ≡ false =
              rw on at h in
            inr (ground arith)
      ]

  -- What an answered evaluation has passed.
  pub record IsEvaluated (s : Store) (clock : Clock) (a : Admitted) (reply : Reply) : Type 0 where
    pub first_use : (record_p7s_hash_if_fresh s (sv.sha256 a.p7s_bytes) (clock.ms / 1000)).0 ≡ true
    pub within :
        IsWithinCap
          (record_p7s_hash_if_fresh s (sv.sha256 a.p7s_bytes) (clock.ms / 1000)).1
          a.subject_serial
          (clock.ms / 1000)
    pub output : Evaluation
    pub evaluated : sv.blind_evaluate (from_hex a.blinded_input) ≡ ok output
    pub replied :
        reply
        ≡ reply_with 200 (
            Payload.evaluated output.y
              (take 32 output.proof)
              (take 32 (drop 32 output.proof))
              a.blinded_input)

  evaluate-IsEvaluated :
      (s : Store) (clock : Clock) (a : Admitted)
      → (evaluate cfg sv s clock a).0.code ≡ 200
      → IsEvaluated s clock a (evaluate cfg sv s clock a).0
  unfolding evaluate
  evaluate-IsEvaluated s clock a h =
      let now_sec = clock.ms / 1000 in
      let recorded = record_p7s_hash_if_fresh s (sv.sha256 a.p7s_bytes) now_sec in
      elim (Bool-cases recorded.0) [
        | inr old ↦ let e : 409 ≡ 200 = rw old at h in absurd (omega (arith, e))
        | inl fresh ↦ elim (Bool-cases (throttle cfg sv recorded.1 a.subject_serial now_sec).0) [
          | inl over ↦ let e : 429 ≡ 200 = rw (fresh, over) at h in absurd (omega (arith, e))
          | inr within ↦ elim (Result-cases (sv.blind_evaluate (from_hex a.blinded_input))) [
            | inr (m, failed) ↦
                let e : 400 ≡ 200 = rw (fresh, within, failed) at h in absurd (omega (arith, e))
            | inl (out, done) ↦ record {
              first_use = fresh;
              within = throttle-IsWithinCap recorded.1 a.subject_serial now_sec within;
              output = out;
              evaluated = done;
              replied = rw (fresh, within, done) refl;
            }
          ]
        ]
      ]

  -- If `POST /oprf/blind-eval` answers 200, then the request was admitted, its envelope had not been
  -- seen, the count of its subject is within the cap, and the reply is the evaluation of its own
  -- blinded input.
  pub blind_eval-IsEvaluated :
      (s : Store) (clock : Clock) (req : BlindEvalRequest)
      → (blind_eval cfg sv s clock req).0.code ≡ 200
      → (a : Admitted) × IsAdmitted cfg sv clock req a
        × IsEvaluated s clock a (blind_eval cfg sv s clock req).0
  unfolding blind_eval
  blind_eval-IsEvaluated s clock req = admitted (admit cfg sv clock req) refl
    where
      admitted :
          (m : Result Reply Admitted)
          → admit cfg sv clock req ≡ m
          → (evaluate_admitted cfg sv s clock m).0.code ≡ 200
          → (a : Admitted) × IsAdmitted cfg sv clock req a
            × IsEvaluated s clock a (evaluate_admitted cfg sv s clock m).0
      admitted (fail r) e h = absurd (omega (arith, admit_refused cfg sv clock req r e, h))
      admitted (ok a) e h =
          (a, admit-IsAdmitted cfg sv clock req a e, evaluate-IsEvaluated s clock a h)

  throttle-Steps :
      (bound : ℕ) (s : Store) (subject : List ℕ) (now_sec : ℕ)
      → Steps bound s (throttle cfg sv s subject now_sec).1
  unfolding throttle
  throttle-Steps bound s subject now_sec =
      elim (Bool-cases (ltb 0 cfg.max_blind_eval_per_rnokpp_per_epoch)) [
        | inr off ↦ rw off (Steps.done s)
        | inl on ↦ rw on (Steps.next (Step.counted s (sv.sha256 subject) now_sec) (Steps.done _))
      ]

  evaluate_store :
      (s : Store) (clock : Clock) (a : Admitted)
      → (record_p7s_hash_if_fresh s (sv.sha256 a.p7s_bytes) (clock.ms / 1000)).0 ≡ true
      → (evaluate cfg sv s clock a).1
        ≡ (throttle cfg sv
            (record_p7s_hash_if_fresh s (sv.sha256 a.p7s_bytes) (clock.ms / 1000)).1
            a.subject_serial
            (clock.ms / 1000)).1
  unfolding evaluate
  evaluate_store s clock a fresh =
      let recorded = record_p7s_hash_if_fresh s (sv.sha256 a.p7s_bytes) (clock.ms / 1000) in
      elim (Bool-cases (throttle cfg sv recorded.1 a.subject_serial (clock.ms / 1000)).0) [
        | inl over ↦ rw (fresh, over) refl
        | inr within ↦ rw (fresh, within) refl
      ]

  evaluate_replayed :
      (s : Store) (clock : Clock) (a : Admitted)
      → record_p7s_hash_if_fresh s (sv.sha256 a.p7s_bytes) (clock.ms / 1000) ≡ (false, s)
      → evaluate cfg sv s clock a ≡ (reply_with 409 Payload.replayed_attestation, s)
  unfolding evaluate
  evaluate_replayed s clock a old = rw old refl

  Steps-append :
      (bound : ℕ) (s s' s'' : Store) → Steps bound s s' → Steps bound s' s'' → Steps bound s s''
  Steps-append bound s s' s'' (Steps.done _) more = more
  Steps-append bound s s' s'' (Steps.next {s' = u} step steps) more =
      Steps.next step (Steps-append bound u s' s'' steps more)

  -- Once an admitted envelope has been recorded as new, a later request with the same envelope, or
  -- one of the same hash, that is admitted in its turn is answered 409 and changes nothing, whatever
  -- statements change the store in between, as long as they prune nothing seen since.
  pub blind_eval_once :
      (s s' : Store) (clock later : Clock) (req req' : BlindEvalRequest) (a a' : Admitted)
      → admit cfg sv clock req ≡ ok a
      → (record_p7s_hash_if_fresh s (sv.sha256 a.p7s_bytes) (clock.ms / 1000)).0 ≡ true
      → Steps (clock.ms / 1000) (blind_eval cfg sv s clock req).1 s'
      → admit cfg sv later req' ≡ ok a'
      → sv.sha256 a'.p7s_bytes ≡ sv.sha256 a.p7s_bytes
      → blind_eval cfg sv s' later req' ≡ (reply_with 409 Payload.replayed_attestation, s')
  unfolding blind_eval
  blind_eval_once s s' clock later req req' a a' admitted fresh between admitted' same =
      let recorded = record_p7s_hash_if_fresh s (sv.sha256 a.p7s_bytes) (clock.ms / 1000) in
      let stored : (blind_eval cfg sv s clock req).1
          ≡ (throttle cfg sv recorded.1 a.subject_serial (clock.ms / 1000)).1 =
        rw admitted (evaluate_store s clock a fresh) in
      let steps =
        Steps-append (clock.ms / 1000) recorded.1 _ s'
          (throttle-Steps (clock.ms / 1000) recorded.1 a.subject_serial (clock.ms / 1000))
          (subst (λ u. Steps (clock.ms / 1000) u s') stored between) in
      let refused =
        replay_refused s s' (sv.sha256 a.p7s_bytes) (clock.ms / 1000) (later.ms / 1000) fresh
          steps in
      rw admitted' (
        evaluate_replayed s' later a' (
          subst (λ h. record_p7s_hash_if_fresh s' h (later.ms / 1000) ≡ (false, s')) (sym same)
            refused))
