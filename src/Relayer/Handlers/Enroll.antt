-- ===== src/Relayer/Handlers/Enroll.antt =====
-- When the relayer sends an update of the enrollment root, and what it answers.
use crisp_qes.Common.{
  ℕ, ◌≤◌, ◌≡◌, refl, sym, ap, ◌↔◌, inl, inr, Bool, true, false, none, leb, Option-cases, Option,
  some, [], ◌∷◌, String, ok, fail, guard-inv, arith, ok-injective, ◌==◌,
}
use crisp_qes.Common.Text.{Text}
use crisp_qes.RateLimit.{Hits, take}
use crisp_qes.Relayer.Errors.{
  Thrown, TxError, map_enrollment_error, enrollment_answer, other_failure, known_name,
  enroll_error_names, find_revert_selector, classify_tx_error, detail_of, enroll_status_by_name,
}
use crisp_qes.Relayer.Errors.Statuses.{enroll_status_by_name_bounds, classify_tx_error_status}
use crisp_qes.Relayer.Requests.{Body, EnrollBody, parse_enroll}
use crisp_qes.Relayer.Handlers.{
  RelayerConfig, Method, Call, Clients, Payload, Reply, reply_with, enroll_call, enroll,
  of_enroll_write,
}
use crisp_qes.Relayer.Handlers.Laws.{require-inv, or_refuse-inv, deliver_sends}

abbrev pub update_call : RelayerConfig → EnrollBody → Call
update_call config b = record {
  address = config.enrollment_registry;
  method = Method.update_root b.new_root b.new_commitments b.signature;
}

-- A body that parses, and whose call passes the simulation.
pub record AuthorizesUpdate (config : RelayerConfig) (clients : Clients) (body : Body) (call : Call)
    : Type 0 where
  pub parsed : EnrollBody
  pub parses : parse_enroll body ≡ some parsed
  pub asked : call ≡ update_call config parsed
  pub simulated : clients.simulate_contract call ≡ ok tt

module _ (selector_of : String → Text) (config : RelayerConfig) (clients : Clients) where
  enroll_call_iff :
      (granted : Bool) (body : Body) (call : Call)
      → (enroll_call selector_of config clients granted body ≡ ok call)
        ↔ ((granted ≡ true) × AuthorizesUpdate config clients body call)
  unfolding enroll_call
  enroll_call_iff granted body call = (
    λ h.
        let (g, h₁) = guard-inv granted _ _ h in
        let (b, parses, h₂) = require-inv (parse_enroll body) _ _ h₁ in
        let (_, s, h₃) = or_refuse-inv (clients.simulate_contract (update_call config b)) _ _ h₂ in
        let asked = ok-injective h₃ in
        (
          g,
          record { parsed = b; parses = parses; asked = sym asked; simulated = rw (sym asked) s },
        ),
    λ (g, a).
        let passed : clients.simulate_contract (update_call config a.parsed) ≡ ok tt =
          rw a.asked at a.simulated in
        rw (g, a.parses, passed) (ap ok (sym a.asked)),
  )

  -- `POST /v2/enroll` gives a call to `sendTx` exactly if the limiter grants the request, the body
  -- parses and the simulation of its `updateRoot` call passes.
  pub enroll_sends :
      (hits : Hits) (ip : String) (now : ℕ) (body : Body) (call : Call)
      → ((enroll selector_of config clients hits ip now body).sends ≡ call ∷ []) ↔ (
          ((take config.rate_limit_window_ms hits ip now).0 ≡ true)
          × AuthorizesUpdate config clients body call)
  unfolding enroll
  enroll_sends hits ip now body call =
      let (granted, hits') = take config.rate_limit_window_ms hits ip now in
      let (sent, back) =
        deliver_sends (enroll_call selector_of config clients granted body) _ _ _ call in
      let (sound, complete) = enroll_call_iff granted body call in
      (λ h. sound (sent h), λ h. back (complete h))

  -- The name of the error of the registry that the failure reports, if it is one.
  abbrev pub reverted_name : Thrown → Option String
  reverted_name err =
      known_name selector_of enroll_error_names (find_revert_selector selector_of err)

  -- What a failure of the write is answered: an error of the registry with a client error, which is
  -- not to be retried; a gas or nonce condition with 503, and any other failure with 502, to be retried.
  pub data IsWriteFailure (err : Thrown) (r : Reply) : Type 0 where
    reverted :
        (name : String) (selector : Option Text) (detail : Option Text)
        → reverted_name err ≡ some name
        → r.payload ≡ Payload.mapped name selector detail (some false)
        → 400 ≤ r.code
        → r.code ≤ 409
        → IsWriteFailure err r
    conditioned :
        (tx : TxError)
        → reverted_name err ≡ none
        → classify_tx_error err ≡ some tx
        → r ≡ reply_with 503 (Payload.mapped tx.error none (some tx.detail) (some true))
        → IsWriteFailure err r
    unrecognised :
        reverted_name err ≡ none
        → classify_tx_error err ≡ none
        → r
          ≡ reply_with 502 (
              Payload.mapped "RelayerEnrollFailed"
                (find_revert_selector selector_of err)
                (detail_of err)
                (some true))
        → IsWriteFailure err r

  of_enroll_write-IsWriteFailure :
      (err : Thrown)
      → IsWriteFailure err
          (of_enroll_write selector_of config clients (map_enrollment_error selector_of err))
  unfolding map_enrollment_error enrollment_answer other_failure
  of_enroll_write-IsWriteFailure err = elim (Option-cases (reverted_name err)) [
    | inr (name, known) ↦
        let (low, high) = enroll_status_by_name_bounds name in
        let not_500 : (enroll_status_by_name name == 500) ≡ false = ground (arith, high) in
        let client : leb 500 (enroll_status_by_name name) ≡ false = ground (arith, high) in
        rw (known, not_500, client) (IsWriteFailure.reverted name _ _ known refl low high)
    | inl unknown ↦ elim (Option-cases (classify_tx_error err)) [
      | inl other ↦ rw (unknown, other) (IsWriteFailure.unrecognised unknown other refl)
      | inr (tx, condition) ↦
          let status = classify_tx_error_status err tx condition in
          rw (unknown, condition, status) (IsWriteFailure.conditioned tx unknown condition refl)
    ]
  ]

  -- If the call that `POST /v2/enroll` sends fails, the reply says how: an error of the registry is
  -- answered with its name and a status from 400 to 409, and is not retryable; a gas or nonce
  -- condition is answered 503, and any failure that is neither is answered 502 `RelayerEnrollFailed`,
  -- both retryable.
  pub enroll-IsWriteFailure :
      (hits : Hits) (ip : String) (now : ℕ) (body : Body) (call : Call) (err : Thrown)
      → (enroll selector_of config clients hits ip now body).sends ≡ call ∷ []
      → clients.send_tx call ≡ fail err
      → IsWriteFailure err (enroll selector_of config clients hits ip now body).reply
  unfolding enroll
  enroll-IsWriteFailure hits ip now body call err sent failed =
      let (granted, hits') = take config.rate_limit_window_ms hits ip now in
      let m = enroll_call selector_of config clients granted body in
      let called : m ≡ ok call = (deliver_sends m _ _ _ call).0 sent in
      rw (called, failed) (of_enroll_write-IsWriteFailure err)
