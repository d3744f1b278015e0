-- ===== src/Relayer/Handlers/Sends.antt =====
-- What the three relaying routes send and answer.
use crisp_qes.Common.{
  ℕ, ◌+◌, ◌<◌, ◌≤◌, ◌≡◌, refl, sym, ap, ◌∙◌, ◌↔◌, ◌⊎◌, inl, inr, true, Option, List, [], ◌∷◌,
  String, Result, ok, fail, arith, All,
}
use crisp_qes.Common.Text.{Text}
use crisp_qes.Common.Maps.{HasDistinctKeys}
use crisp_qes.RateLimit.{Hits, take}
use crisp_qes.RateLimit.Spacing.{after, take_spaced}
use crisp_qes.Relayer.Errors.{Thrown, map_contract_error}
use crisp_qes.Relayer.Errors.Statuses.{map_contract_error-IsFailure}
use crisp_qes.Relayer.Requests.{Body}
use crisp_qes.Relayer.Handlers.{
  RelayerConfig, Method, Call, Clients, Payload, Reply, reply_with, deliver, respond,
  block_explorer_url, submit_call, revoke_call, submit, revoke, of_revoke,
}
use crisp_qes.Relayer.Handlers.Laws.{
  Authorizes, submit_call_iff, revoke_call_iff, deliver_sends, submit_call_refused,
  revoke_call_refused,
}

-- The reply is 200 exactly if a call was sent and has a transaction hash.
deliver_accepted :
    (m : Result Reply Call) (send : Call → Result Thrown Text) (s : Text → Reply)
    (f : Thrown → Reply)
    → ((r : Reply) → m ≡ fail r → 400 ≤ r.code)
    → ((tx_hash : Text) → (s tx_hash).code ≡ 200)
    → ((err : Thrown) → 400 ≤ (f err).code)
    → ((deliver m send s f).0.code ≡ 200) ↔ (
        (call : Call) × (tx_hash : Text) × ((deliver m send s f).1 ≡ call ∷ [])
        × (send call ≡ ok tx_hash))
deliver_accepted (fail r) send s f refused success failed =
    (λ e. absurd (omega (arith, refused r refl, e)), λ x. cc)
deliver_accepted (ok c) send s f refused success failed = answered (send c) refl
  where
    answered :
        (a : Result Thrown Text)
        → send c ≡ a
        → ((respond (send c) s f).code ≡ 200)
          ↔ ((call : Call) × (tx_hash : Text) × (c ∷ [] ≡ call ∷ []) × (send call ≡ ok tx_hash))
    answered (ok tx_hash) e = (λ _. (c, tx_hash, refl, e), λ _. rw e (success tx_hash))
    answered (fail err) e = (
      λ h. absurd (omega (arith, failed err, ap (λ a. (respond a s f).code) (sym e) ∙ h)),
      λ (call, tx_hash, same, sent). cc,
    )

module _ (selector_of : String → Text) (config : RelayerConfig) (clients : Clients) (hits : Hits)
    (ip : String) (now : ℕ) (body : Body) where
  -- `POST /v2/submit` gives a call to `sendTx` exactly if the limiter grants the request and the body
  -- authorizes the call: it parses, its public inputs name its petition id, its nullifier and the
  -- live enrollment root, and the simulation of this same call passes.
  pub submit_sends :
      (call : Call)
      → ((submit selector_of config clients hits ip now body).sends ≡ call ∷ []) ↔ (
          ((take config.rate_limit_window_ms hits ip now).0 ≡ true)
          × Authorizes config clients Method.sign_petition body call)
  unfolding submit
  submit_sends call =
      let (granted, hits') = take config.rate_limit_window_ms hits ip now in
      let (sent, back) =
        deliver_sends (submit_call selector_of config clients granted body) _ _ _ call in
      let (sound, complete) = submit_call_iff selector_of config clients granted body call in
      (λ h. sound (sent h), λ h. back (complete h))

  -- `POST /v2/submit` answers 200 exactly if it sent a call and that has a transaction hash.
  pub submit_accepted : ((submit selector_of config clients hits ip now body).reply.code ≡ 200) ↔ (
      (call : Call) × (tx_hash : Text) × ((submit selector_of config clients hits ip now body).sends
        ≡ call ∷ [])
      × (clients.send_tx call ≡ ok tx_hash))
  unfolding submit
  submit_accepted =
      let (granted, hits') = take config.rate_limit_window_ms hits ip now in
      deliver_accepted (submit_call selector_of config clients granted body) clients.send_tx _ _
        (λ r h.
          submit_call_refused selector_of config clients (λ q. 400 ≤ q.code) granted body r h
            (λ _ _ le. le))
        (λ tx_hash. refl) (λ err. (map_contract_error-IsFailure selector_of err).0)

  -- `POST /v2/revoke` gives a call to `sendTx` under the conditions of a signature, for `revokeVote`.
  pub revoke_sends :
      (call : Call)
      → ((revoke selector_of config clients hits ip now body).sends ≡ call ∷ []) ↔ (
          ((take config.rate_limit_window_ms hits ip now).0 ≡ true)
          × Authorizes config clients Method.revoke_vote body call)
  unfolding revoke
  revoke_sends call =
      let (granted, hits') = take config.rate_limit_window_ms hits ip now in
      let (sent, back) =
        deliver_sends (revoke_call selector_of config clients granted body) _ _ _ call in
      let (sound, complete) = revoke_call_iff selector_of config clients granted body call in
      (λ h. sound (sent h), λ h. back (complete h))

  -- The wire shape of a withdrawal's reply: 200 with a transaction hash, or an error status that its
  -- `status` field repeats.
  abbrev pub IsRevokeReply : Reply → Type 0
  IsRevokeReply r =
      ((tx_hash : Text) × (r
          ≡ reply_with 200 (Payload.revoke_sent tx_hash (block_explorer_url config tx_hash))))
      ⊎ ((status : ℕ) × (code : String) × (detail : Option Text) × (r
            ≡ reply_with status (Payload.revoke_failed code status detail))
          × (400 ≤ status))

  -- `POST /v2/revoke` answers in the frozen shape on every path: 200 with a transaction hash, or an
  -- error status of at least 400 that the body's `status` repeats.
  pub revoke-IsRevokeReply :
      IsRevokeReply (revoke selector_of config clients hits ip now body).reply
  unfolding revoke
  revoke-IsRevokeReply =
      let (granted, hits') = take config.rate_limit_window_ms hits ip now in
      shaped (revoke_call selector_of config clients granted body) λ r h.
        revoke_call_refused selector_of config clients IsRevokeReply granted body r h
          (λ status code detail le. inr (status, code, detail, refl, le))
    where
      failure :
          (err : Thrown)
          → IsRevokeReply
              (of_revoke selector_of config clients (map_contract_error selector_of err))
      failure err = inr (_, _, _, refl, (map_contract_error-IsFailure selector_of err).0)

      responded :
          (a : Result Thrown Text)
          → IsRevokeReply (
              respond a
                (λ tx_hash.
                  reply_with 200 (Payload.revoke_sent tx_hash (block_explorer_url config tx_hash)))
                (λ err. of_revoke selector_of config clients (map_contract_error selector_of err)))
      responded (ok tx_hash) = inl (tx_hash, refl)
      responded (fail err) = failure err

      shaped :
          (m : Result Reply Call)
          → ((r : Reply) → m ≡ fail r → IsRevokeReply r)
          → IsRevokeReply
              (deliver m clients.send_tx
                (λ tx_hash.
                  reply_with 200 (Payload.revoke_sent tx_hash (block_explorer_url config tx_hash)))
                (λ err.
                  of_revoke selector_of config clients (map_contract_error selector_of err))).0
      shaped (fail r) h = h r refl
      shaped (ok call) h = responded (clients.send_tx call)

-- After a signature request that the limiter grants, the requests of its address within the window
-- are answered 429 and send nothing, whatever requests, of that address and of others, come between.
pub submit_flood :
    (selector_of : String → Text) (config : RelayerConfig) (clients : Clients) (hits : Hits)
    (ip : String) (now later : ℕ) (body body' : Body) (between : List (String × ℕ))
    → HasDistinctKeys hits
    → (take config.rate_limit_window_ms hits ip now).0 ≡ true
    → All (λ c. c.1 < now + config.rate_limit_window_ms) between
    → later < now + config.rate_limit_window_ms
    → (let hits' =
          after config.rate_limit_window_ms
            (submit selector_of config clients hits ip now body).hits
            between in
        submit selector_of config clients hits' ip later body' ≡ record {
          reply = reply_with 429 (Payload.rate_limited config.rate_limit_window_ms);
          hits = hits';
          sends = [];
        })
unfolding submit submit_call
submit_flood selector_of config clients hits ip now later body body' between h granted times lt =
    rw (take_spaced config.rate_limit_window_ms now later hits ip between h granted times lt) refl
