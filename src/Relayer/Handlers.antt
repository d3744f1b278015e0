-- ===== src/Relayer/Handlers.antt =====
-- packages/relayer/src/app.ts: the routes that relay a transaction.
-- A handler is its early returns, thrown as the reply, and then one `sendTx`. What the clients of
-- viem answer is the parameter `clients`.
pub mod Laws
pub mod Sends
pub mod Enroll
use crisp_qes.Common.{
  ℕ, Bool, true, false, Option, none, some, List, [], ◌∷◌, ◌++◌, String, leb, ◌==◌, if◌then◌else◌,
  Result, ok, fail, ◌>>=◌, ◌>>◌, guard, bytes_eq,
}
use crisp_qes.Common.Text.{Text, codes, lower, decimal, decimal_value, hex_to_bigint}
use crisp_qes.RateLimit.{Hits, take}
use crisp_qes.Relayer.Errors.{
  Thrown, RelayerErrorResponse, map_contract_error, map_enrollment_error,
}
use crisp_qes.Relayer.Requests.{Body, SubmitBody, EnrollBody, parse_submit, parse_enroll}

pub record RelayerConfig : Type 0 where
  pub petition_registry : Text
  pub enrollment_registry : Text
  pub block_explorer_base : Text
  pub rate_limit_window_ms : ℕ

-- `functionName` and `args`.
pub data Method : Type 0 where
  update_root : (new_root : Text) (new_commitments : List Text) (signature : Text) → Method
  sign_petition : (id : ℕ) (nullifier proof : Text) (public_inputs : List Text) → Method
  revoke_vote : (id : ℕ) (nullifier proof : Text) (public_inputs : List Text) → Method

pub record Call : Type 0 where
  pub address : Text
  pub method : Method

pub record Clients : Type 0 where
  pub read_root : Result Thrown Text
  pub simulate_contract : Call → Result Thrown (Unit {0})
  pub send_tx : Call → Result Thrown Text

-- What is sent as JSON: the two shapes of the routes' failures, and of their success.
pub data Payload : Type 0 where
  rate_limited : (retry_after_ms : ℕ) → Payload
  bad_request : (detail : Option String) → Payload
  unreachable : (detail : Text) → Payload
  stale_root : (expected received : Text) → Payload
  mapped : (error : String) (selector detail : Option Text) (retryable : Option Bool) → Payload
  sent : (tx_hash : Text) (block_explorer_url : Option Text) → Payload
  revoke_failed : (code : String) (status : ℕ) (detail : Option Text) → Payload
  revoke_sent : (tx_hash : Text) (block_explorer_url : Option Text) → Payload

pub record Reply : Type 0 where
  pub code : ℕ
  pub payload : Payload

-- The reply, the limiter after the request, and the calls given to `sendTx`.
pub record Outcome : Type 0 where
  pub reply : Reply
  pub hits : Hits
  pub sends : List Call

abbrev pub reply_with : ℕ → Payload → Reply
reply_with code payload = record { code = code; payload = payload }

-- A step of a handler that refuses with a reply built from what was thrown.
abbrev pub or_refuse {ℓ} : {A : Type ℓ} → Result Thrown A → (Thrown → Reply) → Result Reply A
or_refuse (ok a) f = ok a
or_refuse (fail err) f = fail (f err)

abbrev pub require {ℓ} : {A : Type ℓ} → Option A → Reply → Result Reply A
require (some a) r = ok a
require none r = fail r

-- `(err as Error).message`
abbrev pub message_of : Thrown → Text
message_of [] = []
message_of (c ∷ _) = c.message

abbrev pub block_explorer_url : RelayerConfig → Text → Option Text
block_explorer_url config tx_hash =
    if bytes_eq config.block_explorer_base []
    then none
    else some (config.block_explorer_base ++ tx_hash)

-- `hexToBigInt(body.publicInputs[0]).toString() === body.petitionId`
abbrev pub petition_matches : SubmitBody → Bool
petition_matches body = bytes_eq (decimal (hex_to_bigint body.petition_input)) body.petition_id

abbrev pub public_inputs : SubmitBody → List Text
public_inputs body = body.petition_input ∷ body.root_input ∷ body.nullifier_input ∷ []

abbrev pub respond : Result Thrown Text → (Text → Reply) → (Thrown → Reply) → Reply
respond (ok tx_hash) success failure = success tx_hash
respond (fail err) success failure = failure err

-- After the early returns: the call is sent, and the reply is made of what it answers.
abbrev pub deliver :
    Result Reply Call
    → (Call → Result Thrown Text)
    → (Text → Reply)
    → (Thrown → Reply)
    → Reply × List Call
deliver (fail r) send success failure = (r, [])
deliver (ok call) send success failure = (respond (send call) success failure, call ∷ [])

module _ (selector_of : String → Text) (config : RelayerConfig) (clients : Clients) where
  abbrev pub of_mapped : RelayerErrorResponse → Reply
  of_mapped m = reply_with m.status (Payload.mapped m.error m.selector m.detail none)

  -- An unrecognised failure of the write is answered 502, and a server error is retryable.
  abbrev pub of_enroll_write : RelayerErrorResponse → Reply
  of_enroll_write m =
      let status = if m.status == 500 then 502 else m.status in
      reply_with status (Payload.mapped m.error m.selector m.detail (some (leb 500 status)))

  abbrev pub of_revoke : RelayerErrorResponse → Reply
  of_revoke m = reply_with m.status (Payload.revoke_failed m.error m.status m.detail)

  unfoldable pub enroll_call : Bool → Body → Result Reply Call
  enroll_call granted body = do
    guard granted (reply_with 429 (Payload.rate_limited config.rate_limit_window_ms))
    b ← require (parse_enroll body) (reply_with 400 (Payload.bad_request none))
    let call : Call = record {
      address = config.enrollment_registry;
      method = Method.update_root b.new_root b.new_commitments b.signature;
    }
    or_refuse (clients.simulate_contract call)
        (λ err. of_mapped (map_enrollment_error selector_of err))
    ok call

  unfoldable pub submit_call : Bool → Body → Result Reply Call
  submit_call granted body = do
    guard granted (reply_with 429 (Payload.rate_limited config.rate_limit_window_ms))
    b ← require (parse_submit body) (reply_with 400 (Payload.bad_request none))
    guard (petition_matches b)
        (reply_with 400 (Payload.bad_request (some "publicInputs[0] != petitionId")))
    guard (bytes_eq b.nullifier_input b.nullifier)
        (reply_with 400 (Payload.bad_request (some "publicInputs[2] != nullifier")))
    live ←
        or_refuse clients.read_root (λ err. reply_with 502 (Payload.unreachable (message_of err)))
    guard (bytes_eq (lower b.root_input) (lower live))
        (reply_with 409 (Payload.stale_root live b.root_input))
    let call : Call = record {
      address = config.petition_registry;
      method =
          Method.sign_petition (decimal_value 0 b.petition_id) b.nullifier b.proof
            (public_inputs b);
    }
    or_refuse (clients.simulate_contract call)
        (λ err. of_mapped (map_contract_error selector_of err))
    ok call

  abbrev pub stale_detail : Text
  stale_detail =
      codes
        "publicInputs[1] does not match the live EnrollmentRegistry root — fetch a fresh Merkle path from /enrollment/:commitment/path on the OPRF service"

  abbrev pub revoke_refusal : ℕ → String → Option Text → Reply
  revoke_refusal status code detail = reply_with status (Payload.revoke_failed code status detail)

  -- The text of the refused limit.
  abbrev pub retry_detail : Text
  retry_detail = codes "retry after " ++ (decimal config.rate_limit_window_ms ++ codes "ms")

  -- The detail of a body that does not parse is zod's, and left out here.
  unfoldable pub revoke_call : Bool → Body → Result Reply Call
  revoke_call granted body = do
    guard granted (revoke_refusal 429 "RateLimited" (some retry_detail))
    b ← require (parse_submit body) (revoke_refusal 400 "BadRequest" none)
    guard (petition_matches b)
        (revoke_refusal 400 "BadRequest" (some (codes "publicInputs[0] != petitionId")))
    guard (bytes_eq b.nullifier_input b.nullifier)
        (revoke_refusal 400 "BadRequest" (some (codes "publicInputs[2] != nullifier")))
    live ←
        or_refuse clients.read_root
          (λ err. revoke_refusal 502 "EnrollmentRegistryUnreachable" (some (message_of err)))
    guard (bytes_eq (lower b.root_input) (lower live))
        (revoke_refusal 409 "StaleEnrollmentRoot" (some stale_detail))
    let call : Call = record {
      address = config.petition_registry;
      method =
          Method.revoke_vote (decimal_value 0 b.petition_id) b.nullifier b.proof (public_inputs b);
    }
    or_refuse (clients.simulate_contract call)
        (λ err. of_revoke (map_contract_error selector_of err))
    ok call

  abbrev pub outcome : Hits → Reply × List Call → Outcome
  outcome hits (r, calls) = record { reply = r; hits = hits; sends = calls }

  -- `POST /v2/enroll`, from the limiter's map, for an address and a time.
  unfoldable pub enroll : Hits → String → ℕ → Body → Outcome
  unfolding enroll_call
  enroll hits ip now body =
      let (granted, hits') = take config.rate_limit_window_ms hits ip now in
      outcome hits' (
        deliver (enroll_call granted body) clients.send_tx
          (λ tx_hash. reply_with 200 (Payload.sent tx_hash (block_explorer_url config tx_hash)))
          (λ err. of_enroll_write (map_enrollment_error selector_of err)))

  -- `POST /v2/submit`
  unfoldable pub submit : Hits → String → ℕ → Body → Outcome
  unfolding submit_call
  submit hits ip now body =
      let (granted, hits') = take config.rate_limit_window_ms hits ip now in
      outcome hits' (
        deliver (submit_call granted body) clients.send_tx
          (λ tx_hash. reply_with 200 (Payload.sent tx_hash (block_explorer_url config tx_hash)))
          (λ err. of_mapped (map_contract_error selector_of err)))

  -- `POST /v2/revoke`
  unfoldable pub revoke : Hits → String → ℕ → Body → Outcome
  unfolding revoke_call
  revoke hits ip now body =
      let (granted, hits') = take config.rate_limit_window_ms hits ip now in
      outcome hits' (
        deliver (revoke_call granted body) clients.send_tx
          (λ tx_hash.
            reply_with 200 (Payload.revoke_sent tx_hash (block_explorer_url config tx_hash)))
          (λ err. of_revoke (map_contract_error selector_of err)))
