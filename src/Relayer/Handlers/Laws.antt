-- ===== src/Relayer/Handlers/Laws.antt =====
-- When the relayer sends a transaction, and which.
use crisp_qes.Common.{
  ℕ, ◌≤◌, ◌≡◌, refl, sym, ap, ◌↔◌, ◌⊎◌, inl, inr, Bool, true, false, Option, none, some, List, [],
  ◌∷◌, String, Result, ok, fail, ◌>>=◌, ◌>>◌, guard, guard-inv, bytes_eq, bytes_eq_sound,
  bytes_eq_refl, arith, ok-injective,
}
use crisp_qes.Common.Text.{Text, lower, decimal, decimal_value, hex_to_bigint}
use crisp_qes.Relayer.Errors.{Thrown}
use crisp_qes.Relayer.Errors.Statuses.{map_contract_error-IsFailure}
use crisp_qes.Relayer.Requests.{Body, SubmitBody, parse_submit}
use crisp_qes.Relayer.Handlers.{
  RelayerConfig, Method, Call, Clients, Payload, Reply, reply_with, or_refuse, require,
  petition_matches, public_inputs, deliver, submit_call, revoke_call,
}

pub require-inv {ℓ κ} :
    {A : Type ℓ} {B : Type κ} (o : Option A) (r : Reply) (f : A → Result Reply B) {b : B}
    → (require o r >>= f) ≡ ok b
    → (a : A) × (o ≡ some a) × (f a ≡ ok b)
require-inv (some a) r f h = (a, refl, h)
require-inv none r f h = cc

pub or_refuse-inv {ℓ κ} :
    {A : Type ℓ} {B : Type κ} (m : Result Thrown A) (r : Thrown → Reply) (f : A → Result Reply B)
    {b : B}
    → (or_refuse m r >>= f) ≡ ok b
    → (a : A) × (m ≡ ok a) × (f a ≡ ok b)
or_refuse-inv (ok a) r f h = (a, refl, h)
or_refuse-inv (fail e) r f h = cc

guard-fail {ℓ} :
    {E : Type 0} {A : Type ℓ} (b : Bool) (e : E) (k : Result E A) {r : E}
    → (guard b e >> k) ≡ fail r
    → (e ≡ r) ⊎ (k ≡ fail r)
guard-fail true e k h = inr h
guard-fail false e k h = inl cc

require-fail {ℓ κ} :
    {A : Type ℓ} {B : Type κ} (o : Option A) (e : Reply) (f : A → Result Reply B) {r : Reply}
    → (require o e >>= f) ≡ fail r
    → (e ≡ r) ⊎ ((a : A) × (f a ≡ fail r))
require-fail (some a) e f h = inr (a, h)
require-fail none e f h = inl cc

or_refuse-fail {ℓ κ} :
    {A : Type ℓ} {B : Type κ} (m : Result Thrown A) (g : Thrown → Reply) (f : A → Result Reply B)
    {r : Reply}
    → (or_refuse m g >>= f) ≡ fail r
    → ((err : Thrown) × (g err ≡ r)) ⊎ ((a : A) × (f a ≡ fail r))
or_refuse-fail (ok a) g f h = inr (a, h)
or_refuse-fail (fail e) g f h = inl (e, cc)

-- The call that a body of `submit` or of `revoke` asks for, by its method.
abbrev pub petition_call :
    RelayerConfig → (ℕ → Text → Text → List Text → Method) → SubmitBody → Call
petition_call config method b = record {
  address = config.petition_registry;
  method = method (decimal_value 0 b.petition_id) b.nullifier b.proof (public_inputs b);
}

-- A body that parses, whose inputs name its petition, its nullifier and the live enrollment root,
-- and whose call passes the simulation.
pub record Authorizes (config : RelayerConfig) (clients : Clients)
    (method : ℕ → Text → Text → List Text → Method) (body : Body) (call : Call) : Type 0 where
  pub parsed : SubmitBody
  pub parses : parse_submit body ≡ some parsed
  pub petition : decimal (hex_to_bigint parsed.petition_input) ≡ parsed.petition_id
  pub nullifier : parsed.nullifier_input ≡ parsed.nullifier
  pub live : Text
  pub read : clients.read_root ≡ ok live
  pub root : lower parsed.root_input ≡ lower live
  pub asked : call ≡ petition_call config method parsed
  pub simulated : clients.simulate_contract call ≡ ok tt

-- The guards that the routes for a signature and for its withdrawal have in common, with any replies.
module _ (config : RelayerConfig) (clients : Clients)
    (method : ℕ → Text → Text → List Text → Method)
    (limited invalid other_petition other_nullifier : Reply) (unreachable : Thrown → Reply)
    (stale : Text → Text → Reply) (reverted : Thrown → Reply) where
  abbrev checked_call : Bool → Body → Result Reply Call
  checked_call granted body = do
    guard granted limited
    b ← require (parse_submit body) invalid
    guard (petition_matches b) other_petition
    guard (bytes_eq b.nullifier_input b.nullifier) other_nullifier
    live ← or_refuse clients.read_root unreachable
    guard (bytes_eq (lower b.root_input) (lower live)) (stale live b.root_input)
    or_refuse (clients.simulate_contract (petition_call config method b)) reverted
    ok (petition_call config method b)

  checked_call_sound :
      (granted : Bool) (body : Body) (call : Call)
      → checked_call granted body ≡ ok call
      → (granted ≡ true) × Authorizes config clients method body call
  checked_call_sound granted body call h =
      let (g, h₁) = guard-inv granted _ _ h in
      let (b, parses, h₂) = require-inv (parse_submit body) _ _ h₁ in
      let (p, h₃) = guard-inv (petition_matches b) _ _ h₂ in
      let (n, h₄) = guard-inv (bytes_eq b.nullifier_input b.nullifier) _ _ h₃ in
      let (live, read, h₅) = or_refuse-inv clients.read_root _ _ h₄ in
      let (r, h₆) = guard-inv (bytes_eq (lower b.root_input) (lower live)) _ _ h₅ in
      let (_, s, h₇) =
        or_refuse-inv (clients.simulate_contract (petition_call config method b)) _ _ h₆ in
      let asked = ok-injective h₇ in
      (
        g,
        record {
          parsed = b;
          parses = parses;
          petition = bytes_eq_sound _ _ p;
          nullifier = bytes_eq_sound _ _ n;
          live = live;
          read = read;
          root = bytes_eq_sound _ _ r;
          asked = sym asked;
          simulated = rw (sym asked) s;
        },
      )

  checked_call_complete :
      (granted : Bool) (body : Body) (call : Call)
      → granted ≡ true
      → Authorizes config clients method body call
      → checked_call granted body ≡ ok call
  checked_call_complete granted body call g a =
      let b = a.parsed in
      let petition : petition_matches b ≡ true = rw a.petition (bytes_eq_refl b.petition_id) in
      let nullifier : bytes_eq b.nullifier_input b.nullifier ≡ true =
        rw a.nullifier (bytes_eq_refl b.nullifier) in
      let root : bytes_eq (lower b.root_input) (lower a.live) ≡ true =
        rw a.root (bytes_eq_refl (lower a.live)) in
      let passed : clients.simulate_contract (petition_call config method b) ≡ ok tt =
        rw a.asked at a.simulated in
      rw (g, a.parses, petition, nullifier, a.read, root, passed) (ap ok (sym a.asked))

  checked_call_iff :
      (granted : Bool) (body : Body) (call : Call)
      → (checked_call granted body ≡ ok call)
        ↔ ((granted ≡ true) × Authorizes config clients method body call)
  checked_call_iff granted body call = (
    checked_call_sound granted body call,
    λ ga. checked_call_complete granted body call ga.0 ga.1,
  )

  -- A refusal is one of the seven replies.
  pub checked_call_refused :
      (P : Reply → Type 0) (granted : Bool) (body : Body) (r : Reply)
      → checked_call granted body ≡ fail r
      → P limited
      → P invalid
      → P other_petition
      → P other_nullifier
      → ((err : Thrown) → P (unreachable err))
      → ((live input : Text) → P (stale live input))
      → ((err : Thrown) → P (reverted err))
      → P r
  checked_call_refused P granted body r h p₁ p₂ p₃ p₄ p₅ p₆ p₇ = elim (guard-fail granted _ _ h) [
    | inl e ↦ rw (sym e) p₁
    | inr h₁ ↦ elim (require-fail (parse_submit body) _ _ h₁) [
      | inl e ↦ rw (sym e) p₂
      | inr (b, h₂) ↦ elim (guard-fail (petition_matches b) _ _ h₂) [
        | inl e ↦ rw (sym e) p₃
        | inr h₃ ↦ elim (guard-fail (bytes_eq b.nullifier_input b.nullifier) _ _ h₃) [
          | inl e ↦ rw (sym e) p₄
          | inr h₄ ↦ elim (or_refuse-fail clients.read_root _ _ h₄) [
            | inl (err, e) ↦ rw (sym e) (p₅ err)
            | inr (live, h₅) ↦
                elim (guard-fail (bytes_eq (lower b.root_input) (lower live)) _ _ h₅) [
                  | inl e ↦ rw (sym e) (p₆ live b.root_input)
                  | inr h₆ ↦
                      elim (or_refuse-fail
                        (clients.simulate_contract (petition_call config method b)) _ _ h₆) [
                          | inl (err, e) ↦ rw (sym e) (p₇ err)
                          | inr (_, h₇) ↦ cc
                        ]
                ]
          ]
        ]
      ]
    ]
  ]

module _ (selector_of : String → Text) (config : RelayerConfig) (clients : Clients) where
  pub submit_call_iff :
      (granted : Bool) (body : Body) (call : Call)
      → (submit_call selector_of config clients granted body ≡ ok call)
        ↔ ((granted ≡ true) × Authorizes config clients Method.sign_petition body call)
  unfolding submit_call
  submit_call_iff granted body call =
      checked_call_iff config clients Method.sign_petition _ _ _ _ _ _ _ granted body call

  pub revoke_call_iff :
      (granted : Bool) (body : Body) (call : Call)
      → (revoke_call selector_of config clients granted body ≡ ok call)
        ↔ ((granted ≡ true) × Authorizes config clients Method.revoke_vote body call)
  unfolding revoke_call
  revoke_call_iff granted body call =
      checked_call_iff config clients Method.revoke_vote _ _ _ _ _ _ _ granted body call

  pub submit_call_refused :
      (P : Reply → Type 0) (granted : Bool) (body : Body) (r : Reply)
      → submit_call selector_of config clients granted body ≡ fail r
      → ((code : ℕ) (payload : Payload) → 400 ≤ code → P (reply_with code payload))
      → P r
  unfolding submit_call
  submit_call_refused P granted body r h p =
      checked_call_refused config clients Method.sign_petition _ _ _ _ _ _ _ P granted body r h
        (p _ _ (omega arith)) (p _ _ (omega arith)) (p _ _ (omega arith)) (p _ _ (omega arith))
        (λ err. p _ _ (omega arith)) (λ live input. p _ _ (omega arith))
        (λ err. p _ _ (map_contract_error-IsFailure selector_of err).0)

  pub revoke_call_refused :
      (P : Reply → Type 0) (granted : Bool) (body : Body) (r : Reply)
      → revoke_call selector_of config clients granted body ≡ fail r
      → ((status : ℕ) (code : String) (detail : Option Text)
          → 400 ≤ status
          → P (reply_with status (Payload.revoke_failed code status detail)))
      → P r
  unfolding revoke_call
  revoke_call_refused P granted body r h p =
      checked_call_refused config clients Method.revoke_vote _ _ _ _ _ _ _ P granted body r h
        (p _ _ _ (omega arith)) (p _ _ _ (omega arith)) (p _ _ _ (omega arith))
        (p _ _ _ (omega arith)) (λ err. p _ _ _ (omega arith)) (λ live input. p _ _ _ (omega arith))
        (λ err. p _ _ _ (map_contract_error-IsFailure selector_of err).0)

-- What is delivered: the call of the guards, if they let one through.
pub deliver_sends :
    (m : Result Reply Call) (send : Call → Result Thrown Text) (s : Text → Reply)
    (f : Thrown → Reply) (call : Call)
    → ((deliver m send s f).1 ≡ call ∷ []) ↔ (m ≡ ok call)
deliver_sends (fail r) send s f call = (λ h. cc, λ h. cc)
deliver_sends (ok c) send s f call = (λ h. cc, λ h. cc)
