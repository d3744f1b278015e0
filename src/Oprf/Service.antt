-- ===== src/Oprf/Service.antt =====
-- packages/oprf/src/app.ts: the routes of the service, over the store and the in-memory tree.
-- A request runs to its end before the next one. Parameters are what is not in the repository or
-- not modelled: bb.js, SHA-256, base64, `parseP7s`, and what `blindEvaluate` answers.
pub mod Gates
pub mod Once
use crisp_qes.Common.{
  ℕ, ◌+◌, ◌-◌, ◌*◌, ◌/◌, Bool, true, false, not, ◌&&◌, ◌||◌, Option, none, some, List, [], ◌∷◌,
  ◌++◌, map, String, ltb, leb, ◌==◌, if◌then◌else◌, Result, ok, fail, ◌>>=◌, ◌>>◌, guard, length,
  take, drop, all,
}
use crisp_qes.Common.Text.{Text, is_digit, hex_of_length, hex_to_bigint}
use crisp_qes.Common.Text.Hex.{from_hex}
use crisp_qes.Pedersen.{be_value, pedersen_hash_fields}
use crisp_qes.MerkleIndex.{MerkleIndex, AppendResult, InclusionResult}
use crisp_qes.Oprf.Dob.{Date, age_in_years}
use crisp_qes.Oprf.Store
use crisp_qes.Oprf.Store.{Store, EnrolledRow}
use crisp_qes.Oprf.Attestation.{
  AttestationError, ParsedP7s, TrustedCa, VerifyAttestationOpts, VerifiedAttestation, Libraries,
  build_enrollment_binding_bytes, verify_attestation,
}

pub record OprfConfig : Type 0 where
  pub trust_roots : List TrustedCa
  pub signing_time_max_age_sec : ℕ
  pub enforce_payload_binding : Bool
  pub enrollment_epoch : Text
  pub age_threshold : ℕ
  pub max_blind_eval_per_rnokpp_per_epoch : ℕ
  pub replay_cache_ttl_sec : ℕ

pub record Clock : Type 0 where
  pub ms : ℕ
  pub today : Date

-- The strings of a request's body: none where a field is missing or is no string.
pub record BlindEvalRequest : Type 0 where
  pub blinded_input : Option Text
  pub p7s : Option Text

pub record RegisterRequest : Type 0 where
  pub commitment : Option Text
  pub blinded_input_used : Option Text
  pub unblinded_output : Option Text

pub record Evaluation : Type 0 where
  pub y : List ℕ
  pub proof : List ℕ

-- What `attester.sign` is given, but for the configured chain and registry.
pub record RootUpdate : Type 0 where
  pub old_root : ℕ
  pub new_root : ℕ
  pub new_commitments : List ℕ

pub data Payload : Type 0 where
  bad_request : Payload
  attestation_failed : (error : AttestationError) → Payload
  age_below_threshold : (min found : ℕ) → Payload
  replayed_attestation : Payload
  throttled : Payload
  bad_blinded_input : (message : String) → Payload
  evaluated : (y c s : List ℕ) (blinded_input : Text) → Payload
  commitment_mismatch : Payload
  already_enrolled : (commitment : Text) → Payload
  registered : (result : AppendResult) (signed : RootUpdate) (commitment : Text) → Payload
  not_enrolled : (commitment : Text) → Payload
  path_found : (result : InclusionResult) → Payload

pub record Reply : Type 0 where
  pub code : ℕ
  pub payload : Payload

abbrev pub reply_with : ℕ → Payload → Reply
reply_with code payload = record { code = code; payload = payload }

pub record State : Type 0 where
  pub store : Store
  pub merkle : MerkleIndex

abbrev pub with_store : State → Store → State
with_store st s = record { store = s; merkle = st.merkle }

abbrev pub hex32 : Text → Bool
hex32 = hex_of_length 64

-- `[A-Za-z0-9+/=]`
abbrev pub is_base64 : ℕ → Bool
is_base64 c =
    is_digit c
    || ((leb b'a' c && leb c b'z')
        || ((leb b'A' c && leb c b'Z') || ((c == b'+') || ((c == b'/') || (c == b'=')))))

abbrev pub base64 : Text → Bool
base64 t = leb 1 (length t) && all is_base64 t

abbrev pub string_field : (Text → Bool) → Option Text → Result Reply Text
string_field p (some t) = if p t then ok t else fail (reply_with 400 Payload.bad_request)
string_field p none = fail (reply_with 400 Payload.bad_request)

-- What the routes use of the libraries and of the modules that are not modelled.
pub record Services : Type 0 where
  pub bb : List (List ℕ) → ℕ → List ℕ
  pub sha256 : List ℕ → List ℕ
  pub base64_to_bytes : Text → List ℕ
  pub parse_p7s : List ℕ → Option ParsedP7s
  pub lib : Libraries
  pub blind_evaluate : List ℕ → Result String Evaluation

abbrev pub default_clock_skew_sec : ℕ
default_clock_skew_sec = 60

-- An `AttestationError` is answered 401.
abbrev pub or_unauthorized {ℓ} : {A : Type ℓ} → Result AttestationError A → Result Reply A
or_unauthorized (ok a) = ok a
or_unauthorized (fail e) = fail (reply_with 401 (Payload.attestation_failed e))

-- Without a birth date the gate is open.
unfoldable pub age_gate : ℕ → Option Date → Date → Result Reply (Unit {0})
age_gate threshold none today = ok tt
age_gate threshold (some dob) today =
    let age = age_in_years dob today in
    guard (not (ltb 0 threshold && ltb age threshold))
      (reply_with 403 (Payload.age_below_threshold threshold age))

-- `splitOprfOutput` and `secretFromOprfOutput`.
unfoldable pub commitment_from_oprf_output : (List (List ℕ) → ℕ → List ℕ) → List ℕ → Result String ℕ
commitment_from_oprf_output bb n =
    if length n == 32
    then pedersen_hash_fields bb (be_value 0 (take 16 n) ∷ be_value 0 (take 16 (drop 16 n)) ∷ []) 0
    else fail "splitOprfOutput: expected 32-byte OPRF output"

-- What the gates of an evaluation leave: the blinded input, the envelope and its subject.
pub record Admitted : Type 0 where
  pub blinded_input : Text
  pub p7s_bytes : List ℕ
  pub subject_serial : List ℕ

module _ (cfg : OprfConfig) (sv : Services) where
  abbrev pub expected_digest : Text → Result AttestationError (Option (List ℕ))
  expected_digest blinded_input =
      if cfg.enforce_payload_binding
      then (do
        bytes ← build_enrollment_binding_bytes cfg.enrollment_epoch blinded_input
        ok (some (sv.sha256 bytes)))
      else ok none

  abbrev pub attestation_opts : ℕ → Option (List ℕ) → VerifyAttestationOpts
  attestation_opts now digest = record {
    trust_roots = cfg.trust_roots;
    signing_time_max_age_sec = cfg.signing_time_max_age_sec;
    signing_time_clock_skew_sec = default_clock_skew_sec;
    now = now;
    expected_digest = digest;
  }

  -- The route `/oprf/blind-eval` up to the replay check: nothing is stored.
  unfoldable pub admit : Clock → BlindEvalRequest → Result Reply Admitted
  unfolding age_gate
  admit clock req = do
    blinded_input ← string_field hex32 req.blinded_input
    p7s ← string_field base64 req.p7s
    let p7s_bytes = sv.base64_to_bytes p7s
    digest ← or_unauthorized (expected_digest blinded_input)
    verified ←
        or_unauthorized
          (verify_attestation sv.lib (sv.parse_p7s p7s_bytes) (attestation_opts clock.ms digest))
    age_gate cfg.age_threshold verified.dob clock.today
    ok (record {
      blinded_input = blinded_input;
      p7s_bytes = p7s_bytes;
      subject_serial = verified.subject_serial;
    })

  -- Whether the counter of the subject is over the cap, and the store; a cap of 0 counts nothing.
  unfoldable pub throttle : Store → List ℕ → ℕ → Bool × Store
  throttle s subject_serial now_sec =
      if ltb 0 cfg.max_blind_eval_per_rnokpp_per_epoch
      then (let (row, s') = Store.increment_blind_eval_count s (sv.sha256 subject_serial) now_sec in
          (ltb cfg.max_blind_eval_per_rnokpp_per_epoch row.count, s'))
      else (false, s)

  abbrev pub answer : Text → Result String Evaluation → Reply
  answer blinded_input (fail e) = reply_with 400 (Payload.bad_blinded_input e)
  answer blinded_input (ok out) =
      reply_with 200
        (Payload.evaluated out.y (take 32 out.proof) (take 32 (drop 32 out.proof)) blinded_input)

  -- The rest of the route: the replay check, the throttle and the evaluation.
  unfoldable pub evaluate : Store → Clock → Admitted → Reply × Store
  unfolding throttle
  evaluate s clock a =
      let now_sec = clock.ms / 1000 in
      let (fresh, s') = Store.record_p7s_hash_if_fresh s (sv.sha256 a.p7s_bytes) now_sec in
      if fresh
      then (let (over, s'') = throttle s' a.subject_serial now_sec in
          if over
          then (reply_with 429 Payload.throttled, s'')
          else (answer a.blinded_input (sv.blind_evaluate (from_hex a.blinded_input)), s''))
      else (reply_with 409 Payload.replayed_attestation, s')

  abbrev pub evaluate_admitted : Store → Clock → Result Reply Admitted → Reply × Store
  evaluate_admitted s clock (fail r) = (r, s)
  evaluate_admitted s clock (ok a) = evaluate s clock a

  -- `POST /oprf/blind-eval`
  unfoldable pub blind_eval : Store → Clock → BlindEvalRequest → Reply × Store
  unfolding admit evaluate
  blind_eval s clock req = evaluate_admitted s clock (admit clock req)

  -- A round of the cleanup timer.
  unfoldable pub cleanup : Store → ℕ → Store
  cleanup s ms =
      let cutoff = ms / 1000 - cfg.replay_cache_ttl_sec in
      (Store.prune_blind_eval_counts (Store.prune_p7s_replay_cache s cutoff).1 cutoff).1
