-- ===== src/Tests/Evaluations.antt =====
-- The gates of an evaluation, its proof and the dates of birth at concrete inputs.
use crisp_qes.Common.{
  ◌≤◌, ◌≡◌, ◌↔◌, refl, true, none, some, [], ◌∷◌, ◌++◌, Result, ok, fail, length, replicate, ◌==◌,
  arith,
}
use crisp_qes.Common.Text.{Text, codes, decimal_value}
use crisp_qes.Pedersen.{be_bytes}
use crisp_qes.Oprf.Dob.{
  Date, age_in_years, parse_dob_string, checked_date, date_utc, days_in_month, starts_with_8_digits,
  number_at,
}
use crisp_qes.Oprf.Dob.Age.{HasReached, age_in_years-HasReached}
use crisp_qes.Oprf.Dob.Parsing.{IsAccepted, parse_dob_string_iff}
use crisp_qes.Oprf.Store.{
  empty_store, record_p7s_hash_if_fresh, increment_blind_eval_count, upsert_count,
}
use crisp_qes.Oprf.Store.Replay.{Steps}
use crisp_qes.Oprf.Attestation.{
  ParsedP7s, VerifyAttestationOpts, VerifiedAttestation, Libraries, build_enrollment_binding_bytes,
  binding_bytes, verify_attestation, chain_anchor_of, verify_chain, verify_signing_time_freshness,
  check_freshness, check_digest, extract_dob,
}
use crisp_qes.Oprf.Attestation.Binding.{build_enrollment_binding_bytes-injective}
use crisp_qes.Oprf.Attestation.Sound.{IsVerified, verify_attestation-IsVerified}
use crisp_qes.Oprf.Service.{
  OprfConfig, Clock, BlindEvalRequest, Payload, reply_with, Services, Admitted, age_gate, admit,
  throttle, evaluate, blind_eval,
}
use crisp_qes.Oprf.Service.Gates.{IsAdmitted}
use crisp_qes.Oprf.Service.Once.{IsEvaluated, blind_eval-IsEvaluated, blind_eval_once}

abbrev born : Date
born = record { year = 2008; month = 5; day = 30 }

abbrev today : Date
today = record { year = 2026; month = 5; day = 30 }

age_in_years-HasReached_example : (18 ≤ age_in_years born today) ↔ HasReached 18 born today
age_in_years-HasReached_example = age_in_years-HasReached 18 born today (omega arith)

parse_dob_string_iff_example : (parse_dob_string (codes "20080530-01234") ≡ some born) ↔ (
    (starts_with_8_digits (codes "20080530-01234") ≡ true)
    × (record {
      year = number_at (codes "20080530-01234") 0 4;
      month = number_at (codes "20080530-01234") 4 6;
      day = number_at (codes "20080530-01234") 6 8;
    }
        ≡ born)
    × IsAccepted born)
parse_dob_string_iff_example = parse_dob_string_iff (codes "20080530-01234") born

abbrev blinded : Text
blinded = codes "0x" ++ replicate 64 b'a'

abbrev epoch : Text
epoch = codes "2026-05"

build_enrollment_binding_bytes-injective_example : (epoch ≡ epoch) × (blinded ≡ blinded)
unfolding build_enrollment_binding_bytes
build_enrollment_binding_bytes-injective_example =
    build_enrollment_binding_bytes-injective epoch epoch blinded blinded
      (binding_bytes epoch blinded) refl refl

abbrev parsed : ParsedP7s
parsed = record {
  subject_serial = codes "TINUA-1234567890";
  pubkey = record { first = 1; second = 2 };
  signature = record { first = 3; second = 4 };
  signed_attrs_sha256 = 5 ∷ [];
  message_digest = replicate 32 7;
  signing_time = some 1700000000000;
  leaf_cert_der = 6 ∷ [];
  leaf_tbs_bytes = 8 ∷ [];
  leaf_cert_signature = record { first = 9; second = 10 };
  intermediate = none;
}

abbrev lib : Libraries
lib = record {
  p256_verify = λ sig message pubkey prehash. length sig == 64;
  issuer_der = λ der. der;
  dob_attribute = λ der. some (codes "20080530-01234");
}

abbrev opts : VerifyAttestationOpts
opts = record {
  trust_roots =
      record {
        spki_der = 11 ∷ [];
        subject_der = 6 ∷ [];
        pubkey = record { first = 12; second = 13 };
        common_name = codes "CA";
      }
      ∷ [];
  signing_time_max_age_sec = 600;
  signing_time_clock_skew_sec = 60;
  now = 1700000100000;
  expected_digest = some (replicate 32 7);
}

abbrev unverified : VerifiedAttestation
unverified = record { subject_serial = []; dob = none; signing_time = none; chain_anchor = none }

abbrev value_or {ℓ} : {E : Type 0} {A : Type ℓ} → A → Result E A → A
value_or a (ok b) = b
value_or a (fail e) = a

verify_attestation-IsVerified_example :
    (p : ParsedP7s) × (some parsed ≡ some p)
    × IsVerified lib p opts (value_or unverified (verify_attestation lib (some parsed) opts))
unfolding verify_attestation chain_anchor_of verify_chain check_freshness
    verify_signing_time_freshness check_digest extract_dob be_bytes
verify_attestation-IsVerified_example =
    verify_attestation-IsVerified lib (some parsed) opts
      (value_or unverified (verify_attestation lib (some parsed) opts)) refl

abbrev cfg : OprfConfig
cfg = record {
  trust_roots = opts.trust_roots;
  signing_time_max_age_sec = 600;
  enforce_payload_binding = true;
  enrollment_epoch = epoch;
  age_threshold = 18;
  max_blind_eval_per_rnokpp_per_epoch = 3;
  replay_cache_ttl_sec = 86400;
}

abbrev services : Services
services = record {
  bb = λ buffers i. [];
  sha256 = λ bytes. replicate 32 7;
  base64_to_bytes = λ t. t;
  parse_p7s = λ bytes. some parsed;
  lib = lib;
  blind_evaluate = λ m. ok (record { y = m; proof = m ++ m });
}

abbrev clock : Clock
clock = record { ms = 1700000100000; today = today }

abbrev request : BlindEvalRequest
request = record { blinded_input = some blinded; p7s = some (codes "QUJD") }

abbrev admitted : Admitted
admitted = record {
  blinded_input = blinded;
  p7s_bytes = codes "QUJD";
  subject_serial = codes "TINUA-1234567890";
}

admitted-admit : admit cfg services clock request ≡ ok admitted
unfolding admit age_gate age_in_years parse_dob_string checked_date date_utc days_in_month
    decimal_value build_enrollment_binding_bytes verify_attestation chain_anchor_of verify_chain
    check_freshness verify_signing_time_freshness check_digest extract_dob be_bytes
admitted-admit = refl

blind_eval-IsEvaluated_example :
    (a : Admitted) × IsAdmitted cfg services clock request a
    × IsEvaluated cfg services empty_store clock a
        (blind_eval cfg services empty_store clock request).0
unfolding blind_eval evaluate throttle record_p7s_hash_if_fresh increment_blind_eval_count
    upsert_count admit age_gate age_in_years parse_dob_string checked_date date_utc days_in_month
    decimal_value build_enrollment_binding_bytes verify_attestation chain_anchor_of verify_chain
    check_freshness verify_signing_time_freshness check_digest extract_dob be_bytes
blind_eval-IsEvaluated_example = blind_eval-IsEvaluated cfg services empty_store clock request refl

abbrev later : Clock
later = record { ms = 1700000200000; today = today }

later-admit : admit cfg services later request ≡ ok admitted
unfolding admit age_gate age_in_years parse_dob_string checked_date date_utc days_in_month
    decimal_value build_enrollment_binding_bytes verify_attestation chain_anchor_of verify_chain
    check_freshness verify_signing_time_freshness check_digest extract_dob be_bytes
later-admit = refl

blind_eval_once_example :
    blind_eval cfg services (blind_eval cfg services empty_store clock request).1 later request ≡ (
      reply_with 409 Payload.replayed_attestation,
      (blind_eval cfg services empty_store clock request).1,
    )
unfolding record_p7s_hash_if_fresh
blind_eval_once_example =
    blind_eval_once cfg services empty_store (blind_eval cfg services empty_store clock request).1
      clock later request request admitted admitted admitted-admit refl (Steps.done _) later-admit
      refl
