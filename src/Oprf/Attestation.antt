-- ===== src/Oprf/Attestation.antt =====
-- packages/oprf/src/attestation.ts: the checks on a signed envelope, and what the citizen signs.
-- The envelope is what `parseP7s` made of it. `p256.verify` of @noble/curves, the issuer's name and
-- the birth date attribute that pkijs reads from a certificate are parameters. Times are
-- milliseconds; texts that are encoded are ASCII.
pub mod Binding
pub mod Sound
use crisp_qes.Common.{
  ℕ, ◌+◌, ◌*◌, Bool, true, false, not, ◌&&◌, ◌||◌, Option, none, some, List, [], ◌∷◌, ◌++◌, String,
  ltb, ◌==◌, if◌then◌else◌, Result, ok, fail, ◌>>=◌, ◌>>◌, guard, length, take, drop, any, all,
  find, bytes_eq, leb,
}
use crisp_qes.Common.Text.{Text, codes, is_lower_hex}
use crisp_qes.Pedersen.{be_bytes}
use crisp_qes.Oprf.Dob.{Date, parse_dob_string}

-- `AttestationError.code`
pub data AttestationError : Type 0 where
  p7s_parse_failed : AttestationError
  not_diia : AttestationError
  signature_invalid : AttestationError
  chain_invalid : AttestationError
  missing_signing_time : AttestationError
  stale : AttestationError
  payload_mismatch : AttestationError

pub record Pair : Type 0 where
  pub first : ℕ
  pub second : ℕ

-- The certificate between the leaf and the trust set: its key and its SPKI.
pub record Intermediate : Type 0 where
  pub pubkey : Pair
  pub spki_der : List ℕ

pub record ParsedP7s : Type 0 where
  pub subject_serial : List ℕ
  pub pubkey : Pair
  pub signature : Pair
  pub signed_attrs_sha256 : List ℕ
  pub message_digest : List ℕ
  pub signing_time : Option ℕ
  pub leaf_cert_der : List ℕ
  pub leaf_tbs_bytes : List ℕ
  pub leaf_cert_signature : Pair
  pub intermediate : Option Intermediate

pub record TrustedCa : Type 0 where
  pub spki_der : List ℕ
  pub subject_der : List ℕ
  pub pubkey : Pair
  pub common_name : Text

pub record VerifyAttestationOpts : Type 0 where
  pub trust_roots : List TrustedCa
  pub signing_time_max_age_sec : ℕ
  pub signing_time_clock_skew_sec : ℕ
  pub now : ℕ
  pub expected_digest : Option (List ℕ)

pub record VerifiedAttestation : Type 0 where
  pub subject_serial : List ℕ
  pub dob : Option Date
  pub signing_time : Option ℕ
  pub chain_anchor : Option Text

-- `TINUA-`
abbrev pub tinua_prefix : List ℕ
tinua_prefix = codes "TINUA-"

-- `/^0x[0-9a-f]{64}$/`
abbrev pub is_blinded_hex : Text → Bool
is_blinded_hex t =
    bytes_eq (take 2 t) (codes "0x") && ((length (drop 2 t) == 64) && all is_lower_hex (drop 2 t))

-- `/["\\]/`
abbrev pub is_quote_or_backslash : ℕ → Bool
is_quote_or_backslash c = (c == 34) || (c == 92)

abbrev pub binding_bytes : Text → Text → List ℕ
binding_bytes epoch blinded_input =
    codes "{\"intent\":\"crisp-qes-enroll-v2\",\"epoch\":\""
    ++ (epoch ++ (codes "\",\"blindedInput\":\"" ++ (blinded_input ++ codes "\"}")))

unfoldable pub build_enrollment_binding_bytes : Text → Text → Result AttestationError (List ℕ)
build_enrollment_binding_bytes epoch blinded_input = do
  guard (is_blinded_hex blinded_input) AttestationError.payload_mismatch
  guard (not ((length epoch == 0) || any is_quote_or_backslash epoch))
      AttestationError.payload_mismatch
  ok (binding_bytes epoch blinded_input)

abbrev pub uncompressed_p256 : Pair → List ℕ
uncompressed_p256 pubkey = 4 ∷ be_bytes 32 pubkey.first (be_bytes 32 pubkey.second [])

-- The compact form of a signature.
abbrev pub compact_sig : Pair → List ℕ
compact_sig sig = be_bytes 32 sig.first (be_bytes 32 sig.second [])

-- `deltaSec` of the source is (now − signingTime) / 1000, and may be negative.
unfoldable pub verify_signing_time_freshness :
    Option ℕ → ℕ → ℕ → ℕ → Result AttestationError (Unit {0})
verify_signing_time_freshness none max_age_sec clock_skew_sec now =
    fail AttestationError.missing_signing_time
verify_signing_time_freshness (some signing_time) max_age_sec clock_skew_sec now = do
  guard (not (ltb (signing_time + max_age_sec * 1000) now)) AttestationError.stale
  guard (not (ltb (now + clock_skew_sec * 1000) signing_time)) AttestationError.stale
  ok tt

abbrev pub found_or {ℓ} : {A : Type ℓ} → Option A → AttestationError → Result AttestationError A
found_or (some a) e = ok a
found_or none e = fail e

-- What the check uses of the libraries.
pub record Libraries : Type 0 where
  pub p256_verify : (sig message pubkey : List ℕ) (prehash : Bool) → Bool
  pub issuer_der : List ℕ → List ℕ
  pub dob_attribute : List ℕ → Option Text

module _ (lib : Libraries) where
  abbrev pub verify_leaf_signature : ParsedP7s → Result AttestationError (Unit {0})
  verify_leaf_signature parsed =
      guard
        (lib.p256_verify (compact_sig parsed.signature) parsed.signed_attrs_sha256
          (uncompressed_p256 parsed.pubkey) false)
        AttestationError.signature_invalid

  abbrev pub verify_cert_signature : List ℕ → Pair → Pair → Result AttestationError (Unit {0})
  verify_cert_signature tbs_bytes sig pubkey =
      guard (lib.p256_verify (compact_sig sig) tbs_bytes (uncompressed_p256 pubkey) true)
        AttestationError.chain_invalid

  abbrev pub verify_chain_from :
      ParsedP7s → List TrustedCa → Option Intermediate → Result AttestationError Text
  verify_chain_from parsed trust_roots (some inter) = do
    anchor ←
        found_or (find (λ (t : TrustedCa). bytes_eq t.spki_der inter.spki_der) trust_roots)
          AttestationError.chain_invalid
    verify_cert_signature parsed.leaf_tbs_bytes parsed.leaf_cert_signature inter.pubkey
    ok anchor.common_name
  verify_chain_from parsed trust_roots none = do
    anchor ←
        found_or
          (find (λ (t : TrustedCa). bytes_eq t.subject_der (lib.issuer_der parsed.leaf_cert_der))
            trust_roots)
          AttestationError.chain_invalid
    verify_cert_signature parsed.leaf_tbs_bytes parsed.leaf_cert_signature anchor.pubkey
    ok anchor.common_name

  unfoldable pub verify_chain : ParsedP7s → List TrustedCa → Result AttestationError Text
  verify_chain parsed trust_roots = verify_chain_from parsed trust_roots parsed.intermediate

  -- Without trust roots the chain is not looked at.
  unfoldable pub chain_anchor_of :
      ParsedP7s → List TrustedCa → Result AttestationError (Option Text)
  unfolding verify_chain
  chain_anchor_of parsed [] = ok none
  chain_anchor_of parsed (root ∷ roots) = do
    name ← verify_chain parsed (root ∷ roots)
    ok (some name)

  -- A maximum age of 0 switches the check off.
  unfoldable pub check_freshness :
      ParsedP7s → VerifyAttestationOpts → Result AttestationError (Unit {0})
  unfolding verify_signing_time_freshness
  check_freshness parsed opts =
      if ltb 0 opts.signing_time_max_age_sec
      then verify_signing_time_freshness parsed.signing_time opts.signing_time_max_age_sec
          opts.signing_time_clock_skew_sec opts.now
      else ok tt

  unfoldable pub check_digest : ParsedP7s → Option (List ℕ) → Result AttestationError (Unit {0})
  check_digest parsed none = ok tt
  check_digest parsed (some digest) = do
    guard (length digest == 32) AttestationError.payload_mismatch
    guard (bytes_eq parsed.message_digest digest) AttestationError.payload_mismatch
    ok tt

  -- `extractDOB`, from the attribute's text.
  unfoldable pub extract_dob : List ℕ → Option Date
  extract_dob leaf_cert_der = elim (lib.dob_attribute leaf_cert_der) [
    | none ↦ none
    | some raw ↦ if ltb (length raw) 8 then none else parse_dob_string raw
  ]

  unfoldable pub verify_attestation :
      Option ParsedP7s → VerifyAttestationOpts → Result AttestationError VerifiedAttestation
  unfolding chain_anchor_of check_freshness check_digest extract_dob
  verify_attestation parse opts = do
    parsed ← found_or parse AttestationError.p7s_parse_failed
    guard
        (leb (length tinua_prefix) (length parsed.subject_serial)
          && bytes_eq (take (length tinua_prefix) parsed.subject_serial) tinua_prefix)
        AttestationError.not_diia
    verify_leaf_signature parsed
    chain_anchor ← chain_anchor_of parsed opts.trust_roots
    check_freshness parsed opts
    check_digest parsed opts.expected_digest
    ok (record {
      subject_serial = parsed.subject_serial;
      dob = extract_dob parsed.leaf_cert_der;
      signing_time = parsed.signing_time;
      chain_anchor = chain_anchor;
    })
