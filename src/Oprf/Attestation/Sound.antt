-- ===== src/Oprf/Attestation/Sound.antt =====
-- What an accepted envelope has been checked for.
use crisp_qes.Common.{
  ℕ, suc, ◌+◌, ◌*◌, ◌≤◌, ◌≡◌, refl, sym, ap, ◌∙◌, ◌⊎◌, inl, inr, Bool, true, false, not, ◌&&◌,
  Option, none, some, List, [], ◌∷◌, Result, ok, ◌>>=◌, guard-inv, >>=-eq-ok, ltb, leb, ◌==◌,
  length, take, find, get_elem?, bytes_eq, bytes_eq_sound, arith, ok-injective, Bool-cases,
  and_true,
}
use crisp_qes.Common.Text.{Text}
use crisp_qes.Oprf.Attestation.{
  AttestationError, Pair, Intermediate, ParsedP7s, TrustedCa, VerifyAttestationOpts,
  VerifiedAttestation, Libraries, tinua_prefix, uncompressed_p256, compact_sig,
  verify_signing_time_freshness, found_or, verify_chain_from, verify_chain, chain_anchor_of,
  check_freshness, check_digest, extract_dob, verify_attestation,
}

found_or-inv {ℓ κ} :
    {A : Type ℓ} {B : Type κ} (o : Option A) (e : AttestationError)
    (f : A → Result AttestationError B) {b : B}
    → (found_or o e >>= f) ≡ ok b
    → (a : A) × (o ≡ some a) × (f a ≡ ok b)
found_or-inv (some a) e f h = (a, refl, h)
found_or-inv none e f h = cc

find-get_elem? {ℓ} :
    {A : Type ℓ} (p : A → Bool) (xs : List A) (a : A)
    → find p xs ≡ some a
    → (i : ℕ) × (get_elem? xs i ≡ some a) × (p a ≡ true)
find-get_elem? p [] a h = cc
find-get_elem? p (x ∷ xs) a h = elim (Bool-cases (p x)) [
  | inl here ↦
      let e : some x ≡ some a = rw here at h in let same : x ≡ a = cc in (0, e, rw (sym same) here)
  | inr there ↦ let (i, at, pa) = find-get_elem? p xs a (rw there at h) in (suc i, at, pa)
]

-- Not older than the maximum age, nor further in the future than the tolerated skew.
abbrev pub IsFresh : VerifyAttestationOpts → Option ℕ → Type 0
IsFresh opts signing_time =
    (opts.signing_time_max_age_sec ≡ 0)
    ⊎ ((t : ℕ) × (signing_time ≡ some t)
        × (opts.now ≤ t + opts.signing_time_max_age_sec * 1000)
        × (t ≤ opts.now + opts.signing_time_clock_skew_sec * 1000))

verify_signing_time_freshness_inv :
    (signing_time : Option ℕ) (age skew now : ℕ) {u : Unit {0}}
    → verify_signing_time_freshness signing_time age skew now ≡ ok u
    → (t : ℕ) × (signing_time ≡ some t) × (now ≤ t + age * 1000) × (t ≤ now + skew * 1000)
unfolding verify_signing_time_freshness
verify_signing_time_freshness_inv none age skew now h = cc
verify_signing_time_freshness_inv (some t) age skew now h =
    let (young, h₁) = guard-inv (not (ltb (t + age * 1000) now)) _ _ h in
    let (past, _) = guard-inv (not (ltb (now + skew * 1000) t)) _ _ h₁ in
    (t, refl, ground arith, ground arith)

module _ (lib : Libraries) where
  -- The leaf certificate is signed by `key`.
  abbrev pub IsSignedBy : Pair → ParsedP7s → Type 0
  IsSignedBy key parsed =
      lib.p256_verify (compact_sig parsed.leaf_cert_signature) parsed.leaf_tbs_bytes
        (uncompressed_p256 key) true
      ≡ true

  -- The leaf is signed by an intermediate whose SPKI is that of a trusted authority, or, where the
  -- envelope has no intermediate, by a trusted authority that has the name of its issuer.
  abbrev pub IsChained : ParsedP7s → TrustedCa → Option Intermediate → Type 0
  IsChained parsed anchor (some inter) =
      (anchor.spki_der ≡ inter.spki_der) × IsSignedBy inter.pubkey parsed
  IsChained parsed anchor none =
      (anchor.subject_der ≡ lib.issuer_der parsed.leaf_cert_der) × IsSignedBy anchor.pubkey parsed

  verify_chain_from-IsChained :
      (parsed : ParsedP7s) (roots : List TrustedCa) (o : Option Intermediate) (name : Text)
      → verify_chain_from lib parsed roots o ≡ ok name
      → (i : ℕ) × (anchor : TrustedCa) × (get_elem? roots i ≡ some anchor)
        × IsChained parsed anchor o
        × (anchor.common_name ≡ name)
  verify_chain_from-IsChained parsed roots (some inter) name h =
      let (anchor, found, h₁) =
        found_or-inv (find (λ (t : TrustedCa). bytes_eq t.spki_der inter.spki_der) roots) _ _ h in
      let (signed, h₂) =
        guard-inv
          (lib.p256_verify (compact_sig parsed.leaf_cert_signature) parsed.leaf_tbs_bytes
            (uncompressed_p256 inter.pubkey) true)
          _ _ h₁ in
      let (i, at, same) = find-get_elem? _ roots anchor found in
      (i, anchor, at, (bytes_eq_sound _ _ same, signed), ok-injective h₂)
  verify_chain_from-IsChained parsed roots none name h =
      let (anchor, found, h₁) =
        found_or-inv
          (find (λ (t : TrustedCa). bytes_eq t.subject_der (lib.issuer_der parsed.leaf_cert_der))
            roots)
          _ _ h in
      let (signed, h₂) =
        guard-inv
          (lib.p256_verify (compact_sig parsed.leaf_cert_signature) parsed.leaf_tbs_bytes
            (uncompressed_p256 anchor.pubkey) true)
          _ _ h₁ in
      let (i, at, same) = find-get_elem? _ roots anchor found in
      (i, anchor, at, (bytes_eq_sound _ _ same, signed), ok-injective h₂)

  -- With trust roots, the chain ends at one of them.
  abbrev pub IsAnchored : ParsedP7s → List TrustedCa → Option Text → Type 0
  IsAnchored parsed [] name = Unit
  IsAnchored parsed (root ∷ roots) name =
      (i : ℕ) × (anchor : TrustedCa) × (get_elem? (root ∷ roots) i ≡ some anchor)
      × IsChained parsed anchor parsed.intermediate
      × (name ≡ some anchor.common_name)

  chain_anchor_of-IsAnchored :
      (parsed : ParsedP7s) (roots : List TrustedCa) (name : Option Text)
      → chain_anchor_of lib parsed roots ≡ ok name
      → IsAnchored parsed roots name
  unfolding chain_anchor_of verify_chain
  chain_anchor_of-IsAnchored parsed [] name h = tt
  chain_anchor_of-IsAnchored parsed (root ∷ roots) name h =
      let (n, found, h₁) =
        >>=-eq-ok (verify_chain_from lib parsed (root ∷ roots) parsed.intermediate) _ h in
      let (i, anchor, at, chained, named) =
        verify_chain_from-IsChained parsed (root ∷ roots) parsed.intermediate n found in
      (i, anchor, at, chained, sym (ok-injective h₁) ∙ ap some (sym named))

  check_freshness-IsFresh :
      (parsed : ParsedP7s) (opts : VerifyAttestationOpts) {u : Unit {0}}
      → check_freshness lib parsed opts ≡ ok u
      → IsFresh opts parsed.signing_time
  unfolding check_freshness
  check_freshness-IsFresh parsed opts h = elim (Bool-cases (ltb 0 opts.signing_time_max_age_sec)) [
    | inr off ↦ inl (ground arith)
    | inl on ↦ inr (verify_signing_time_freshness_inv _ _ _ _ (rw on at h))
  ]

  -- The message digest is the expected one, where one is expected.
  abbrev pub IsBound : ParsedP7s → Option (List ℕ) → Type 0
  IsBound parsed none = Unit
  IsBound parsed (some digest) = (length digest ≡ 32) × (parsed.message_digest ≡ digest)

  check_digest-IsBound :
      (parsed : ParsedP7s) (o : Option (List ℕ)) {u : Unit {0}}
      → check_digest lib parsed o ≡ ok u
      → IsBound parsed o
  unfolding check_digest
  check_digest-IsBound parsed none h = tt
  check_digest-IsBound parsed (some digest) h =
      let (size, h₁) = guard-inv (length digest == 32) _ _ h in
      let (same, _) = guard-inv (bytes_eq parsed.message_digest digest) _ _ h₁ in
      (ground arith, bytes_eq_sound _ _ same)

  -- What an accepted envelope has been checked for.
  pub record IsVerified (parsed : ParsedP7s) (opts : VerifyAttestationOpts)
      (v : VerifiedAttestation) : Type 0 where
    pub diia : take (length tinua_prefix) parsed.subject_serial ≡ tinua_prefix
    pub signed :
        lib.p256_verify
          (compact_sig parsed.signature)
          parsed.signed_attrs_sha256
          (uncompressed_p256 parsed.pubkey)
          false
        ≡ true
    pub anchored : IsAnchored parsed opts.trust_roots v.chain_anchor
    pub fresh : IsFresh opts parsed.signing_time
    pub bound : IsBound parsed opts.expected_digest
    pub subject : v.subject_serial ≡ parsed.subject_serial
    pub born : v.dob ≡ extract_dob lib parsed.leaf_cert_der

  -- An envelope that `verifyAttestation` accepts is parsed, names a Diia subject, carries a valid
  -- signature over its attributes, is chained to a trusted authority where there are any, is fresh
  -- where a maximum age is set, and is bound to the expected digest where one is given; the subject
  -- and the birth date that are returned are those of its leaf certificate.
  pub verify_attestation-IsVerified :
      (parse : Option ParsedP7s) (opts : VerifyAttestationOpts) (v : VerifiedAttestation)
      → verify_attestation lib parse opts ≡ ok v
      → (parsed : ParsedP7s) × (parse ≡ some parsed) × IsVerified parsed opts v
  unfolding verify_attestation
  verify_attestation-IsVerified parse opts v h =
      let (parsed, parses, h₁) = found_or-inv parse _ _ h in
      let (diia, h₂) =
        guard-inv
          (leb (length tinua_prefix) (length parsed.subject_serial)
            && bytes_eq (take (length tinua_prefix) parsed.subject_serial) tinua_prefix)
          _ _ h₁ in
      let (signed, h₃) =
        guard-inv
          (lib.p256_verify (compact_sig parsed.signature) parsed.signed_attrs_sha256
            (uncompressed_p256 parsed.pubkey) false)
          _ _ h₂ in
      let (anchor, chained, h₄) = >>=-eq-ok (chain_anchor_of lib parsed opts.trust_roots) _ h₃ in
      let (_, fresh, h₅) = >>=-eq-ok (check_freshness lib parsed opts) _ h₄ in
      let (_, bound, h₆) = >>=-eq-ok (check_digest lib parsed opts.expected_digest) _ h₅ in
      let e = ok-injective h₆ in
      (
        parsed,
        parses,
        record {
          diia = bytes_eq_sound _ _ (and_true _ _ diia).1;
          signed = signed;
          anchored =
              rw (ap (λ (w : VerifiedAttestation). w.chain_anchor) (sym e))
                (chain_anchor_of-IsAnchored parsed opts.trust_roots anchor chained);
          fresh = check_freshness-IsFresh parsed opts fresh;
          bound = check_digest-IsBound parsed opts.expected_digest bound;
          subject = ap (λ (w : VerifiedAttestation). w.subject_serial) (sym e);
          born = ap (λ (w : VerifiedAttestation). w.dob) (sym e);
        },
      )
