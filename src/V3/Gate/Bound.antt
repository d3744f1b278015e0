-- ===== src/V3/Gate/Bound.antt =====
-- What an accepted proof is bound to: the words that the verifier saw.
use native.Mathlib.Nat.{zero-add}
use crisp_qes.Common.{
  ℕ, ◌+◌, ◌^◌, ◌<◌, ◌≡◌, refl, sym, ap, ◌∙◌, ◌↔◌, Bool, true, false, some, List, [], ◌∷◌, ◌==◌,
  Result, ok, fail, ◌>>=◌, guard, guard-inv, >>=-eq-ok, ok-injective, length, get_elem?, arith,
  ==_iff, ltb, ltb→lt, Bool-cases, inl, inr, String,
}
use crisp_qes.Common.Text.{Text, hex_value, hex_to_bigint}
use crisp_qes.Common.Text.Hex.{bigint_to_hex32, hex_digits}
use crisp_qes.V3.Words.{
  Word, ProofField, Affine, proof_to_bytes, normalize_public_inputs, to_big, affine_at,
  extract_m_from_public_inputs,
}
use crisp_qes.V3.Words.Canonical.{hex_value-hex_digits, normalize_public_inputs-to_big}
use crisp_qes.V3.Gate.{
  Gate, GateCode, Parsed, parse, or_refuse, same_point, run_verifier, verify_enroll_commit_proof,
}

-- The text at `i` is the 32-byte spelling of `v`.
abbrev pub SpelledAt : List Text → ℕ → ℕ → Type 0
SpelledAt texts i v = (t : Text) × (get_elem? texts i ≡ some t) × (bigint_to_hex32 v ≡ ok t)

pub bigint_to_hex32_inv : (v : ℕ) (t : Text) → bigint_to_hex32 v ≡ ok t → hex_to_bigint t ≡ v
unfolding bigint_to_hex32 hex_value
bigint_to_hex32_inv v t = elim (Bool-cases (ltb v (16 ^ 64))) [
  | inl fits ↦ rw fits λ h.
      let e : 48 ∷ 120 ∷ hex_digits 64 v [] ≡ t = ok-injective h in
      let read : hex_value 0 (hex_digits 64 v []) ≡ v =
        hex_value-hex_digits 64 0 v [] (ltb→lt v (16 ^ 64) fits) ∙ zero-add v in
      sym (ap hex_to_bigint e) ∙ read
  | inr wide ↦ rw wide λ h. cc
]

-- A value is read from a word exactly if the verifier's text there is its spelling.
pub to_big-SpelledAt :
    (words : List Word) (texts : List Text) (i v : ℕ)
    → normalize_public_inputs words ≡ ok texts
    → i < length words
    → (to_big words i ≡ ok v) ↔ SpelledAt texts i v
to_big-SpelledAt words texts i v h lt =
    let (u, t, read, at, spelled) = (normalize_public_inputs-to_big words texts h).1 i lt in
    (
      λ e. let same : u ≡ v = ok-injective (sym read ∙ e) in (t, at, rw same at spelled),
      λ (t', at', spelled').
          let e : t ≡ t' = cc in
          let same : v ≡ u =
            sym (bigint_to_hex32_inv v t' spelled')
            ∙ ap hex_to_bigint (sym e)
            ∙ bigint_to_hex32_inv u t spelled in
          rw same read,
    )

pub affine_at-SpelledAt :
    (words : List Word) (texts : List Text) (i : ℕ) (a : Affine)
    → normalize_public_inputs words ≡ ok texts
    → i + 1 < length words
    → (affine_at words i ≡ ok a) ↔ (SpelledAt texts i a.x × SpelledAt texts (i + 1) a.y)
unfolding affine_at
affine_at-SpelledAt words texts i a h lt =
    let (to_x, from_x) = to_big-SpelledAt words texts i a.x h (omega (arith, lt)) in
    let (to_y, from_y) = to_big-SpelledAt words texts (i + 1) a.y h lt in
    (
      λ e.
          let (x, read_x, e') = >>=-eq-ok (to_big words i) _ e in
          let (y, read_y, same) = >>=-eq-ok (to_big words (i + 1)) _ e' in
          let point : ◌≡◌ {A = Affine} (record { x = x; y = y }) a = ok-injective same in
          let is_x : x ≡ a.x = ap (λ (p : Affine). p.x) point in
          let is_y : y ≡ a.y = ap (λ (p : Affine). p.y) point in
          (to_x (read_x ∙ ap ok is_x), to_y (read_y ∙ ap ok is_y)),
      λ (sx, sy). rw (from_x sx, from_y sy) refl,
    )

pub same_point_iff : (a b : Affine) → (same_point a b ≡ true) ↔ (a ≡ b)
same_point_iff a b = ground arith

pub run_verifier_iff :
    (gate : Gate) (detail : String) {A : Type 0} (parsed : Parsed A)
    → (run_verifier gate detail parsed ≡ ok tt)
      ↔ (gate parsed.proof_bytes parsed.pi_words ≡ ok true)
unfolding run_verifier
run_verifier_iff gate detail parsed =
    (forth (gate parsed.proof_bytes parsed.pi_words), λ e. rw e refl)
  where
    forth :
        (r : Result String Bool)
        → (or_refuse GateCode.proof_rejected r >>= λ valid.
            guard valid (record { code = GateCode.proof_rejected; detail = detail }))
          ≡ ok tt
        → r ≡ ok true
    forth (ok true) h = refl
    forth (ok false) h = cc
    forth (fail e) h = cc

pub or_refuse_inv :
    {A : Type 0} (code : GateCode) (r : Result String A) (a : A)
    → or_refuse code r ≡ ok a
    → r ≡ ok a
or_refuse_inv code (ok b) a h = ap ok (ok-injective h)
or_refuse_inv code (fail e) a h = cc

-- The verifier has accepted the proof with the texts of the 13 words.
pub record Verified (gate : Gate) (proof : ProofField) (words : List Word) (texts : List Text)
    : Type 0 where
  pub proof_bytes : List ℕ
  pub proof_read : proof_to_bytes proof ≡ ok proof_bytes
  pub words_read : normalize_public_inputs words ≡ ok texts
  pub size : length words ≡ 13
  pub accepted : gate proof_bytes texts ≡ ok true

pub parse_inv :
    {A : Type 0} (proof : ProofField) (words : List Word) (extracted : Result String A)
    (p : Parsed A)
    → parse proof words extracted ≡ ok p
    → (proof_to_bytes proof ≡ ok p.proof_bytes)
      × (normalize_public_inputs words ≡ ok p.pi_words)
      × (extracted ≡ ok p.publics)
unfolding parse
parse_inv proof words extracted p h =
    let (bytes, read, h₁) = >>=-eq-ok (proof_to_bytes proof) _ h in
    let (texts, normal, h₂) = >>=-eq-ok (normalize_public_inputs words) _ h₁ in
    let (publics, found, same) = >>=-eq-ok extracted _ h₂ in
    let e : record { proof_bytes = bytes; pi_words = texts; publics = publics } ≡ p =
      ok-injective same in
    (
      read ∙ ap (λ q. ok q.proof_bytes) e,
      normal ∙ ap (λ q. ok q.pi_words) e,
      found ∙ ap (λ q. ok q.publics) e,
    )

-- The converse of `parse_inv`, under `or_refuse`.
pub parse_ok :
    {A : Type 0} {gate : Gate} {proof : ProofField} {words : List Word} {texts : List Text}
    (extracted : Result String A) (a : A) (v : Verified gate proof words texts)
    → extracted ≡ ok a
    → parse proof words extracted
      ≡ ok (record { proof_bytes = v.proof_bytes; pi_words = texts; publics = a })
unfolding parse
parse_ok extracted a v found = rw (v.proof_read, v.words_read, found) refl

pub Verified-length :
    {gate : Gate} {proof : ProofField} {words : List Word} {texts : List Text}
    → Verified gate proof words texts
    → (length texts == 13) ≡ true
Verified-length {words = words} {texts = texts} v =
    let (size, _) = normalize_public_inputs-to_big words texts v.words_read in
    (==_iff (length texts) 13).1 (size ∙ v.size)

pub extract_m_inv :
    (words : List Word) (a : Affine)
    → extract_m_from_public_inputs words ≡ ok a
    → (length words ≡ 13) × (affine_at words 8 ≡ ok a)
unfolding extract_m_from_public_inputs
extract_m_inv words a h =
    let (size, at) = guard-inv (length words == 13) _ _ h in ((==_iff (length words) 13).0 size, at)

extract_m_ok :
    (words : List Word) (a : Affine)
    → length words ≡ 13
    → affine_at words 8 ≡ ok a
    → extract_m_from_public_inputs words ≡ ok a
unfolding extract_m_from_public_inputs
extract_m_ok words a size at = rw ((==_iff (length words) 13).1 size) at

-- An `enroll_commit_v2` proof is accepted for the point `m` exactly if the verifier accepts it with
-- the texts of its 13 words, and the words 8 and 9 of those spell `m`.
pub verify_enroll_commit_proof_iff :
    (gate : Gate) (proof : ProofField) (words : List Word) (m : Affine)
    → (verify_enroll_commit_proof gate proof words m ≡ ok tt) ↔ (
        (texts : List Text) × Verified gate proof words texts
        × SpelledAt texts 8 m.x
        × SpelledAt texts 9 m.y)
unfolding verify_enroll_commit_proof
verify_enroll_commit_proof_iff gate proof words m = (forth, back)
  where
    forth :
        verify_enroll_commit_proof gate proof words m ≡ ok tt
        → (texts : List Text) × Verified gate proof words texts
          × SpelledAt texts 8 m.x
          × SpelledAt texts 9 m.y
    forth h =
        let (p, parsed, h₁) =
          >>=-eq-ok (or_refuse GateCode.malformed_proof (parse proof words _)) _ h in
        let (read, normal, found) = parse_inv proof words _ p (or_refuse_inv _ _ p parsed) in
        let (_, h₂) = guard-inv (length p.pi_words == 13) _ _ h₁ in
        let (same, h₃) = guard-inv (same_point p.publics m) _ _ h₂ in
        let (size, at) = extract_m_inv words p.publics found in
        let e = (same_point_iff p.publics m).0 same in
        let (sx, sy) =
          (affine_at-SpelledAt words p.pi_words 8 m normal (omega (arith, size))).0 (rw e at at) in
        (
          p.pi_words,
          record {
            proof_bytes = p.proof_bytes;
            proof_read = read;
            words_read = normal;
            size = size;
            accepted = (run_verifier_iff gate "proof verification failed" p).0 h₃;
          },
          sx,
          sy,
        )

    back :
        ((texts : List Text) × Verified gate proof words texts
          × SpelledAt texts 8 m.x
          × SpelledAt texts 9 m.y)
        → verify_enroll_commit_proof gate proof words m ≡ ok tt
    back (texts, v, sx, sy) =
        let at =
          (affine_at-SpelledAt words texts 8 m v.words_read (omega (arith, v.size))).1 (sx, sy) in
        let found = extract_m_ok words m v.size at in
        let run : Parsed Affine = record {
          proof_bytes = v.proof_bytes;
          pi_words = texts;
          publics = m;
        } in
        rw (parse_ok _ m v found, Verified-length v, (same_point_iff m m).1 refl)
          ((run_verifier_iff gate "proof verification failed" run).1 v.accepted)
