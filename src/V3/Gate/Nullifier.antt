-- ===== src/V3/Gate/Nullifier.antt =====
-- What an accepted nullifier proof is bound to.
use crisp_qes.Common.{
  ℕ, ◌+◌, ◌<◌, ◌≡◌, refl, ◌↔◌, List, [], ◌∷◌, ◌==◌, Result, ok, ◌>>=◌, ◌>>◌, guard, guard-inv,
  >>=-eq-ok, length, arith, ==_iff, and_true,
}
use crisp_qes.Common.Text.{Text}
use crisp_qes.V3.Words.{
  Word, ProofField, Affine, NullifierPublics, normalize_public_inputs, to_big, affine_at,
  extract_threshold_nullifier_publics,
}
use crisp_qes.V3.Words.Canonical.{normalize_public_inputs-to_big}
use crisp_qes.V3.Gate.{
  Gate, GateCode, Refusal, Parsed, parse, or_refuse, same_point, kpub_set_ok, Expected,
  cross_checks, run_verifier, verify_threshold_nullifier_proof,
}
use crisp_qes.V3.Gate.Bound.{
  SpelledAt, Verified, to_big-SpelledAt, affine_at-SpelledAt, same_point_iff, run_verifier_iff,
  or_refuse_inv, parse_inv, parse_ok, Verified-length,
}

-- The values that are read from the 13 words.
pub record Reads (words : List Word) (p : NullifierPublics) : Type 0 where
  pub size : length words ≡ 13
  pub m : affine_at words 0 ≡ ok p.m
  pub kpub1 : affine_at words 2 ≡ ok p.kpub1
  pub kpub2 : affine_at words 4 ≡ ok p.kpub2
  pub kpub3 : affine_at words 6 ≡ ok p.kpub3
  pub idx1 : to_big words 8 ≡ ok p.idx1
  pub idx2 : to_big words 9 ≡ ok p.idx2
  pub epoch : to_big words 10 ≡ ok p.epoch
  pub cr : to_big words 11 ≡ ok p.cr
  pub nullifier : to_big words 12 ≡ ok p.nullifier

extract_inv :
    (words : List Word) (p : NullifierPublics)
    → extract_threshold_nullifier_publics words ≡ ok p
    → Reads words p
unfolding extract_threshold_nullifier_publics
extract_inv words p h = ground arith

extract_ok :
    (words : List Word) (p : NullifierPublics)
    → Reads words p
    → extract_threshold_nullifier_publics words ≡ ok p
unfolding extract_threshold_nullifier_publics
extract_ok words p h = ground arith

-- The values that the service pins.
pub record Meets (e : Expected) (p : NullifierPublics) : Type 0 where
  pub m : p.m ≡ e.m
  pub cr : p.cr ≡ e.cr
  pub set : e.published_kpub_set ≡ p.kpub1 ∷ p.kpub2 ∷ p.kpub3 ∷ []
  pub epoch : p.epoch ≡ e.epoch
  pub commitment : p.nullifier ≡ e.commitment

kpub_set_inv :
    (p : NullifierPublics) (keys : List Affine) (refusal : Refusal)
    (rest : Result Refusal (Unit {0}))
    → (kpub_set_ok p keys >>= λ set_ok. guard set_ok refusal >> rest) ≡ ok tt
    → (keys ≡ p.kpub1 ∷ p.kpub2 ∷ p.kpub3 ∷ []) × (rest ≡ ok tt)
kpub_set_inv p [] refusal rest h = cc
kpub_set_inv p (k1 ∷ []) refusal rest h = cc
kpub_set_inv p (k1 ∷ k2 ∷ []) refusal rest h = cc
kpub_set_inv p (k1 ∷ k2 ∷ k3 ∷ []) refusal rest h =
    let (same, later) = guard-inv _ refusal rest h in
    let (s1, s23) = and_true (same_point p.kpub1 k1) _ same in
    let (s2, s3) = and_true (same_point p.kpub2 k2) _ s23 in
    let e1 = (same_point_iff p.kpub1 k1).0 s1 in
    let e2 = (same_point_iff p.kpub2 k2).0 s2 in
    let e3 = (same_point_iff p.kpub3 k3).0 s3 in (cc, later)
kpub_set_inv p (k1 ∷ k2 ∷ k3 ∷ k4 ∷ keys) refusal rest h = cc

cross_checks_inv : (e : Expected) (p : NullifierPublics) → cross_checks e p ≡ ok tt → Meets e p
unfolding cross_checks
cross_checks_inv e p h =
    let (m, h₁) = guard-inv (same_point p.m e.m) _ _ h in
    let (cr, h₂) = guard-inv (p.cr == e.cr) _ _ h₁ in
    let (set, h₃) = kpub_set_inv p e.published_kpub_set _ _ h₂ in
    let (epoch, h₄) = guard-inv (p.epoch == e.epoch) _ _ h₃ in
    record {
      m = (same_point_iff p.m e.m).0 m;
      cr = (==_iff p.cr e.cr).0 cr;
      set = set;
      epoch = (==_iff p.epoch e.epoch).0 epoch;
      commitment = ground arith;
    }

cross_checks_ok : (e : Expected) (p : NullifierPublics) → Meets e p → cross_checks e p ≡ ok tt
unfolding cross_checks
cross_checks_ok e p h =
    rw
      (
        (same_point_iff p.m e.m).1 h.m,
        (==_iff p.cr e.cr).1 h.cr,
        h.set,
        (same_point_iff p.kpub1 p.kpub1).1 refl,
        (same_point_iff p.kpub2 p.kpub2).1 refl,
        (same_point_iff p.kpub3 p.kpub3).1 refl,
        (==_iff p.epoch e.epoch).1 h.epoch,
        (==_iff p.nullifier e.commitment).1 h.commitment,
      )
      refl

-- The texts spell what the service expects: the point, the three published keys in their order, the
-- epoch, the commitment to the blinding factor and the commitment that is registered.
pub record Binds (texts : List Text) (e : Expected) : Type 0 where
  pub m_x : SpelledAt texts 0 e.m.x
  pub m_y : SpelledAt texts 1 e.m.y
  pub kpub1 : Affine
  pub kpub2 : Affine
  pub kpub3 : Affine
  pub set : e.published_kpub_set ≡ kpub1 ∷ kpub2 ∷ kpub3 ∷ []
  pub kpub1_x : SpelledAt texts 2 kpub1.x
  pub kpub1_y : SpelledAt texts 3 kpub1.y
  pub kpub2_x : SpelledAt texts 4 kpub2.x
  pub kpub2_y : SpelledAt texts 5 kpub2.y
  pub kpub3_x : SpelledAt texts 6 kpub3.x
  pub kpub3_y : SpelledAt texts 7 kpub3.y
  pub epoch : SpelledAt texts 10 e.epoch
  pub cr : SpelledAt texts 11 e.cr
  pub commitment : SpelledAt texts 12 e.commitment

module _ (words : List Word) (texts : List Text) (e : Expected)
    (normal : normalize_public_inputs words ≡ ok texts) where
  Binds-of : (p : NullifierPublics) → Reads words p → Meets e p → Binds texts e
  Binds-of p r h =
      let point =
        λ (i : ℕ) (a : Affine) (lt : i + 1 < length words) (at : affine_at words i ≡ ok a).
          (affine_at-SpelledAt words texts i a normal lt).0 at in
      let value = λ (i v : ℕ) (lt : i < length words) (at : to_big words i ≡ ok v).
        (to_big-SpelledAt words texts i v normal lt).0 at in
      let size = r.size in
      let m = point 0 e.m (omega (arith, size)) (rw h.m at r.m) in
      let k1 = point 2 p.kpub1 (omega (arith, size)) r.kpub1 in
      let k2 = point 4 p.kpub2 (omega (arith, size)) r.kpub2 in
      let k3 = point 6 p.kpub3 (omega (arith, size)) r.kpub3 in
      record {
        m_x = m.0;
        m_y = m.1;
        kpub1 = p.kpub1;
        kpub2 = p.kpub2;
        kpub3 = p.kpub3;
        set = h.set;
        kpub1_x = k1.0;
        kpub1_y = k1.1;
        kpub2_x = k2.0;
        kpub2_y = k2.1;
        kpub3_x = k3.0;
        kpub3_y = k3.1;
        epoch = value 10 e.epoch (omega (arith, size)) (rw h.epoch at r.epoch);
        cr = value 11 e.cr (omega (arith, size)) (rw h.cr at r.cr);
        commitment = value 12 e.commitment (omega (arith, size)) (rw h.commitment at r.nullifier);
      }

  publics_of :
      length words ≡ 13 → Binds texts e → (p : NullifierPublics) × Reads words p × Meets e p
  publics_of size b =
      let point =
        λ (i : ℕ) (a : Affine) (lt : i + 1 < length words) (sx : SpelledAt texts i a.x)
            (sy : SpelledAt texts (i + 1) a.y).
          (affine_at-SpelledAt words texts i a normal lt).1 (sx, sy) in
      let value = λ (i v : ℕ) (lt : i < length words) (s : SpelledAt texts i v).
        (to_big-SpelledAt words texts i v normal lt).1 s in
      let (_, agree) = normalize_public_inputs-to_big words texts normal in
      let (idx1, _, read1, _, _) = agree 8 (omega (arith, size)) in
      let (idx2, _, read2, _, _) = agree 9 (omega (arith, size)) in
      (
        record {
          m = e.m;
          kpub1 = b.kpub1;
          kpub2 = b.kpub2;
          kpub3 = b.kpub3;
          idx1 = idx1;
          idx2 = idx2;
          epoch = e.epoch;
          cr = e.cr;
          nullifier = e.commitment;
        },
        record {
          size = size;
          m = point 0 e.m (omega (arith, size)) b.m_x b.m_y;
          kpub1 = point 2 b.kpub1 (omega (arith, size)) b.kpub1_x b.kpub1_y;
          kpub2 = point 4 b.kpub2 (omega (arith, size)) b.kpub2_x b.kpub2_y;
          kpub3 = point 6 b.kpub3 (omega (arith, size)) b.kpub3_x b.kpub3_y;
          idx1 = read1;
          idx2 = read2;
          epoch = value 10 e.epoch (omega (arith, size)) b.epoch;
          cr = value 11 e.cr (omega (arith, size)) b.cr;
          nullifier = value 12 e.commitment (omega (arith, size)) b.commitment;
        },
        record { m = refl; cr = refl; set = b.set; epoch = refl; commitment = refl },
      )

-- A nullifier proof is accepted exactly if the verifier accepts it with the texts of its 13 words, and
-- those spell the point of the enrollment proof, the three published keys in their order, the current
-- epoch, the commitment to the blinding factor, and the commitment that is registered.
pub verify_threshold_nullifier_proof_iff :
    (gate : Gate) (proof : ProofField) (words : List Word) (e : Expected)
    → ((p : NullifierPublics) × (verify_threshold_nullifier_proof gate proof words e ≡ ok p))
      ↔ ((texts : List Text) × Verified gate proof words texts × Binds texts e)
unfolding verify_threshold_nullifier_proof
verify_threshold_nullifier_proof_iff gate proof words e = (forth, back)
  where
    forth :
        ((p : NullifierPublics) × (verify_threshold_nullifier_proof gate proof words e ≡ ok p))
        → (texts : List Text) × Verified gate proof words texts × Binds texts e
    forth (_, h) =
        let (p, parsed, h₁) =
          >>=-eq-ok (or_refuse GateCode.malformed_proof (parse proof words _)) _ h in
        let (read, normal, found) = parse_inv proof words _ p (or_refuse_inv _ _ p parsed) in
        let (_, h₂) = guard-inv (length p.pi_words == 13) _ _ h₁ in
        let (_, checked, h₃) = >>=-eq-ok (cross_checks e p.publics) _ h₂ in
        let (_, ran, _) = >>=-eq-ok (run_verifier gate _ p) _ h₃ in
        let reads = extract_inv words p.publics found in
        (
          p.pi_words,
          record {
            proof_bytes = p.proof_bytes;
            proof_read = read;
            words_read = normal;
            size = reads.size;
            accepted = (run_verifier_iff gate "nullifier proof verification failed" p).0 ran;
          },
          Binds-of words p.pi_words e normal p.publics reads (cross_checks_inv e p.publics checked),
        )

    back :
        ((texts : List Text) × Verified gate proof words texts × Binds texts e)
        → (p : NullifierPublics) × (verify_threshold_nullifier_proof gate proof words e ≡ ok p)
    back (texts, v, b) =
        let (p, reads, meets) = publics_of words texts e v.words_read v.size b in
        let run : Parsed NullifierPublics = record {
          proof_bytes = v.proof_bytes;
          pi_words = texts;
          publics = p;
        } in
        let ran = (run_verifier_iff gate "nullifier proof verification failed" run).1 v.accepted in
        (
          p,
          rw
              (
                parse_ok _ p v (extract_ok words p reads),
                Verified-length v,
                cross_checks_ok e p meets,
                ran,
              )
              refl,
        )
