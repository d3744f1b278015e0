-- ===== src/V3/Server/Register/Challenge.antt =====
-- The challenge that an enrollment proof is bound to is that of the proof's own point.
use crisp_qes.Common.{
  take-append, drop-append, ℕ, zero, suc, ◌-◌, ◌≤◌, ◌≡◌, refl, sym, subst, ap, append_assoc,
  append-nil, ◌∙◌, Bool, true, false, Bool-cases, inl, inr, List, [], ◌∷◌, ◌++◌, ◌&&◌, ◌==◌, String,
  Result, ok, fail, guard-inv, >>=-eq-ok, ok-injective, length, length-append, take, drop,
  replicate, all, arith, and_true, bytes_eq, ==_iff,
}
use crisp_qes.Common.Text.{
  Text, codes, lower, hex_value, starts_with, is_lower_hex, is_hex, to_lower,
}
use crisp_qes.V3.Words.{
  Word, word_at, word_value, word_to_be32, to_big, Affine, Digest,
  extract_digest_from_public_inputs,
}
use crisp_qes.V3.Words.Canonical.{word_to_be32_inv}
use crisp_qes.V3.Challenge.{is_point_hex, build_enroll_v3_challenge_bytes, expected_digest_limbs}
use crisp_qes.V3.Server.{Config, Services, same_digest, challenge_digest_ok}
use crisp_qes.V3.Server.BlindEval.{point_of_hex}
use crisp_qes.V3.Server.Register.{padded_hex}

pub same_digest_inv :
    (a b : Result String Digest) → same_digest a b ≡ true → (d : Digest) × (a ≡ ok d) × (b ≡ ok d)
same_digest_inv (ok a) (ok b) h =
    let (hi, lo) = and_true (a.hi == b.hi) (a.lo == b.lo) h in
    let e_hi = (==_iff a.hi b.hi).0 hi in let e_lo = (==_iff a.lo b.lo).0 lo in (a, refl, cc)
same_digest_inv (ok a) (fail e) h = cc
same_digest_inv (fail e) b h = cc

length-lower : (t : Text) → length (lower t) ≡ length t
unfolding lower
length-lower [] = refl
length-lower (c ∷ t) = ap suc (length-lower t)

length-replicate : (n c : ℕ) → length (replicate n c) ≡ n
length-replicate zero c = refl
length-replicate (suc n) c = ap suc (length-replicate n c)

hex_value-replicate : (n : ℕ) (t : Text) → hex_value 0 (replicate n 48 ++ t) ≡ hex_value 0 t
unfolding hex_value
hex_value-replicate zero t = refl
hex_value-replicate (suc n) t = hex_value-replicate n t

-- Text that is lower case hex after `toLowerCase` has no X in it.
starts-apart :
    (n : ℕ) (t rest : Text)
    → all is_lower_hex (lower (lower (replicate n 48 ++ (t ++ rest)))) ≡ true
    → starts_with t (codes "0X") ≡ false
unfolding starts_with lower
starts-apart (suc n) t rest h = starts-apart n t rest h
starts-apart zero [] rest h = refl
starts-apart zero (a ∷ []) rest h = ground arith
starts-apart zero (a ∷ b ∷ t) rest h = elim (Bool-cases (b == 88)) [
  | inl same ↦
      let is_x : b ≡ 88 = (==_iff b 88).0 same in
      let (_, later) = and_true (is_lower_hex (to_lower (to_lower a))) _ h in
      let (clash, _) = and_true (is_lower_hex (to_lower (to_lower b))) _ later in
      absurd (false-true (rw is_x at clash))
  | inr apart ↦ rw apart (and_false (a == 48))
]
  where
    false-true : false ≡ true → ⊥
    false-true e = cc

    and_false : (c : Bool) → c && false ≡ false
    and_false true = refl
    and_false false = refl

padded-value :
    (h t : Text) (v : ℕ)
    → replicate (64 - length h) 48 ++ h ≡ t
    → hex_value 0 h ≡ v
    → (hex_value 0 t ≡ v) × (64 ≤ length t)
padded-value h t v e value = (
  ap (hex_value 0) (sym e) ∙ hex_value-replicate (64 - length h) h ∙ value,
  (let size = ap length (sym e) ∙ length-append (replicate (64 - length h) 48) h in
      omega (arith, size, length-replicate (64 - length h) 48)),
)

-- The padded text of a word that is lower case hex has the word's value.
padded_hex-word_value :
    (w : Word) (t rest : Text) (v : ℕ)
    → padded_hex w ≡ ok t
    → word_value w ≡ ok v
    → all is_lower_hex (lower (lower (t ++ rest))) ≡ true
    → (hex_value 0 t ≡ v) × (64 ≤ length t)
unfolding word_value
padded_hex-word_value (Word.text h) t rest v padded read low =
    elim (Bool-cases (starts_with h (codes "0x"))) [
      | inl stripped ↦
          let (_, value) = guard-inv _ _ _ (rw stripped at read) in
          padded-value (drop 2 h) t v (ok-injective (rw stripped at padded)) (ok-injective value)
      | inr whole ↦
          let e = ok-injective (rw whole at padded) in
          let upper = starts-apart (64 - length h) h rest (
            subst (λ u. all is_lower_hex (lower (lower u)) ≡ true)
              (ap (λ z. z ++ rest) (sym e) ∙ append_assoc (replicate (64 - length h) 48) h rest)
              low) in
          let (_, value) = guard-inv _ _ _ (rw (whole, upper) at read) in
          padded-value h t v e (ok-injective value)
    ]
padded_hex-word_value (Word.bigint n) t rest v padded read low = cc
padded_hex-word_value Word.other t rest v padded read low = cc

lower-append_right :
    (xs ys : Text)
    → all is_lower_hex (lower (lower (xs ++ ys))) ≡ true
    → all is_lower_hex (lower (lower ys)) ≡ true
unfolding lower
lower-append_right [] ys h = h
lower-append_right (x ∷ xs) ys h =
    lower-append_right xs ys (and_true (is_lower_hex (to_lower (to_lower x))) _ h).1

to_big-word_value :
    (words : List Word) (i v : ℕ) → to_big words i ≡ ok v → word_value (word_at words i) ≡ ok v
unfolding to_big
to_big-word_value words i v h =
    let (b, encoded, e) = >>=-eq-ok (word_to_be32 (word_at words i)) _ h in
    let (u, read, _, value, _) = word_to_be32_inv (word_at words i) b encoded in
    read ∙ ap ok (sym value ∙ ok-injective e)

-- Two texts of at least 64 digits, 128 together, are the two coordinates.
point_of_hex-append :
    (ex ey : Text)
    → 64 ≤ length ex
    → 64 ≤ length ey
    → length (ex ++ ey) ≡ 128
    → point_of_hex (codes "0x" ++ (ex ++ ey)) ≡ record { x = hex_value 0 ex; y = hex_value 0 ey }
point_of_hex-append ex ey hx hy e =
    let size = length-append ex ey in
    let exact : length ex ≡ 64 = omega (arith, size, e, hx, hy) in
    rw (take-append 64 ex ey exact, drop-append 64 ex ey exact) refl

expected_digest_limbs_inv :
    (sha256 : List ℕ → List ℕ) (m epoch : Text) (d : Digest)
    → expected_digest_limbs sha256 m epoch ≡ ok d
    → (length (drop 2 (lower m)) ≡ 128) × (all is_lower_hex (drop 2 (lower m)) ≡ true)
unfolding expected_digest_limbs build_enroll_v3_challenge_bytes
expected_digest_limbs_inv sha256 m epoch d h =
    let (bytes, built, _) = >>=-eq-ok (build_enroll_v3_challenge_bytes m epoch) _ h in
    let (is_hex, _) = guard-inv (is_point_hex (lower m)) _ _ built in
    let (_, rest) = and_true (bytes_eq (take 2 (lower m)) (codes "0x")) _ is_hex in
    let (size, low) = and_true (length (drop 2 (lower m)) == 128) _ rest in
    ((==_iff (length (drop 2 (lower m))) 128).0 size, low)

-- The accepted challenge of the hex of two words is about the point that those words hold.
pub challenge_digest_ok-point_of_hex :
    (cfg : Config) (sv : Services) (words : List Word) (m : Affine) (ex ey : Text)
    → to_big words 8 ≡ ok m.x
    → to_big words 9 ≡ ok m.y
    → padded_hex (word_at words 8) ≡ ok ex
    → padded_hex (word_at words 9) ≡ ok ey
    → challenge_digest_ok cfg sv (codes "0x" ++ (ex ++ ey)) words ≡ true
    → (point_of_hex (codes "0x" ++ (ex ++ ey)) ≡ m)
      × (d : Digest) × (extract_digest_from_public_inputs words ≡ ok d)
      × (expected_digest_limbs sv.sha256 (lower (codes "0x" ++ (ex ++ ey))) cfg.enroll_epoch ≡ ok d)
unfolding challenge_digest_ok lower
challenge_digest_ok-point_of_hex cfg sv words m ex ey at_x at_y px py h =
    let hex = codes "0x" ++ (ex ++ ey) in
    let (d, bound, expected) =
      same_digest_inv (extract_digest_from_public_inputs words)
        (expected_digest_limbs sv.sha256 (lower hex) cfg.enroll_epoch) h in
    let (size, low) = expected_digest_limbs_inv sv.sha256 (lower hex) cfg.enroll_epoch d expected in
    let (value_x, long_x) =
      padded_hex-word_value (word_at words 8) ex ey m.x px (to_big-word_value words 8 m.x at_x)
        low in
    let low_y : all is_lower_hex (lower (lower (ey ++ []))) ≡ true =
      subst (λ t. all is_lower_hex (lower (lower t)) ≡ true) (sym (append-nil ey))
        (lower-append_right ex ey low) in
    let (value_y, long_y) =
      padded_hex-word_value (word_at words 9) ey [] m.y py (to_big-word_value words 9 m.y at_y)
        low_y in
    let exact : length (ex ++ ey) ≡ 128 =
      sym (length-lower (lower (ex ++ ey)) ∙ length-lower (ex ++ ey)) ∙ size in
    let same : ◌≡◌ {A = Affine} (record { x = hex_value 0 ex; y = hex_value 0 ey }) m = cc in
    (point_of_hex-append ex ey long_x long_y exact ∙ same, d, bound, expected)
