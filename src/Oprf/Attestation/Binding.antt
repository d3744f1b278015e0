-- ===== src/Oprf/Attestation/Binding.antt =====
-- What a citizen signs names one epoch and one blinded input.
use crisp_qes.Common.{
  ℕ, suc, ◌≡◌, refl, sym, ◌∙◌, true, false, not, ◌||◌, List, [], ◌∷◌, ◌++◌, ◌==◌, ok, guard-inv,
  length, take, drop, any, arith, ok-injective, bytes_eq,
}
use crisp_qes.Common.Text.{Text, codes}
use crisp_qes.Oprf.Attestation.{
  is_blinded_hex, is_quote_or_backslash, binding_bytes, build_enrollment_binding_bytes,
}

-- Two texts without quotes that are followed by a quote: the first quote tells where they end.
split_at_quote :
    (a b r s : Text)
    → any is_quote_or_backslash a ≡ false
    → any is_quote_or_backslash b ≡ false
    → a ++ 34 ∷ r ≡ b ++ 34 ∷ s
    → (a ≡ b) × (r ≡ s)
split_at_quote [] [] r s h k e = (refl, cc)
split_at_quote [] (y ∷ b) r s h k e = let first : 34 ≡ y = cc in ground arith
split_at_quote (x ∷ a) [] r s h k e = let first : x ≡ 34 = cc in ground arith
split_at_quote (x ∷ a) (y ∷ b) r s h k e =
    let (same, rest) = split_at_quote a b r s (ground arith) (ground arith) cc in (cc, rest)

pub split_at_length : (a b r s : Text) → length a ≡ length b → a ++ r ≡ b ++ s → a ≡ b
split_at_length [] [] r s h e = refl
split_at_length [] (y ∷ b) r s h e = ground arith
split_at_length (x ∷ a) [] r s h e = ground arith
split_at_length (x ∷ a) (y ∷ b) r s h e = let same = split_at_length a b r s (ground arith) cc in cc

pub append-cancel : (p r s : Text) → p ++ r ≡ p ++ s → r ≡ s
append-cancel [] r s e = e
append-cancel (x ∷ p) r s e = append-cancel p r s cc

binding_bytes-injective :
    (epoch epoch' blinded blinded' : Text)
    → any is_quote_or_backslash epoch ≡ false
    → any is_quote_or_backslash epoch' ≡ false
    → length blinded ≡ length blinded'
    → binding_bytes epoch blinded ≡ binding_bytes epoch' blinded'
    → (epoch ≡ epoch') × (blinded ≡ blinded')
binding_bytes-injective epoch epoch' blinded blinded' h h' len e =
    let tail = append-cancel (codes "{\"intent\":\"crisp-qes-enroll-v2\",\"epoch\":\"") _ _ e in
    let (same, rest) = split_at_quote epoch epoch' _ _ h h' tail in
    let after = append-cancel (codes ",\"blindedInput\":\"") _ _ rest in
    (same, split_at_length blinded blinded' _ _ len after)

length-drop_2 :
    (t : Text) → bytes_eq (take 2 t) (codes "0x") ≡ true → length t ≡ suc (suc (length (drop 2 t)))
length-drop_2 [] h = cc
length-drop_2 (x ∷ []) h = ground arith
length-drop_2 (x ∷ y ∷ t) h = refl

build_inv :
    (epoch blinded : Text) (bytes : List ℕ)
    → build_enrollment_binding_bytes epoch blinded ≡ ok bytes
    → (any is_quote_or_backslash epoch ≡ false)
      × (length blinded ≡ 66)
      × (binding_bytes epoch blinded ≡ bytes)
unfolding build_enrollment_binding_bytes
build_inv epoch blinded bytes h =
    let (hex, h₁) = guard-inv (is_blinded_hex blinded) _ _ h in
    let (clean, h₂) =
      guard-inv (not ((length epoch == 0) || any is_quote_or_backslash epoch)) _ _ h₁ in
    let prefix : bytes_eq (take 2 blinded) (codes "0x") ≡ true = ground arith in
    let size : length (drop 2 blinded) ≡ 64 = ground arith in
    (ground arith, omega (arith, length-drop_2 blinded prefix, size), ok-injective h₂)

-- If two enrollments have one binding artifact, they are for one epoch and one blinded input: what
-- the citizen signed cannot be presented for another.
pub build_enrollment_binding_bytes-injective :
    (epoch epoch' blinded blinded' : Text) (bytes : List ℕ)
    → build_enrollment_binding_bytes epoch blinded ≡ ok bytes
    → build_enrollment_binding_bytes epoch' blinded' ≡ ok bytes
    → (epoch ≡ epoch') × (blinded ≡ blinded')
build_enrollment_binding_bytes-injective epoch epoch' blinded blinded' bytes h h' =
    let (clean, size, e) = build_inv epoch blinded bytes h in
    let (clean', size', e') = build_inv epoch' blinded' bytes h' in
    binding_bytes-injective epoch epoch' blinded blinded' clean clean' (size ∙ sym size')
      (e ∙ sym e')
