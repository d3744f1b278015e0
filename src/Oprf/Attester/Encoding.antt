-- ===== src/Oprf/Attester/Encoding.antt =====
-- The commitments of an update are packed without a length, in 32 bytes each.
use native.Mathlib.Nat.{pow-suc, pow-zero, mul-one, add-zero}
use crisp_qes.Common.{
  ℕ, zero, suc, ◌+◌, ◌*◌, ◌/◌, ◌%◌, ◌^◌, ◌<◌, ◌≡◌, ◌≢◌, refl, sym, ap, ap₂, ◌∙◌, List, [], ◌∷◌,
  ◌++◌, arith, ok, length, >>=-eq-ok, ok-injective, ltb, ltb→lt, Bool-cases, inl, inr,
}
use crisp_qes.Common.Text.{Text, hex_digit}
use crisp_qes.Common.Text.Hex.{digit_code, hex_digits, bigint_to_hex32, byte_pairs, from_hex}
use crisp_qes.Pedersen.{be_value}
use crisp_qes.Tree.Levels.{double}
use crisp_qes.Oprf.Attester.{items_of}
use crisp_qes.Oprf.Attestation.Binding.{split_at_length, append-cancel}

hex_digit-code : (d : ℕ) → d < 16 → hex_digit (digit_code d) ≡ d
hex_digit-code d h = ground arith

shifted : (a p x : ℕ) → (a * p + x / 256) * 256 + (x / 16 % 16 * 16 + x % 16) ≡ a * (p * 256) + x
shifted a p x = omega arith

-- The bytes of hex digits have the value of the number.
be_value-digits :
    (n a v : ℕ) (out : Text)
    → v < 256 ^ n
    → be_value a (byte_pairs (hex_digits (double n) v out))
      ≡ be_value (a * 256 ^ n + v) (byte_pairs out)
unfolding be_value hex_digits
be_value-digits zero a v out h =
    let e : v ≡ 0 = omega (arith, pow-zero 256) in rw (pow-zero, e, mul-one, add-zero) refl
be_value-digits (suc n) a v out h =
    let two : v / 16 / 16 ≡ v / 256 = omega arith in
    let high = digit_code (v / 16 % 16) in
    let low = digit_code (v % 16) in
    let total : (a * 256 ^ n + v / 256) * 256 + (hex_digit high * 16 + hex_digit low)
        ≡ a * 256 ^ suc n + v =
      rw
        (
          hex_digit-code (v / 16 % 16) (omega arith),
          hex_digit-code (v % 16) (omega arith),
          pow-suc 256 n,
        )
        (shifted a (256 ^ n) v) in
    ap (λ w. be_value a (byte_pairs (hex_digits (double n) w (high ∷ low ∷ out)))) two
    ∙ be_value-digits n a (v / 256) (high ∷ low ∷ out) (omega (arith, pow-suc 256 n, h))
    ∙ ap (λ k. be_value k (byte_pairs out)) total

length-digits :
    (n v : ℕ) (out : Text)
    → length (byte_pairs (hex_digits (double n) v out)) ≡ n + length (byte_pairs out)
unfolding hex_digits
length-digits zero v out = omega arith
length-digits (suc n) v out =
    let ih = length-digits n (v / 16 / 16) (digit_code (v / 16 % 16) ∷ digit_code (v % 16) ∷ out) in
    omega (arith, ih)

bigint_to_hex32-bytes :
    (v : ℕ) (t : Text)
    → bigint_to_hex32 v ≡ ok t
    → (length (from_hex t) ≡ 32) × (be_value 0 (from_hex t) ≡ v)
unfolding bigint_to_hex32
bigint_to_hex32-bytes v t h = elim (Bool-cases (ltb v (16 ^ 64))) [
  | inl small ↦
      let e : 48 ∷ 120 ∷ hex_digits 64 v [] ≡ t = let h' = rw small at h in ok-injective h' in
      rw (← e) (
        length-digits 32 v [],
        be_value-digits 32 0 v [] (omega (arith, small, ltb→lt)) ∙ (unfold be_value in omega arith),
      )
  | inr large ↦ absurd (let h' = rw large at h in cc)
]

-- Two numbers with the same 32 bytes are the same.
pub from_hex-injective :
    (v w : ℕ) (s t : Text)
    → bigint_to_hex32 v ≡ ok s
    → bigint_to_hex32 w ≡ ok t
    → from_hex s ≡ from_hex t
    → v ≡ w
from_hex-injective v w s t hv hw e =
    let (_, value) = bigint_to_hex32-bytes v s hv in
    let (_, value') = bigint_to_hex32-bytes w t hw in sym value ∙ ap (be_value 0) e ∙ value'

-- `encodePacked` of 32-byte items: their bytes in a row.
abbrev pub packed : List Text → List ℕ
packed [] = []
packed (item ∷ items) = from_hex item ++ packed items

nonempty : (xs ys : List ℕ) → length xs ≡ 32 → ◌≢◌ {A = List ℕ} [] (xs ++ ys)
nonempty [] ys h e = omega (arith, h)
nonempty (x ∷ xs) ys h e = cc

-- Lists of numbers with the same packing are the same.
pub packed-injective :
    (vs ws : List ℕ) (ss ts : List Text)
    → items_of vs ≡ ok ss
    → items_of ws ≡ ok ts
    → packed ss ≡ packed ts
    → vs ≡ ws
unfolding items_of
packed-injective [] [] ss ts hv hw e = refl
packed-injective [] (w ∷ ws) ss ts hv hw e =
    let (t, spelled, later) = >>=-eq-ok (bigint_to_hex32 w) _ hw in
    let (rest, _, same) = >>=-eq-ok (items_of ws) _ later in
    let (size, _) = bigint_to_hex32-bytes w t spelled in
    absurd (
      nonempty (from_hex t) (packed rest) size
        (ap packed (ok-injective hv) ∙ e ∙ sym (ap packed (ok-injective same))))
packed-injective (v ∷ vs) [] ss ts hv hw e =
    let (s, spelled, later) = >>=-eq-ok (bigint_to_hex32 v) _ hv in
    let (rest, _, same) = >>=-eq-ok (items_of vs) _ later in
    let (size, _) = bigint_to_hex32-bytes v s spelled in
    absurd (
      nonempty (from_hex s) (packed rest) size
        (ap packed (ok-injective hw) ∙ sym e ∙ sym (ap packed (ok-injective same))))
packed-injective (v ∷ vs) (w ∷ ws) ss ts hv hw e =
    let (s, spelled, later) = >>=-eq-ok (bigint_to_hex32 v) _ hv in
    let (rest, items, same) = >>=-eq-ok (items_of vs) _ later in
    let (t, spelled', later') = >>=-eq-ok (bigint_to_hex32 w) _ hw in
    let (rest', items', same') = >>=-eq-ok (items_of ws) _ later' in
    let row : from_hex s ++ packed rest ≡ from_hex t ++ packed rest' =
      ap packed (ok-injective same) ∙ e ∙ sym (ap packed (ok-injective same')) in
    let (size, _) = bigint_to_hex32-bytes v s spelled in
    let (size', _) = bigint_to_hex32-bytes w t spelled' in
    let first : from_hex s ≡ from_hex t =
      split_at_length (from_hex s) (from_hex t) (packed rest) (packed rest') (size ∙ sym size')
        row in
    let others = packed-injective vs ws rest rest' items items' (
      append-cancel (from_hex t) (packed rest) (packed rest')
        (ap (λ x. x ++ packed rest) (sym first) ∙ row)) in
    ap₂ (λ x xs. x ∷ xs) (from_hex-injective v w s t spelled spelled' first) others
