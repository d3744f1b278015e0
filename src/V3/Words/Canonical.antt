-- ===== src/V3/Words/Canonical.antt =====
-- The words that the verifier is given have one spelling for each value, and it is that of the
-- values that the service reads.
use native.Mathlib.Nat.{pow-suc, pow-zero, mul-one, add-zero, zero-add}
use crisp_qes.Common.{
  ℕ, zero, suc, ◌+◌, ◌*◌, ◌/◌, ◌%◌, ◌^◌, ◌<◌, ◌≡◌, refl, ap, ◌∙◌, List, [], ◌∷◌, ◌++◌, arith, ok,
  lt→ltb, some, length, get_elem?, >>=-eq-ok, guard-inv, ◌==◌, ok-injective,
}
use crisp_qes.Common.Text.{Text, codes, hex_value, hex_digit}
use crisp_qes.Common.Text.Hex.{digit_code, hex_digits, bigint_to_hex32}
use crisp_qes.Pedersen.{be_bytes}
use crisp_qes.Tree.Levels.{double}
use crisp_qes.V3.Words.{Word, word_value, word_to_be32, bytes_hex, normalize_public_inputs, to_big}

hex_digit-digit_code : (d : ℕ) → d < 16 → hex_digit (digit_code d) ≡ d
hex_digit-digit_code d h = ground arith

-- The hex digits of the big-endian bytes are those of the number.
bytes_hex-be_bytes :
    (n v : ℕ) (out : List ℕ)
    → bytes_hex (be_bytes n v out) ≡ hex_digits (double n) v (bytes_hex out)
unfolding be_bytes bytes_hex hex_digits
bytes_hex-be_bytes zero v out = refl
bytes_hex-be_bytes (suc n) v out =
    let upper : v % 256 / 16 ≡ v / 16 % 16 = omega arith in
    let lower : v % 256 % 16 ≡ v % 16 = omega arith in
    let rest : v / 256 ≡ v / 16 / 16 = omega arith in
    rw (bytes_hex-be_bytes n (v / 256) ((v % 256) ∷ out)) (rw (upper, lower, rest) refl)

shift_digit : (a p x : ℕ) → (a * p + x / 16) * 16 + x % 16 ≡ a * (p * 16) + x
shift_digit a p x = omega arith

pub hex_value-hex_digits :
    (n a v : ℕ) (out : Text)
    → v < 16 ^ n
    → hex_value a (hex_digits n v out) ≡ hex_value (a * 16 ^ n + v) out
unfolding hex_value hex_digits
hex_value-hex_digits zero a v out h =
    let e : v ≡ 0 = omega (arith, pow-zero 16) in rw (pow-zero, e, mul-one, add-zero) refl
hex_value-hex_digits (suc n) a v out h =
    let digit = hex_digit-digit_code (v % 16) (omega arith) in
    rw (hex_value-hex_digits n a (v / 16) (digit_code (v % 16) ∷ out) (omega (arith, pow-suc 16 n)))
      (rw (digit, pow-suc 16 n) (ap (λ k. hex_value k out) (shift_digit a (16 ^ n) v)))

-- The digits of 32 bytes are the number's spelling in `bigintToHex32`.
bytes_hex-bigint_to_hex32 :
    (v : ℕ)
    → v < 2 ^ 256
    → (hex_value 0 (bytes_hex (be_bytes 32 v [])) ≡ v)
      × (bigint_to_hex32 v ≡ ok (codes "0x" ++ bytes_hex (be_bytes 32 v [])))
bytes_hex-bigint_to_hex32 v lt =
    let digits : bytes_hex (be_bytes 32 v []) ≡ hex_digits 64 v [] =
      bytes_hex-be_bytes 32 v [] ∙ (unfold bytes_hex in refl) in
    rw digits (
      hex_value-hex_digits 64 0 v [] (omega (arith, lt)) ∙ (unfold hex_value in zero-add v),
      unfold bigint_to_hex32 in (rw (lt→ltb v (16 ^ 64) (omega (arith, lt))) refl),
    )

-- The bytes of a word are those of its value, which has at most 256 bits.
pub word_to_be32_inv :
    (w : Word) (b : List ℕ)
    → word_to_be32 w ≡ ok b
    → (v : ℕ) × (word_value w ≡ ok v)
      × (v < 2 ^ 256)
      × (hex_value 0 (bytes_hex b) ≡ v)
      × (bigint_to_hex32 v ≡ ok (codes "0x" ++ bytes_hex b))
unfolding word_to_be32
word_to_be32_inv w b h =
    let (v, read, rest) = >>=-eq-ok (word_value w) _ h in
    let (fits, e) = guard-inv (v / 256 ^ 32 == 0) _ _ rest in
    let lt : v < 2 ^ 256 = ground arith in
    let same : be_bytes 32 v [] ≡ b = ok-injective e in
    let (value, spelling) = bytes_hex-bigint_to_hex32 v lt in
    (v, read, lt, rw same at value, rw same at spelling)

-- The words that `normalizePublicInputs` hands to the verifier are, one by one, the spellings in
-- `bigintToHex32` of the values that the service reads from the same places.
pub normalize_public_inputs-to_big :
    (words : List Word) (texts : List Text)
    → normalize_public_inputs words ≡ ok texts
    → (length texts ≡ length words)
      × ((i : ℕ)
          → i < length words
          → (v : ℕ) × (t : Text) × (to_big words i ≡ ok v)
            × (get_elem? texts i ≡ some t)
            × (bigint_to_hex32 v ≡ ok t))
unfolding normalize_public_inputs to_big
normalize_public_inputs-to_big [] texts h =
    let e : [] ≡ texts = ok-injective h in rw (← e) (refl, λ i lt. absurd (omega (arith, lt)))
normalize_public_inputs-to_big (w ∷ words) texts h =
    let (b, encoded, h') = >>=-eq-ok (word_to_be32 w) _ h in
    let (rest, later, e) = >>=-eq-ok (normalize_public_inputs words) _ h' in
    let same : (codes "0x" ++ bytes_hex b) ∷ rest ≡ texts = ok-injective e in
    let (v, _, _, value, spelling) = word_to_be32_inv w b encoded in
    let (size, agree) = normalize_public_inputs-to_big words rest later in
    rw (← same) (ap suc size, agrees b rest v encoded value spelling agree)
  where
    agrees :
        (b : List ℕ) (rest : List Text) (v : ℕ)
        → word_to_be32 w ≡ ok b
        → hex_value 0 (bytes_hex b) ≡ v
        → bigint_to_hex32 v ≡ ok (codes "0x" ++ bytes_hex b)
        → ((i : ℕ)
            → i < length words
            → (u : ℕ) × (t : Text) × (to_big words i ≡ ok u)
              × (get_elem? rest i ≡ some t)
              × (bigint_to_hex32 u ≡ ok t))
        → (i : ℕ) → i < suc (length words)
        → (u : ℕ) × (t : Text) × (to_big (w ∷ words) i ≡ ok u)
          × (get_elem? ((codes "0x" ++ bytes_hex b) ∷ rest) i ≡ some t)
          × (bigint_to_hex32 u ≡ ok t)
    agrees b rest v encoded value spelling agree zero lt =
        (v, codes "0x" ++ bytes_hex b, rw encoded (ap ok value), refl, spelling)
    agrees b rest v encoded value spelling agree (suc i) lt =
        let (u, t, read, at, spelled) = agree i (omega (arith, lt)) in (u, t, read, at, spelled)
