-- ===== src/Tests/Attesters.antt =====
-- An attester over an encoding that frames its parameters, and two updates that differ in the letter
-- case of the registry.
use crisp_qes.Common.{
  ℕ, ◌≡◌, refl, sym, ap, ◌∙◌, ◌⊎◌, List, [], ◌∷◌, ◌++◌, some, String, Result, ok, ok-injective,
  length,
}
use crisp_qes.Common.Text.{Text, codes, lower}
use crisp_qes.Common.Text.Hex.{hex_digits, bigint_to_hex32, from_hex}
use crisp_qes.Oprf.Attestation.Binding.{split_at_length, append-cancel}
use crisp_qes.Oprf.Attester.{
  RootUpdate, Library, Attestation, items_of, hash_commitment_list, inner_digest, signature_text,
  sign,
}
use crisp_qes.Oprf.Attester.Signature.{IsSignature, eip_191}
use crisp_qes.Oprf.Attester.Encoding.{packed}
use crisp_qes.Oprf.Attester.Binds.{AreSame, Collide, HaveCollision, IsEncoding, sign-AreSame}

abbrev framed : List ℕ → List ℕ → List ℕ
framed xs rest = length xs ∷ xs ++ rest

framed-injective : (xs ys r s : List ℕ) → framed xs r ≡ framed ys s → (xs ≡ ys) × (r ≡ s)
framed-injective xs ys r s e =
    let size : length xs ≡ length ys = cc in
    let row : xs ++ r ≡ ys ++ s = cc in
    let first = split_at_length xs ys r s size row in
    (first, append-cancel ys r s (ap (λ x. x ++ r) (sym first) ∙ row))

abbrev frames : Text → Text → Text → ℕ → Text → Result String (List ℕ)
frames a b c n address =
    ok (framed (from_hex a) (framed (from_hex b) (framed (from_hex c) (n ∷ lower address))))

abbrev library : Library
library = record {
  keccak256 = λ bytes. codes "0x" ++ hex_digits 2 (length bytes) [];
  keccak_256 = λ bytes. length bytes ∷ [];
  encode_packed = packed;
  encode_parameters = frames;
  padded = λ v. codes "0x" ++ hex_digits 64 v [];
  secp256k1_sign = λ message key. record { r = 3; s = length message; recovery = some 1 };
}

frames-IsEncoding : IsEncoding library
frames-IsEncoding a b c d e f n m address address' bytes one other =
    let (first, r₁) =
      framed-injective (from_hex a) (from_hex d) _ _ (ok-injective (one ∙ sym other)) in
    let (second, r₂) = framed-injective (from_hex b) (from_hex e) _ _ r₁ in
    let (third, r₃) = framed-injective (from_hex c) (from_hex f) _ _ r₂ in
    (first, second, third, cc, cc)

abbrev update : Text → RootUpdate
update registry = record {
  old_root = 5;
  new_root = 6;
  new_commitments = 77 ∷ 78 ∷ [];
  chain_id = 1;
  enrollment_registry = registry;
}

abbrev attested : Attestation
attested = record {
  sig = signature_text library (record { r = 3; s = 1; recovery = some 1 });
  inner_digest = codes "0x49";
}

sign-AreSame_example :
    IsSignature library (7 ∷ []) attested
    × IsSignature library (8 ∷ []) attested
    × (AreSame (update (codes "0xAb")) (update (codes "0xaB"))
        ⊎ (Collide library.keccak_256
              (eip_191 (from_hex attested.inner_digest))
              (eip_191 (from_hex attested.inner_digest))
            ⊎ HaveCollision library (update (codes "0xAb")) (update (codes "0xaB"))))
unfolding sign inner_digest hash_commitment_list items_of bigint_to_hex32 hex_digits lower
sign-AreSame_example =
    sign-AreSame library frames-IsEncoding (λ items. refl) (7 ∷ []) (8 ∷ []) (update (codes "0xAb"))
      (update (codes "0xaB")) attested attested refl refl refl
