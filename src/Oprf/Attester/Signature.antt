-- ===== src/Oprf/Attester/Signature.antt =====
-- What an attester signs, and what the text of its signature is.
use crisp_qes.Common.{
  ℕ, ◌+◌, ◌%◌, ◌≡◌, refl, subst, ◌∙◌, List, [], ◌∷◌, ◌++◌, drop, length, arith, ok, >>=-eq-ok,
  ok-injective,
}
use crisp_qes.Common.Text.{Text, codes, hex_value}
use crisp_qes.Common.Text.Hex.{hex_digits, from_hex}
use crisp_qes.V3.Words.Canonical.{hex_value-hex_digits}
use crisp_qes.Oprf.Attester.{RootUpdate, Library, Attestation, recovery_of, inner_digest, sign}

-- What EIP-191 signs of a digest of 32 bytes.
abbrev pub eip_191 : List ℕ → List ℕ
eip_191 digest = 25 ∷ codes "Ethereum Signed Message:\n32" ++ digest

module _ (lib : Library) where
  -- The hash of what EIP-191 makes of the inner digest.
  abbrev pub message_hash : Attestation → List ℕ
  message_hash a = lib.keccak_256 (eip_191 (from_hex a.inner_digest))

  -- The signature of the message with the key: `r`, `s` and the byte `v`, in hex.
  abbrev pub IsSignature : List ℕ → Attestation → Type 0
  IsSignature key a =
      (v : Text) × (a.sig
        ≡ lib.padded (lib.secp256k1_sign (message_hash a) key).r
          ++ (drop 2 (lib.padded (lib.secp256k1_sign (message_hash a) key).s) ++ v))
      × (length v ≡ 2)
      × (hex_value 0 v
          ≡ (27 + recovery_of (lib.secp256k1_sign (message_hash a) key).recovery) % 256)

  byte_text : (n : ℕ) → hex_value 0 (hex_digits 2 (n % 256) []) ≡ n % 256
  byte_text n =
      hex_value-hex_digits 2 0 (n % 256) [] (omega arith) ∙ (unfold hex_value in omega arith)

  pub sign-IsSignature :
      (key : List ℕ) (u : RootUpdate) (a : Attestation) → sign lib key u ≡ ok a → IsSignature key a
  unfolding sign hex_digits
  sign-IsSignature key u a signed =
      let (inner, _, e) = >>=-eq-ok (inner_digest lib u) _ signed in
      subst (IsSignature key) (ok-injective e) (_, refl, refl, byte_text _)
