-- ===== src/Oprf/Attester.antt =====
-- packages/oprf/src/attester.ts, of which packages/oprf/v3-grumpkin/service/attester.mjs is a port: the
-- digest of an update of the registry's root, and its signature.
-- The hashes, the encoders of viem and the signature of @noble/curves are parameters.
pub mod Encoding
pub mod Signature
pub mod Binds
use crisp_qes.Common.{
  ℕ, ◌+◌, ◌%◌, Option, none, some, List, [], ◌∷◌, ◌++◌, String, Result, ok, fail, ◌>>=◌, guard,
  ◌>>◌, ◌&&◌, ◌==◌, all, drop, length, if◌then◌else◌,
}
use crisp_qes.Common.Text.{Text, codes, starts_with, is_hex}
use crisp_qes.Common.Text.Hex.{hex_digits, bigint_to_hex32, from_hex}

pub record RootUpdate : Type 0 where
  pub old_root : ℕ
  pub new_root : ℕ
  pub new_commitments : List ℕ
  pub chain_id : ℕ
  pub enrollment_registry : Text

abbrev pub eth_prefix : List ℕ
eth_prefix = 25 ∷ codes "Ethereum Signed Message:" ++ 10 ∷ codes "32"

-- `newCommitments.map(bigintToHex32)`: the first value out of range throws.
unfoldable pub items_of : List ℕ → Result String (List Text)
items_of [] = ok []
items_of (v ∷ vs) = do item ← bigint_to_hex32 v; items ← items_of vs; ok (item ∷ items)

-- What `secp256k1.sign` returns.
pub record Ecdsa : Type 0 where
  pub r : ℕ
  pub s : ℕ
  pub recovery : Option ℕ

-- The recovery bit, 0 if there is none.
abbrev pub recovery_of : Option ℕ → ℕ
recovery_of none = 0
recovery_of (some bit) = bit

pub record Attestation : Type 0 where
  pub sig : Text
  pub inner_digest : Text

-- The key of an attester, with or without `0x`.
unfoldable pub private_key : Text → Result String (List ℕ)
unfolding starts_with
private_key text =
    let stripped = if starts_with text (codes "0x") then drop 2 text else text in
    do
      guard ((length stripped == 64) && all is_hex stripped) "attester key must be 32-byte hex"
      ok (from_hex (codes "0x" ++ stripped))

-- What the attester calls. `encode_parameters` is `encodeAbiParameters` for three `bytes32`, a
-- `uint256` and an `address`, and `padded` is `pad(toHex(v), { size: 32 })`.
pub record Library : Type 0 where
  pub keccak256 : List ℕ → Text
  pub keccak_256 : List ℕ → List ℕ
  pub encode_packed : List Text → List ℕ
  pub encode_parameters : (a b c : Text) → (n : ℕ) → (address : Text) → Result String (List ℕ)
  pub padded : ℕ → Text
  pub secp256k1_sign : (message key : List ℕ) → Ecdsa

module _ (lib : Library) where
  unfoldable pub hash_commitment_list : List ℕ → Result String Text
  unfolding items_of
  hash_commitment_list new_commitments = do
    items ← items_of new_commitments
    ok (lib.keccak256 (lib.encode_packed items))

  unfoldable pub inner_digest : RootUpdate → Result String Text
  unfolding hash_commitment_list
  inner_digest u = do
    commitments_hash ← hash_commitment_list u.new_commitments
    old_root ← bigint_to_hex32 u.old_root
    new_root ← bigint_to_hex32 u.new_root
    encoded ←
        lib.encode_parameters old_root new_root commitments_hash u.chain_id u.enrollment_registry
    ok (lib.keccak256 encoded)

  abbrev pub eth_signed_digest : Text → List ℕ
  eth_signed_digest inner = lib.keccak_256 (eth_prefix ++ from_hex inner)

  -- The bytes `r`, `s` and `v`, in hex.
  abbrev pub signature_text : Ecdsa → Text
  signature_text e =
      lib.padded e.r
      ++ (drop 2 (lib.padded e.s) ++ hex_digits 2 ((27 + recovery_of e.recovery) % 256) [])

  unfoldable pub sign : (key : List ℕ) → RootUpdate → Result String Attestation
  unfolding inner_digest
  sign key u = do
    inner ← inner_digest u
    ok (record {
      sig = signature_text (lib.secp256k1_sign (eth_signed_digest inner) key);
      inner_digest = inner;
    })
