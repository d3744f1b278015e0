-- ===== src/Oprf/Attester/Binds.antt =====
-- What an attester signs is one update of the root.
use crisp_qes.Common.{
  [], ℕ, ◌≡◌, ◌≢◌, refl, sym, ap, subst, ◌∙◌, ◌⊎◌, inl, inr, List, ok, >>=-eq-ok, ok-injective,
  Bool-cases, bytes_eq, bytes_eq_sound, bytes_eq_refl,
}
use crisp_qes.Oprf.Attester.Signature.{eip_191, message_hash, IsSignature, sign-IsSignature}
use crisp_qes.Common.Text.{Text, lower}
use crisp_qes.Common.Text.Hex.{bigint_to_hex32, from_hex}
use crisp_qes.Oprf.Attester.{
  RootUpdate, Library, Attestation, items_of, hash_commitment_list, inner_digest, sign,
}
use crisp_qes.Oprf.Attester.Encoding.{packed, packed-injective, from_hex-injective}
use crisp_qes.Oprf.Attestation.Binding.{append-cancel}

-- Two different inputs with one hash.
abbrev pub Collide : (List ℕ → List ℕ) → List ℕ → List ℕ → Type 0
Collide hash x y = (x ≢ y) × (hash x ≡ hash y)

same_unless_hashed :
    (hash : List ℕ → List ℕ) (x y : List ℕ) → hash x ≡ hash y → (x ≡ y) ⊎ Collide hash x y
same_unless_hashed hash x y e = elim (Bool-cases (bytes_eq x y)) [
  | inl same ↦ inl (bytes_eq_sound x y same)
  | inr differ ↦
      inr (λ same. absurd (let h = rw same at differ in let k = bytes_eq_refl y in cc), e)
]

-- The same update; an address is read without its letter case.
abbrev pub AreSame : RootUpdate → RootUpdate → Type 0
AreSame u w =
    (u.old_root ≡ w.old_root)
    × (u.new_root ≡ w.new_root)
    × (u.new_commitments ≡ w.new_commitments)
    × (u.chain_id ≡ w.chain_id)
    × (lower u.enrollment_registry ≡ lower w.enrollment_registry)

module _ (lib : Library) where
  -- The bytes of `keccak256`.
  abbrev pub digest_bytes : List ℕ → List ℕ
  digest_bytes bytes = from_hex (lib.keccak256 bytes)

  -- The ABI encodes its parameters one after another, each in its own word.
  abbrev pub IsEncoding : Type 0
  IsEncoding =
      (a b c d e f : Text) (n m : ℕ) (address address' : Text) (bytes : List ℕ)
      → lib.encode_parameters a b c n address ≡ ok bytes
      → lib.encode_parameters d e f m address' ≡ ok bytes
      → (from_hex a ≡ from_hex d)
        × (from_hex b ≡ from_hex e)
        × (from_hex c ≡ from_hex f)
        × (n ≡ m)
        × (lower address ≡ lower address')

  -- What an inner digest is the hash of.
  abbrev IsDigestOf : RootUpdate → Text → Type 0
  IsDigestOf u inner =
      (items : List Text) × (old_root : Text) × (new_root : Text) × (encoded : List ℕ) × (items_of
          u.new_commitments
        ≡ ok items)
      × (bigint_to_hex32 u.old_root ≡ ok old_root)
      × (bigint_to_hex32 u.new_root ≡ ok new_root)
      × (lib.encode_parameters old_root new_root (lib.keccak256 (lib.encode_packed items))
            u.chain_id u.enrollment_registry
          ≡ ok encoded)
      × (lib.keccak256 encoded ≡ inner)

  -- What is hashed for the inner digest of an update: the packed commitments, and the encoding.
  abbrev pub IsHashed : RootUpdate → List ℕ → Type 0
  IsHashed u bytes =
      ((items : List Text) × (items_of u.new_commitments ≡ ok items)
        × (lib.encode_packed items ≡ bytes))
      ⊎ ((old_root : Text) × (new_root : Text) × (commitments_hash : Text) × (bigint_to_hex32
              u.old_root
            ≡ ok old_root)
          × (bigint_to_hex32 u.new_root ≡ ok new_root)
          × (hash_commitment_list lib u.new_commitments ≡ ok commitments_hash)
          × (lib.encode_parameters old_root new_root commitments_hash u.chain_id
                u.enrollment_registry
              ≡ ok bytes))

  -- Inputs that were hashed for two updates and collide.
  abbrev pub HaveCollision : RootUpdate → RootUpdate → Type 0
  HaveCollision u w =
      (x : List ℕ) × (y : List ℕ) × IsHashed u x × IsHashed w y × Collide digest_bytes x y

  inner_digest-IsDigestOf :
      (u : RootUpdate) (inner : Text) → inner_digest lib u ≡ ok inner → IsDigestOf u inner
  unfolding inner_digest hash_commitment_list
  inner_digest-IsDigestOf u inner h =
      let (hashed, commitments, h₁) = >>=-eq-ok (hash_commitment_list lib u.new_commitments) _ h in
      let (items, listed, same) = >>=-eq-ok (items_of u.new_commitments) _ commitments in
      let (old_root, old_eq, h₂) = >>=-eq-ok (bigint_to_hex32 u.old_root) _ h₁ in
      let (new_root, new_eq, h₃) = >>=-eq-ok (bigint_to_hex32 u.new_root) _ h₂ in
      let (encoded, encoded_eq, e) =
        >>=-eq-ok (lib.encode_parameters old_root new_root hashed u.chain_id u.enrollment_registry)
          _ h₃ in
      (
        items,
        old_root,
        new_root,
        encoded,
        listed,
        old_eq,
        new_eq,
        subst
            (λ c.
              lib.encode_parameters old_root new_root c u.chain_id u.enrollment_registry
              ≡ ok encoded)
            (sym (ok-injective same)) encoded_eq,
        ok-injective e,
      )

  module _ (encodes : IsEncoding)
      (packs : (items : List Text) → lib.encode_packed items ≡ packed items) where
    hashed :
        (u : RootUpdate) (items : List Text)
        → items_of u.new_commitments ≡ ok items
        → hash_commitment_list lib u.new_commitments ≡ ok (lib.keccak256 (lib.encode_packed items))
    unfolding hash_commitment_list
    hashed u items listed = rw listed refl

    inner_digest-binds :
        (u w : RootUpdate) (inner inner' : Text)
        → IsDigestOf u inner
        → IsDigestOf w inner'
        → from_hex inner ≡ from_hex inner'
        → AreSame u w ⊎ HaveCollision u w
    inner_digest-binds u w inner inner' (items, o, n, enc, listed, o_eq, n_eq, enc_eq, d_eq)
          (items', o', n', enc', listed', o_eq', n_eq', enc_eq', d_eq') same =
        elim (same_unless_hashed digest_bytes enc enc'
          (ap from_hex d_eq ∙ same ∙ sym (ap from_hex d_eq'))) [
            | inr found ↦ inr (
              enc,
              enc',
              inr (o, n, _, o_eq, n_eq, hashed u items listed, enc_eq),
              inr (o', n', _, o_eq', n_eq', hashed w items' listed', enc_eq'),
              found,
            )
            | inl one ↦
                let (old_same, new_same, hash_same, chain_same, registry_same) =
                  encodes o n _ o' n' _ u.chain_id w.chain_id u.enrollment_registry
                    w.enrollment_registry enc' (enc_eq ∙ ap ok one) enc_eq' in
                elim (same_unless_hashed digest_bytes (lib.encode_packed items)
                  (lib.encode_packed items') hash_same) [
                    | inr found ↦ inr (
                      lib.encode_packed items,
                      lib.encode_packed items',
                      inl (items, listed, refl),
                      inl (items', listed', refl),
                      found,
                    )
                    | inl row ↦ inl (
                      from_hex-injective u.old_root w.old_root o o' o_eq o_eq' old_same,
                      from_hex-injective u.new_root w.new_root n n' n_eq n_eq' new_same,
                      packed-injective u.new_commitments w.new_commitments items items' listed
                          listed' (sym (packs items) ∙ row ∙ packs items'),
                      chain_same,
                      registry_same,
                    )
                  ]
          ]

    -- What an attester returns is a signature with its key of the EIP-191 message of the inner digest
    -- that it returns: `r`, `s` and the byte of 27 and the recovery bit, in hex. If the messages of two updates have one
    -- hash, they are the same update (both roots, the list of commitments, the chain and, but for the
    -- letter case, the registry), or a hash collides on an input that was hashed for the one and an
    -- input that was hashed for the other: the messages, or the packed commitments and the encodings.
    -- It is assumed that `encodePacked` gives the bytes of the items in a row, and that equal encodings
    -- of `encodeAbiParameters` have equal parameters.
    pub sign-AreSame :
        (key key' : List ℕ) (u w : RootUpdate) (a b : Attestation)
        → sign lib key u ≡ ok a
        → sign lib key' w ≡ ok b
        → message_hash lib a ≡ message_hash lib b
        → IsSignature lib key a
          × IsSignature lib key' b
          × (AreSame u w
              ⊎ (Collide lib.keccak_256
                    (eip_191 (from_hex a.inner_digest))
                    (eip_191 (from_hex b.inner_digest))
                  ⊎ HaveCollision u w))
    unfolding sign
    sign-AreSame key key' u w a b signed signed' same =
        let (inner, digested, e) = >>=-eq-ok (inner_digest lib u) _ signed in
        let (inner', digested', e') = >>=-eq-ok (inner_digest lib w) _ signed' in
        let at : inner ≡ a.inner_digest = ap (λ x. x.inner_digest) (ok-injective e) in
        let at' : inner' ≡ b.inner_digest = ap (λ x. x.inner_digest) (ok-injective e') in
        (
          sign-IsSignature lib key u a signed,
          sign-IsSignature lib key' w b signed',
          elim (same_unless_hashed lib.keccak_256 (eip_191 (from_hex a.inner_digest))
              (eip_191 (from_hex b.inner_digest)) same) [
                | inr found ↦ inr (inl found)
                | inl one ↦
                    elim (inner_digest-binds u w inner inner'
                      (inner_digest-IsDigestOf u inner digested)
                      (inner_digest-IsDigestOf w inner' digested')
                      (ap from_hex at
                        ∙ append-cancel (eip_191 []) _ _ one
                        ∙ sym (ap from_hex at'))) [
                          | inl equal ↦ inl equal
                          | inr found ↦ inr (inr found)
                        ]
              ],
        )
