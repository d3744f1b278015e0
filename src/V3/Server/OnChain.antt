-- ===== src/V3/Server/OnChain.antt =====
-- The root that the attester's signature starts from is one that the chain has given.
use crisp_qes.Common.{
  ℕ, ◌+◌, List, [], ◌∷◌, ◌≡◌, refl, sym, subst, ap, true, Bool-cases, ◌⊎◌, inl, inr, some, String,
  Result, ok, guard-inv, >>=-eq-ok, ok-injective, bytes_eq,
}
use crisp_qes.Common.Text.{Text, lower, hex_to_bigint}
use crisp_qes.Common.Text.Hex.{bigint_to_hex32}
use crisp_qes.V3.Merkle.{from_leaves}
use crisp_qes.V3.ChainSync.{Chain, Synced, sync_merkle_from_chain, scan, leaves_from}
use crisp_qes.V3.Server.{
  Payload, reply_with, RegisterRequest, Reply, State, Config, Services, index_leaves, state_of,
  resync_from, resync_if_stale,
}
use crisp_qes.V3.Server.Register.{hexes, registered, register}
use crisp_qes.V3.Merkle.{AppendResult}
use crisp_qes.Oprf.Service.{RootUpdate}
use crisp_qes.V3.Server.Register.Outcomes.{IsSettled, register-IsSettled}
use crisp_qes.V3.Server.Indexed.{append_inv}

-- The root is, but for the case of letters, the text of a root that was read.
abbrev pub IsRootOf : Result String Text → ℕ → Type 0
IsRootOf read root =
    (live : Text) × (t : Text) × (read ≡ ok live)
    × (bigint_to_hex32 root ≡ ok t)
    × (bytes_eq (lower t) (lower live) ≡ true)

-- The reply carries the update that the attester is given to sign, and spells its two roots.
abbrev pub IsSigned : Reply → RootUpdate → Type 0
IsSigned r signed =
    (i : ℕ) × (path : List Text) × (bits : List ℕ) × (old_root : Text) × (new_root : Text)
    × (commitment : Text) × (r
        ≡ reply_with 200 (Payload.registered i path bits old_root new_root commitment signed))
    × (bigint_to_hex32 signed.old_root ≡ ok old_root)
    × (bigint_to_hex32 signed.new_root ≡ ok new_root)
    × (signed.new_commitments ≡ hex_to_bigint commitment ∷ [])

module _ (bb : List (List ℕ) → ℕ → List ℕ) where
  sync_root :
      (chain : Chain) (from_block : ℕ) (s : Synced)
      → sync_merkle_from_chain bb chain from_block ≡ ok s
      → IsRootOf chain.enrollment_root s.index.root
  unfolding sync_merkle_from_chain
  sync_root chain from_block s h =
      let (live, read, h₁) = >>=-eq-ok chain.enrollment_root _ h in
      let (n, _, h₂) = >>=-eq-ok chain.leaf_count _ h₁ in
      let (latest, _, h₃) = >>=-eq-ok chain.block_number _ h₂ in
      let (entries, _, h₄) = >>=-eq-ok (scan chain (latest + 1) from_block latest []) _ h₃ in
      let (leaves, _, h₅) = >>=-eq-ok (leaves_from entries n 0) _ h₄ in
      let (index, made, h₆) = >>=-eq-ok (from_leaves bb leaves) _ h₅ in
      let (root, spelled, h₇) = >>=-eq-ok (bigint_to_hex32 index.root) _ h₆ in
      let (agree, same) = guard-inv (bytes_eq (lower root) (lower live)) _ _ h₇ in
      let e : record { index = index; leaves = leaves; onchain_root = live } ≡ s =
        ok-injective same in
      (live, root, read, rw (ap (λ (x : Synced). x.index) e) at spelled, agree)

module _ (cfg : Config) (sv : Services) where
  resync_from_root :
      (onchain : Result String Text) (chain : Chain) (b : ℕ) (st st' : State)
      → resync_from cfg sv onchain chain st (some b) ≡ ok st'
      → IsRootOf onchain st'.merkle.root ⊎ IsRootOf chain.enrollment_root st'.merkle.root
  unfolding state_of
  resync_from_root onchain chain b st st' h =
      let (live, read, h₁) = >>=-eq-ok onchain _ h in
      let (root, spelled, h₂) = >>=-eq-ok (bigint_to_hex32 st.merkle.root) _ h₁ in
      elim (Bool-cases (bytes_eq (lower root) (lower live))) [
        | inl current ↦
            let e : st ≡ st' = ok-injective (rw current at h₂) in
            subst
              (λ (s : State).
                IsRootOf onchain s.merkle.root ⊎ IsRootOf chain.enrollment_root s.merkle.root)
              e (inl (live, root, read, spelled, current))
        | inr stale ↦
            let (s, synced, h₃) =
              >>=-eq-ok (sync_merkle_from_chain sv.bb chain b) _ (rw stale at h₂) in
            let (entries, _, same) = >>=-eq-ok (index_leaves s.leaves 0 []) _ h₃ in
            let e : record { merkle = s.index; leaf_index_of = entries } ≡ st' =
              ok-injective same in
            subst
              (λ (x : State).
                IsRootOf onchain x.merkle.root ⊎ IsRootOf chain.enrollment_root x.merkle.root)
              e (inr (sync_root sv.bb chain b s synced))
      ]

  registered-IsSigned :
      (commitment : Text) (result : AppendResult) (r : Reply)
      → registered cfg sv commitment result ≡ ok r
      → (signed : RootUpdate) × IsSigned r signed × (signed.old_root ≡ result.old_root)
  unfolding registered
  registered-IsSigned commitment result r h =
      let (path, _, h₁) = >>=-eq-ok (hexes result.path) _ h in
      let (old_root, spelled, h₂) = >>=-eq-ok (bigint_to_hex32 result.old_root) _ h₁ in
      let (new_root, spelled', e) = >>=-eq-ok (bigint_to_hex32 result.new_root) _ h₂ in
      let signed : RootUpdate = record {
        old_root = result.old_root;
        new_root = result.new_root;
        new_commitments = hex_to_bigint commitment ∷ [];
      } in
      (
        signed,
        (
          result.leaf_index,
          path,
          result.indices,
          old_root,
          new_root,
          commitment,
          sym (ok-injective e),
          spelled,
          spelled',
          refl,
        ),
        refl,
      )

  -- Where the service follows a chain, the update that an enrollment answered 200 gives the attester
  -- to sign starts from a root that the chain gave during the request: its old root is, but for the
  -- case of letters, spelled as that one. The reply carries the update and spells its two roots, and
  -- the update inserts the commitment of the reply alone.
  pub register_old_root :
      (onchain : Result String Text) (chain : Chain) (b : ℕ) (st : State) (req : RegisterRequest)
      (r : Reply) (st' : State)
      → cfg.from_block ≡ some b
      → register cfg sv onchain chain st req ≡ (ok r, st')
      → r.code ≡ 200
      → (signed : RootUpdate) × IsSigned r signed
        × (IsRootOf onchain signed.old_root ⊎ IsRootOf chain.enrollment_root signed.old_root)
  unfolding resync_if_stale
  register_old_root onchain chain b st req r st' follows h code =
      elim (register-IsSettled cfg sv onchain chain st req r st' h) [
        | IsSettled.refused other _ ↦ absurd (other code)
        | IsSettled.enrolled _ e ↦
            let (_, _, _, _, old) =
              append_inv sv.bb e.synced.merkle st'.merkle (hex_to_bigint e.body.commitment) e.result
                e.grown in
            let (signed, carried, same) =
              registered-IsSigned e.body.commitment e.result r e.reply in
            (
              signed,
              carried,
              rw (same, old)
                  (resync_from_root onchain chain b st e.synced (
                    subst (λ o. resync_from cfg sv onchain chain st o ≡ ok e.synced) follows
                      e.in_sync)),
            )
      ]
