-- ===== src/V3/Server/Preserved.antt =====
-- The agreement of the tree and the map, from the start on and after every reply.
use crisp_qes.Common.{
  ℕ, ◌≡◌, refl, ◌∷◌, ◌++◌, length, All-append, Result-cases, Option-cases, sym, subst, ap, ◌∙◌,
  Bool-cases, inl, inr, Option, none, some, List, [], String, Result, ok, ◌>>=◌, >>=-eq-ok,
  ok-injective, bytes_eq,
}
use crisp_qes.Common.Text.{Text, lower, hex_to_bigint}
use crisp_qes.Common.Text.Hex.{bigint_to_hex32}
use crisp_qes.Pedersen.{bytes_be_to_bigint}
use crisp_qes.Tree.Total.{IsField}
use crisp_qes.V3.Merkle.{MerkleIndex, AppendResult, tree_depth, from_leaves, append}
use crisp_qes.V3.Merkle.Fields.{proof_from_total, compute_root_total, zeros-IsField}
use crisp_qes.V3.Merkle.Guarded.{compute_root-IsField}
use crisp_qes.V3.ChainSync.{Chain, sync_merkle_from_chain}
use crisp_qes.V3.Server.{
  RegisterRequest, State, get_index, set_index, Config, Services, index_leaves, state_of, boot_from,
  boot, resync_from, resync_if_stale,
}
use crisp_qes.V3.Server.Register.{Stop, admit, enroll, register}
use crisp_qes.V3.Server.Register.Admission.{admit-IsAdmitted}
use crisp_qes.V3.Server.Complete.{validate-IsField}
use crisp_qes.V3.Server.Indexed.{
  Names-append, IsIndexed, IsIndexed-from_leaves, append_inv, state_of-IsIndexed,
}

module _ (cfg : Config) (sv : Services) where
  synced_inv :
      (chain : Chain) (from_block : ℕ) (st : State)
      → (sync_merkle_from_chain sv.bb chain from_block >>= state_of cfg sv) ≡ ok st
      → IsIndexed sv.bb st
  synced_inv chain from_block st h =
      let (s, synced, made) = >>=-eq-ok (sync_merkle_from_chain sv.bb chain from_block) _ h in
      state_of-IsIndexed cfg sv chain from_block s st synced made

  boot_from-IsIndexed :
      (chain : Chain) (leaves : List ℕ) (from_block : Option ℕ) (st : State)
      → boot_from cfg sv chain leaves from_block ≡ ok st
      → IsIndexed sv.bb st
  boot_from-IsIndexed chain leaves (some b) st h = synced_inv chain b st h
  boot_from-IsIndexed chain leaves none st h =
      let (merkle, made, h₁) = >>=-eq-ok (from_leaves sv.bb leaves) _ h in
      let (entries, indexed, same) = >>=-eq-ok (index_leaves leaves 0 []) _ h₁ in
      let e : record { merkle = merkle; leaf_index_of = entries } ≡ st = ok-injective same in
      IsIndexed-from_leaves sv.bb leaves st (made ∙ ap (λ (x : State). ok x.merkle) e)
        (indexed ∙ ap (λ (x : State). ok x.leaf_index_of) e)

  -- The service starts with a tree and a map that agree, from the chain or from given leaves.
  pub boot-IsIndexed :
      (chain : Chain) (leaves : List ℕ) (st : State)
      → boot cfg sv chain leaves ≡ ok st
      → IsIndexed sv.bb st
  unfolding boot
  boot-IsIndexed chain leaves st h = boot_from-IsIndexed chain leaves cfg.from_block st h

  resync_from-IsIndexed :
      (onchain : Result String Text) (chain : Chain) (from_block : Option ℕ) (st st' : State)
      → IsIndexed sv.bb st
      → resync_from cfg sv onchain chain st from_block ≡ ok st'
      → IsIndexed sv.bb st'
  resync_from-IsIndexed onchain chain none st st' i h =
      subst (λ s. IsIndexed sv.bb s) (ok-injective h) i
  resync_from-IsIndexed onchain chain (some b) st st' i h =
      let (live, _, h₁) = >>=-eq-ok onchain _ h in
      let (root, _, h₂) = >>=-eq-ok (bigint_to_hex32 st.merkle.root) _ h₁ in
      elim (Bool-cases (bytes_eq (lower root) (lower live))) [
        | inl current ↦ subst (λ s. IsIndexed sv.bb s) (ok-injective (rw current at h₂)) i
        | inr stale ↦ synced_inv chain b st' (rw stale at h₂)
      ]

  pub resync_if_stale-IsIndexed :
      (onchain : Result String Text) (chain : Chain) (st st' : State)
      → IsIndexed sv.bb st
      → resync_if_stale cfg sv onchain chain st ≡ ok st'
      → IsIndexed sv.bb st'
  unfolding resync_if_stale
  resync_if_stale-IsIndexed onchain chain st st' i h =
      resync_from-IsIndexed onchain chain cfg.from_block st st' i h

  -- An append that returns, with the position in the map.
  grown-IsIndexed :
      (st : State) (commitment : Text) (r : AppendResult) (idx : MerkleIndex)
      → IsIndexed sv.bb st
      → append sv.bb st.merkle (hex_to_bigint commitment) ≡ (ok r, idx)
      → IsIndexed sv.bb (record {
        merkle = idx;
        leaf_index_of = set_index commitment r.leaf_index st.leaf_index_of;
      })
  grown-IsIndexed st commitment r idx k grown =
      let (leaves, zeros, rooted, at, _) =
        append_inv sv.bb st.merkle idx (hex_to_bigint commitment) r grown in
      record {
        zeros = k.zeros ∙ ap ok (sym zeros);
        root = rw (zeros, leaves) rooted;
        names = rw (leaves, at) (Names-append st.merkle.leaves st.leaf_index_of commitment k.names);
      }

  module _
      (fields : (buffers : List (List ℕ)) (i : ℕ)
        → IsField (bytes_be_to_bigint (sv.bb buffers i))) where
    append_returns :
        (st : State) (leaf : ℕ)
        → IsIndexed sv.bb st
        → IsField leaf
        → (r : AppendResult) × (idx : MerkleIndex) × (append sv.bb st.merkle leaf ≡ (ok r, idx))
    unfolding append
    append_returns st leaf k small =
        let idx = st.merkle in
        let hz = zeros-IsField sv.bb fields idx.zeros k.zeros in
        let hl = compute_root-IsField sv.bb idx.zeros idx.leaves idx.root k.root in
        let hl' = All-append IsField idx.leaves (leaf ∷ []) hl (small, tt) in
        let (root, rooted, _) =
          compute_root_total sv.bb fields idx.zeros (idx.leaves ++ leaf ∷ []) hz hl' in
        let (p, proved, _) =
          proof_from_total sv.bb fields tree_depth 0 idx.zeros (idx.leaves ++ leaf ∷ [])
            (length idx.leaves) hz hl' in
        (
          record {
            leaf_index = length idx.leaves;
            old_root = idx.root;
            new_root = root;
            path = p.path;
            indices = p.indices;
            leaf_count = length (idx.leaves ++ leaf ∷ []);
          },
          record { leaves = idx.leaves ++ leaf ∷ []; zeros = idx.zeros; root = root },
          rw (rooted, proved) refl,
        )

    -- An enrollment, whatever it answers or throws, leaves a tree and a map that agree, if they did
    -- before.
    pub register-IsIndexed :
        (onchain : Result String Text) (chain : Chain) (st : State) (req : RegisterRequest)
        → IsIndexed sv.bb st
        → IsIndexed sv.bb (register cfg sv onchain chain st req).1
    unfolding register enroll
    register-IsIndexed onchain chain st req i = elim (Result-cases (admit cfg sv req)) [
      | inr (Stop.answered q, stop) ↦ rw stop i
      | inr (Stop.thrown t, stop) ↦ rw stop i
      | inl (body, admitted) ↦ elim (Result-cases (resync_if_stale cfg sv onchain chain st)) [
        | inr (t, stale) ↦ rw (admitted, stale) i
        | inl (synced, in_sync) ↦
            let k = resync_if_stale-IsIndexed onchain chain st synced i in_sync in
            elim (Option-cases (get_index body.commitment synced.leaf_index_of)) [
              | inr (j, old) ↦ rw (admitted, in_sync, old) k
              | inl fresh ↦
                  let small =
                    validate-IsField req body
                      (admit-IsAdmitted cfg sv req body admitted).validated in
                  let (r, idx, grown) =
                    append_returns synced (hex_to_bigint body.commitment) k small in
                  rw (admitted, in_sync, fresh, grown)
                    (grown-IsIndexed synced body.commitment r idx k grown)
            ]
      ]
    ]
