-- ===== src/V3/Server/Indexed.antt =====
-- The tree and the map of the service agree.
use crisp_qes.Common.{
  ℕ, zero, suc, ◌+◌, ◌≡◌, refl, sym, subst, ap, ◌∙◌, Bool-cases, ◌⊎◌, inl, inr, some, List, [], ◌∷◌,
  ◌++◌, append_assoc, append-nil, String, Result, ok, fail, Result-cases, guard-inv, >>=-eq-ok,
  ok-injective, arith, length, length-append, get_elem?, get_or, get_elem?-append_last, bytes_eq,
  bytes_eq_refl, bytes_eq_sound, ◌==◌,
}
use crisp_qes.Common.Text.{Text, lower, hex_to_bigint}
use crisp_qes.Common.Text.Hex.{bigint_to_hex32}
use crisp_qes.V3.Gate.Bound.{bigint_to_hex32_inv}
use crisp_qes.V3.Merkle
use crisp_qes.V3.Merkle.{
  MerkleIndex, AppendResult, MerkleProof, compute_root, zero_hashes, proof_from, append_proof,
  append_rooted, append, from_leaves, tree_depth,
}
use crisp_qes.V3.ChainSync.{Chain, Synced, sync_merkle_from_chain, scan, leaves_from}
use crisp_qes.V3.Server.{
  State, Config, Services, LeafIndexOf, get_index, set_index, index_leaves, state_of,
}

-- A key of the map is a text of the leaf at its position, and each leaf is the value of a key.
pub record Names (leaves : List ℕ) (entries : LeafIndexOf) : Type 0 where
  pub leaf :
      (t : Text) (i : ℕ)
      → get_index t entries ≡ some i
      → get_elem? leaves i ≡ some (hex_to_bigint t)
  pub key :
      (i v : ℕ)
      → get_elem? leaves i ≡ some v
      → (t : Text) × (j : ℕ) × (get_index t entries ≡ some j) × (hex_to_bigint t ≡ v)

get_elem?-append_left :
    (xs : List ℕ) (x i v : ℕ) → get_elem? xs i ≡ some v → get_elem? (xs ++ x ∷ []) i ≡ some v
get_elem?-append_left (y ∷ xs) x zero v h = h
get_elem?-append_left (y ∷ xs) x (suc i) v h = get_elem?-append_left xs x i v h
get_elem?-append_left [] x i v h = cc

get_elem?-append_inv :
    (xs : List ℕ) (x i v : ℕ)
    → get_elem? (xs ++ x ∷ []) i ≡ some v
    → (get_elem? xs i ≡ some v) ⊎ (x ≡ v)
get_elem?-append_inv (y ∷ xs) x zero v h = inl h
get_elem?-append_inv (y ∷ xs) x (suc i) v h = get_elem?-append_inv xs x i v h
get_elem?-append_inv [] x zero v h = inr cc
get_elem?-append_inv [] x (suc i) v h = cc

pub Names-append :
    (leaves : List ℕ) (entries : LeafIndexOf) (t : Text)
    → Names leaves entries
    → Names (leaves ++ hex_to_bigint t ∷ []) (set_index t (length leaves) entries)
unfolding get_index
Names-append leaves entries t n = record { leaf = leaf; key = key }
  where
    leaf :
        (u : Text) (i : ℕ)
        → get_index u (set_index t (length leaves) entries) ≡ some i
        → get_elem? (leaves ++ hex_to_bigint t ∷ []) i ≡ some (hex_to_bigint u)
    leaf u i = elim (Bool-cases (bytes_eq t u)) [
      | inl same ↦ rw same λ h.
          let e : t ≡ u = bytes_eq_sound t u same in
          let at : length leaves ≡ i = cc in
          rw (← at, ← e) (get_elem?-append_last leaves (hex_to_bigint t))
      | inr other ↦
          rw other
            λ h. get_elem?-append_left leaves (hex_to_bigint t) i (hex_to_bigint u) (n.leaf u i h)
    ]

    key :
        (i v : ℕ)
        → get_elem? (leaves ++ hex_to_bigint t ∷ []) i ≡ some v
        → (u : Text) × (j : ℕ) × (get_index u (set_index t (length leaves) entries) ≡ some j)
          × (hex_to_bigint u ≡ v)
    key i v h = elim (get_elem?-append_inv leaves (hex_to_bigint t) i v h) [
      | inr new ↦ (t, length leaves, (rw (bytes_eq_refl t) refl), new)
      | inl old ↦
          let (u, j, found, value) = n.key i v old in
          elim (Bool-cases (bytes_eq t u)) [
            | inl same ↦ (u, length leaves, rw same refl, value)
            | inr other ↦ (u, j, rw other found, value)
          ]
    ]

index_leaves-Names :
    (leaves old : List ℕ) (entries entries' : LeafIndexOf)
    → Names old entries
    → index_leaves leaves (length old) entries ≡ ok entries'
    → Names (old ++ leaves) entries'
unfolding index_leaves
index_leaves-Names [] old entries entries' n h =
    let e : entries ≡ entries' = ok-injective h in rw (← e, append-nil) n
index_leaves-Names (leaf ∷ leaves) old entries entries' n h =
    let (t, spelled, later) = >>=-eq-ok (bigint_to_hex32 leaf) _ h in
    let value : hex_to_bigint t ≡ leaf = bigint_to_hex32_inv leaf t spelled in
    let grown : Names (old ++ leaf ∷ []) (set_index t (length old) entries) =
      rw value at (Names-append old entries t n) in
    let size : length (old ++ leaf ∷ []) ≡ suc (length old) =
      length-append old (leaf ∷ []) ∙ omega arith in
    rw append_assoc at (
      index_leaves-Names leaves (old ++ leaf ∷ []) (set_index t (length old) entries) entries' grown
        (subst (λ k. index_leaves leaves k (set_index t (length old) entries) ≡ ok entries')
          (sym size) later))

pub index_leaves_inv :
    (leaves : List ℕ) (entries : LeafIndexOf)
    → index_leaves leaves 0 [] ≡ ok entries
    → Names leaves entries
unfolding get_index
index_leaves_inv leaves entries h =
    index_leaves-Names leaves [] [] entries (record { leaf = λ t i e. cc; key = λ i v e. cc }) h

module _ (bb : List (List ℕ) → ℕ → List ℕ) where
  -- The root is that of the leaves, and the map names them.
  pub record IsIndexed (st : State) : Type 0 where
    pub zeros : zero_hashes bb tree_depth ≡ ok st.merkle.zeros
    pub root : compute_root bb st.merkle.zeros st.merkle.leaves ≡ ok st.merkle.root
    pub names : Names st.merkle.leaves st.leaf_index_of

  pub from_leaves_inv :
      (leaves : List ℕ) (idx : MerkleIndex)
      → from_leaves bb leaves ≡ ok idx
      → (idx.leaves ≡ leaves)
        × (zero_hashes bb tree_depth ≡ ok idx.zeros)
        × (compute_root bb idx.zeros leaves ≡ ok idx.root)
  unfolding from_leaves
  from_leaves_inv leaves idx h =
      let (zeros, zs, h₁) = >>=-eq-ok (zero_hashes bb tree_depth) _ h in
      let (_, h₂) = guard-inv (get_or zeros tree_depth 0 == Merkle.genesis_root) _ _ h₁ in
      let (root, rooted, same) = >>=-eq-ok (compute_root bb zeros leaves) _ h₂ in
      let e : record { leaves = leaves; zeros = zeros; root = root } ≡ idx = ok-injective same in
      (
        ap (λ (i : MerkleIndex). i.leaves) (sym e),
        zs ∙ ap (λ (i : MerkleIndex). ok i.zeros) e,
        rw (ap (λ (i : MerkleIndex). i.zeros) e, ap (λ (i : MerkleIndex). i.root) e) at rooted,
      )

  pub append_inv :
      (idx idx' : MerkleIndex) (leaf : ℕ) (r : AppendResult)
      → append bb idx leaf ≡ (ok r, idx')
      → (idx'.leaves ≡ idx.leaves ++ leaf ∷ [])
        × (idx'.zeros ≡ idx.zeros)
        × (compute_root bb idx.zeros (idx.leaves ++ leaf ∷ []) ≡ ok idx'.root)
        × (r.leaf_index ≡ length idx.leaves)
        × (r.old_root ≡ idx.root)
  unfolding append
  append_inv idx idx' leaf r h =
      let leaves = idx.leaves ++ leaf ∷ [] in
      elim (Result-cases (compute_root bb idx.zeros leaves)) [
        | inr (e, failed) ↦
            let both = rw failed at h in
            let clash : fail e ≡ ok r =
              ap (λ (o : Result String AppendResult × MerkleIndex). o.0) both in
            cc
        | inl (root, rooted) ↦
            let both = rw rooted at h in
            let idx'' : MerkleIndex = record { leaves = leaves; zeros = idx.zeros; root = root } in
            let after : idx'' ≡ idx' =
              ap (λ (o : Result String AppendResult × MerkleIndex). o.1) both in
            let proved = ap (λ (o : Result String AppendResult × MerkleIndex). o.0) both in
            let (p, _, same) =
              >>=-eq-ok (proof_from bb tree_depth 0 idx.zeros leaves (length idx.leaves)) _
                proved in
            (
              ap (λ (i : MerkleIndex). i.leaves) (sym after),
              ap (λ (i : MerkleIndex). i.zeros) (sym after),
              rooted ∙ ap (λ (i : MerkleIndex). ok i.root) after,
              ap (λ (q : AppendResult). q.leaf_index) (sym (ok-injective same)),
              ap (λ (q : AppendResult). q.old_root) (sym (ok-injective same)),
            )
      ]

  pub IsIndexed-from_leaves :
      (leaves : List ℕ) (st : State)
      → from_leaves bb leaves ≡ ok st.merkle
      → index_leaves leaves 0 [] ≡ ok st.leaf_index_of
      → IsIndexed st
  IsIndexed-from_leaves leaves st made indexed =
      let (same, zs, rooted) = from_leaves_inv leaves st.merkle made in
      record {
        zeros = zs;
        root = rw (← same) at rooted;
        names =
            subst (λ ls. Names ls st.leaf_index_of) (sym same)
              (index_leaves_inv leaves st.leaf_index_of indexed);
      }

  -- What a synchronisation has checked.
  pub sync_inv :
      (chain : Chain) (from_block : ℕ) (s : Synced)
      → sync_merkle_from_chain bb chain from_block ≡ ok s
      → from_leaves bb s.leaves ≡ ok s.index
  unfolding sync_merkle_from_chain
  sync_inv chain from_block s h =
      let (onchain_root, _, h₁) = >>=-eq-ok chain.enrollment_root _ h in
      let (n, _, h₂) = >>=-eq-ok chain.leaf_count _ h₁ in
      let (latest, _, h₃) = >>=-eq-ok chain.block_number _ h₂ in
      let (entries, _, h₄) = >>=-eq-ok (scan chain (latest + 1) from_block latest []) _ h₃ in
      let (leaves, _, h₅) = >>=-eq-ok (leaves_from entries n 0) _ h₄ in
      let (index, made, h₆) = >>=-eq-ok (from_leaves bb leaves) _ h₅ in
      let (root, _, h₇) = >>=-eq-ok (bigint_to_hex32 index.root) _ h₆ in
      let (_, same) = guard-inv (bytes_eq (lower root) (lower onchain_root)) _ _ h₇ in
      let e : record { index = index; leaves = leaves; onchain_root = onchain_root } ≡ s =
        ok-injective same in
      rw (ap (λ (x : Synced). x.leaves) e, ap (λ (x : Synced). x.index) e) at made

module _ (cfg : Config) (sv : Services) where
  pub state_of-IsIndexed :
      (chain : Chain) (from_block : ℕ) (s : Synced) (st : State)
      → sync_merkle_from_chain sv.bb chain from_block ≡ ok s
      → state_of cfg sv s ≡ ok st
      → IsIndexed sv.bb st
  unfolding state_of
  state_of-IsIndexed chain from_block s st synced h =
      let (entries, indexed, same) = >>=-eq-ok (index_leaves s.leaves 0 []) _ h in
      let e : record { merkle = s.index; leaf_index_of = entries } ≡ st = ok-injective same in
      IsIndexed-from_leaves sv.bb s.leaves st
        (sync_inv sv.bb chain from_block s synced ∙ ap (λ (x : State). ok x.merkle) e)
        (indexed ∙ ap (λ (x : State). ok x.leaf_index_of) e)
