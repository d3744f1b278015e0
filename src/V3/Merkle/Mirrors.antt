-- ===== src/V3/Merkle/Mirrors.antt =====
-- `append` and `proofAt` of the two services' trees give the same answers.
use crisp_qes.Common.{
  ◌^◌, ℕ, ◌<◌, ◌≤◌, ◌≡◌, refl, sym, ap, ◌∙◌, false, List, [], ◌∷◌, ◌++◌, ok, fail, ok-injective,
  length, length-append, get_or, arith, ltb, lt→ltb,
}
use crisp_qes.Tree
use crisp_qes.Tree.{BuiltTree, path_from}
use crisp_qes.Tree.Levels.{layers_from-AreLayers}
use crisp_qes.Tree.Inclusion.{
  prove_inclusion-zeros, path_from-IsBit, build_tree_inv, compute_root-prove_inclusion,
}
use crisp_qes.MerkleIndex
use crisp_qes.MerkleIndex.{as_bit}
use crisp_qes.MerkleIndex.Laws.{
  IsIndexOf, IsIndexOf-leaves, map-as_bit, append_eq, append_inv, rebuild-build_tree,
  get_or-eq-node,
}
use crisp_qes.V3.Merkle.{
  MerkleIndex, MerkleProof, AppendResult, ProofResult, compute_root, proof_from, append, proof_at,
}
use crisp_qes.V3.Merkle.Same.{compute_root-build_tree, proof_from-build_tree}

module _ (bb : List (List ℕ) → ℕ → List ℕ) where
  -- The two indices hold the same tree.
  pub record Mirrors (idx : MerkleIndex) (v2 : MerkleIndex.MerkleIndex) : Type 0 where
    pub index : IsIndexOf bb idx.leaves v2
    pub zeros : Tree.zero_hashes bb 20 ≡ ok idx.zeros
    pub root : idx.root ≡ v2.root

  -- The two results name the same leaf, roots, path and count.
  pub record SameAppend (r : AppendResult) (r2 : MerkleIndex.AppendResult) : Type 0 where
    pub leaf_index : r.leaf_index ≡ r2.leaf_index
    pub leaf_count : r.leaf_count ≡ r2.leaf_count
    pub old_root : r.old_root ≡ r2.old_root
    pub new_root : r.new_root ≡ r2.new_root
    pub path : r.path ≡ r2.path
    pub indices : r.indices ≡ r2.indices

  append_built :
      (idx : MerkleIndex) (leaf root : ℕ) (p : MerkleProof)
      → compute_root bb idx.zeros (idx.leaves ++ leaf ∷ []) ≡ ok root
      → proof_from bb 20 0 idx.zeros (idx.leaves ++ leaf ∷ []) (length idx.leaves) ≡ ok p
      → append bb idx leaf ≡ (
        ok (record {
          leaf_index = length idx.leaves;
          old_root = idx.root;
          new_root = root;
          path = p.path;
          indices = p.indices;
          leaf_count = length (idx.leaves ++ leaf ∷ []);
        }),
        record { leaves = idx.leaves ++ leaf ∷ []; zeros = idx.zeros; root = root },
      )
  unfolding append
  append_built idx leaf root p rooted proved = rw (rooted, proved) refl

  -- If the index of packages/oprf appends the leaf, then so does the index of the threshold service
  -- that holds the same tree, with the same result, and they hold the same tree again.
  pub append-Mirrors :
      (idx : MerkleIndex) (v2 v2' : MerkleIndex.MerkleIndex) (leaf : ℕ)
      (r2 : MerkleIndex.AppendResult)
      → Mirrors idx v2
      → MerkleIndex.append bb v2 leaf ≡ ok (v2', r2)
      → (r : AppendResult) × (idx' : MerkleIndex) × (append bb idx leaf ≡ (ok r, idx'))
        × (idx'.leaves ≡ idx.leaves ++ leaf ∷ [])
        × Mirrors idx' v2'
        × SameAppend r r2
  append-Mirrors idx v2 v2' leaf r2 m h =
      let all = idx.leaves ++ leaf ∷ [] in
      let n = length idx.leaves in
      let a = append_inv bb idx.leaves leaf v2 v2' r2 m.index h in
      let t = a.index.tree in
      let built : Tree.build_tree bb all 20 ≡ ok t = a.index.built in
      let p : MerkleProof = record {
        path = (path_from 20 0 idx.zeros t.layers n).path;
        indices = (path_from 20 0 idx.zeros t.layers n).indices;
      } in
      let idx' : MerkleIndex = record { leaves = all; zeros = idx.zeros; root = t.root } in
      let same_result = result_of idx v2 leaf t m built in
      let (_, fits, _, _, _) = build_tree_inv bb all 20 t built in
      let small : n < 2 ^ 31 = omega (arith, fits, length-append idx.leaves (leaf ∷ [])) in
      let e : ◌≡◌ {A = MerkleIndex.MerkleIndex × MerkleIndex.AppendResult} _ (v2', r2) =
        ok-injective (sym same_result ∙ h) in
      let e_r = ap (λ (q : MerkleIndex.MerkleIndex × MerkleIndex.AppendResult). q.1) e in
      (
        record {
          leaf_index = n;
          old_root = idx.root;
          new_root = t.root;
          path = p.path;
          indices = p.indices;
          leaf_count = length all;
        },
        idx',
        append_built idx leaf t.root p (compute_root-build_tree bb all idx.zeros t m.zeros built)
            (proof_from-build_tree bb all idx.zeros t n small m.zeros built),
        refl,
        record { index = a.index; zeros = m.zeros; root = sym a.index.root },
        record {
          leaf_index = ap (λ (q : MerkleIndex.AppendResult). q.leaf_index) e_r;
          leaf_count = ap (λ (q : MerkleIndex.AppendResult). q.leaf_count) e_r;
          old_root = m.root ∙ ap (λ (q : MerkleIndex.AppendResult). q.old_root) e_r;
          new_root = ap (λ (q : MerkleIndex.AppendResult). q.new_root) e_r;
          path = ap (λ (q : MerkleIndex.AppendResult). q.path) e_r;
          indices = ap (λ (q : MerkleIndex.AppendResult). q.indices) e_r;
        },
      )
    where
      result_of :
          (idx : MerkleIndex) (v2 : MerkleIndex.MerkleIndex) (leaf : ℕ) (t : BuiltTree)
          → Mirrors idx v2
          → Tree.build_tree bb (idx.leaves ++ leaf ∷ []) 20 ≡ ok t
          → MerkleIndex.append bb v2 leaf
            ≡ ok (
              record {
                layers = t.layers;
                root = t.root;
                leaf_count = length (idx.leaves ++ leaf ∷ []);
              },
              record {
                root = t.root;
                leaf_count = length (idx.leaves ++ leaf ∷ []);
                leaf_index = length idx.leaves;
                old_root = v2.root;
                new_root = t.root;
                path = (path_from 20 0 idx.zeros t.layers (length idx.leaves)).path;
                indices = (path_from 20 0 idx.zeros t.layers (length idx.leaves)).indices;
              },
            )
      result_of idx v2 leaf t m built =
          let all = idx.leaves ++ leaf ∷ [] in
          let n = length idx.leaves in
          let (zeros', _, _, ls, _) = build_tree_inv bb all 20 t built in
          let a = layers_from-AreLayers bb 20 0 zeros' all t.layers ls in
          let proved = prove_inclusion-zeros bb 20 n idx.zeros t.layers a.size m.zeros in
          let bits = map-as_bit _ (path_from-IsBit 20 0 idx.zeros t.layers n) in
          let v2' : MerkleIndex.MerkleIndex = record {
            layers = t.layers;
            root = t.root;
            leaf_count = length all;
          } in
          rw bits at (
            append_eq bb v2 v2' idx.leaves leaf n (path_from 20 0 idx.zeros t.layers n)
              (IsIndexOf-leaves bb idx.leaves v2 m.index) (rebuild-build_tree bb all t built)
              (omega (arith, length-append idx.leaves (leaf ∷ []))) proved)

  -- A position of the leaves is answered with a path that takes the leaf to the root, and one past
  -- them is refused.
  pub proof_at-Mirrors :
      (idx : MerkleIndex) (v2 : MerkleIndex.MerkleIndex) (i : ℕ)
      → Mirrors idx v2
      → (i < length idx.leaves
          → (r : ProofResult) × (proof_at bb idx i ≡ ok r)
            × (r.leaf_index ≡ i)
            × (r.root ≡ idx.root)
            × (Tree.compute_root bb (get_or idx.leaves i 0) r.path r.indices ≡ ok idx.root))
        × (length idx.leaves ≤ i → proof_at bb idx i ≡ fail "leafIndex out of range")
  unfolding proof_at
  proof_at-Mirrors idx v2 i m =
      let t = m.index.tree in
      let (zeros', fits, _, ls, _) = build_tree_inv bb idx.leaves 20 t m.index.built in
      (
        λ lt.
            let a = layers_from-AreLayers bb 20 0 zeros' idx.leaves t.layers ls in
            let small : i < 2 ^ 31 = omega (arith, fits, lt) in
            let (proof, proved, _, walked) =
              compute_root-prove_inclusion bb idx.leaves 20 i t m.index.built
                (omega (arith, fits, lt)) small in
            let e : path_from 20 0 idx.zeros t.layers i ≡ proof =
              ok-injective
                (sym (prove_inclusion-zeros bb 20 i idx.zeros t.layers a.size m.zeros) ∙ proved) in
            let p = path_from 20 0 idx.zeros t.layers i in
            (
              record { leaf_index = i; path = p.path; indices = p.indices; root = idx.root },
              rw
                  (
                    lt→ltb i (length idx.leaves) lt,
                    proof_from-build_tree bb idx.leaves idx.zeros t i small m.zeros m.index.built,
                  )
                  refl,
              refl,
              refl,
              rw (e, get_or-eq-node idx.leaves i) (walked ∙ ap ok (sym m.index.root ∙ sym m.root)),
            ),
        λ le. let outside : ltb i (length idx.leaves) ≡ false = ground arith in rw outside refl,
      )
