-- ===== src/V3/Merkle/Same.antt =====
-- The tree of the threshold service and that of packages/oprf/src/merkle.ts give the same answers.
use crisp_qes.Common.{
  ℕ, ◌+◌, ◌^◌, ◌<◌, ◌≤◌, ◌≡◌, refl, sym, ap, ◌∙◌, List, [], ◌∷◌, ok, ok-injective, length, get_or,
  arith,
}
use crisp_qes.Tree
use crisp_qes.Tree.{BuiltTree, path_from, top_root}
use crisp_qes.Tree.Levels.{layers_from-AreLayers, layers_from-empty}
use crisp_qes.Tree.Inclusion.{build_tree_inv}
use crisp_qes.V3.Merkle.{compute_root, proof_from}
use crisp_qes.V3.Merkle.Levels.{layers_from-filled, root_from-layers_from, proof_from-path_from}

module _ (bb : List (List ℕ) → ℕ → List ℕ) where
  -- What `buildTree` has built, over the zero hashes that the index keeps.
  layers_of :
      (leaves zeros : List ℕ) (t : BuiltTree)
      → Tree.zero_hashes bb 20 ≡ ok zeros
      → Tree.build_tree bb leaves 20 ≡ ok t
      → (Tree.layers_from bb 20 0 zeros leaves ≡ ok t.layers)
        × (length leaves ≤ 2 ^ 20)
        × (top_root (get_or zeros 20 0) (get_or t.layers 20 []) ≡ t.root)
  layers_of leaves zeros t zs h =
      let (zeros', fits, zs', ls, root) = build_tree_inv bb leaves 20 t h in
      let same : zeros' ≡ zeros = ok-injective (sym zs' ∙ zs) in
      (rw same at ls, fits, rw same at root)

  only_node :
      (z : ℕ) (top : List ℕ) → 0 < length top → length top ≤ 1 → get_or top 0 0 ≡ top_root z top
  unfolding top_root
  only_node z [] lt le = absurd (omega (arith, lt))
  only_node z (x ∷ []) lt le = refl
  only_node z (x ∷ y ∷ top) lt le = absurd (omega (arith, le))

  -- For leaves that `buildTree` accepts, the root is the same.
  pub compute_root-build_tree :
      (leaves zeros : List ℕ) (t : BuiltTree)
      → Tree.zero_hashes bb 20 ≡ ok zeros
      → Tree.build_tree bb leaves 20 ≡ ok t
      → compute_root bb zeros leaves ≡ ok t.root
  unfolding compute_root
  compute_root-build_tree [] zeros t zs h =
      let (ls, _, root) = layers_of [] zeros t zs h in
      let empty = layers_from-empty bb 20 0 zeros t.layers ls in
      ap ok (unfold top_root in (rw empty at root))
  compute_root-build_tree (leaf ∷ leaves) zeros t zs h =
      let (ls, fits, root) = layers_of (leaf ∷ leaves) zeros t zs h in
      let a = layers_from-AreLayers bb 20 0 zeros (leaf ∷ leaves) t.layers ls in
      let filled = layers_from-filled bb 20 0 zeros (leaf ∷ leaves) t.layers (omega arith) ls in
      root_from-layers_from bb 20 0 zeros (leaf ∷ leaves) t.layers ls
      ∙ ap ok (only_node _ _ filled (a.top fits) ∙ root)

  -- For leaves that `buildTree` accepts, the proofs are those of its levels.
  pub proof_from-build_tree :
      (leaves zeros : List ℕ) (t : BuiltTree) (i : ℕ)
      → i < 2 ^ 31
      → Tree.zero_hashes bb 20 ≡ ok zeros
      → Tree.build_tree bb leaves 20 ≡ ok t
      → proof_from bb 20 0 zeros leaves i
        ≡ ok (record {
          path = (path_from 20 0 zeros t.layers i).path;
          indices = (path_from 20 0 zeros t.layers i).indices;
        })
  proof_from-build_tree leaves zeros t i small zs h =
      let (ls, _, _) = layers_of leaves zeros t zs h in
      proof_from-path_from bb 20 0 zeros leaves t.layers t.layers i small ls
        λ k le. ap (λ n. get_or t.layers n []) {x = 0 + k} {y = k} (omega arith)
