-- ===== src/Tests/Trees.antt =====
-- The tree, its index and the encoding of field elements at concrete inputs.
use crisp_qes.Common.{◌^◌, ◌≤◌, ◌<◌, ◌≡◌, [], ◌∷◌, ok, fail, All, arith}
use crisp_qes.Tree.{BuiltTree, InclusionProof, build_tree, prove_inclusion, compute_root}
use crisp_qes.Tree.Inclusion.{IsBit, compute_root-prove_inclusion}
use crisp_qes.Tree.Total.{build_tree_total}
use crisp_qes.MerkleIndex.{MerkleIndex, AppendResult, tree_depth, append}
use crisp_qes.MerkleIndex.Laws.{Appends, append_total}
use crisp_qes.Tests.Samples.{
  sample_hash, sample_hash-IsField, small_tree, small_tree-built, sample_index, index-IsIndexOf,
}

compute_root-prove_inclusion_example :
    (proof : InclusionProof) × (prove_inclusion sample_hash small_tree.layers 2 ≡ ok proof)
    × All IsBit proof.indices
    × (compute_root sample_hash 9 proof.path proof.indices ≡ ok small_tree.root)
compute_root-prove_inclusion_example =
    compute_root-prove_inclusion sample_hash (5 ∷ 7 ∷ 9 ∷ []) 2 2 small_tree small_tree-built
      (omega arith) (omega arith)

build_tree_total_example :
    (3 ≤ 2 ^ 2 → (t : BuiltTree) × (build_tree sample_hash (5 ∷ 7 ∷ 9 ∷ []) 2 ≡ ok t))
    × (2 ^ 2 < 3
        → build_tree sample_hash (5 ∷ 7 ∷ 9 ∷ []) 2 ≡ fail "leaf count exceeds tree capacity")
build_tree_total_example =
    build_tree_total sample_hash sample_hash-IsField (5 ∷ 7 ∷ 9 ∷ []) 2
      (omega arith, (omega arith, (omega arith, tt)))

append_total_example :
    (2 < 2 ^ tree_depth
      → (idx' : MerkleIndex) × (r : AppendResult) × (append sample_hash
            (sample_index (5 ∷ 7 ∷ []))
            9
          ≡ ok (idx', r))
        × Appends sample_hash (5 ∷ 7 ∷ []) 9 (sample_index (5 ∷ 7 ∷ [])) idx' r)
    × (2 ^ tree_depth ≤ 2
        → append sample_hash (sample_index (5 ∷ 7 ∷ [])) 9
          ≡ fail "leaf count exceeds tree capacity")
append_total_example =
    append_total sample_hash sample_hash-IsField (5 ∷ 7 ∷ []) 9 (sample_index (5 ∷ 7 ∷ []))
      index-IsIndexOf (omega arith, (omega arith, tt)) (omega arith)
