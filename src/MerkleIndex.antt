-- ===== src/MerkleIndex.antt =====
-- packages/oprf/src/merkle.ts: the in-memory tree over the enrolled commitments.
pub mod Laws
use crisp_qes.Common.{
  ℕ, ◌+◌, ◌-◌, Bool, List, [], ◌∷◌, ◌++◌, map, String, Result, ok, fail, ◌>>=◌, ltb, ◌==◌,
  if◌then◌else◌, length, get_or,
}
use crisp_qes.Tree.{InclusionProof, zero_hashes, build_tree, prove_inclusion}

abbrev pub tree_depth : ℕ
tree_depth = 20

pub record MerkleIndex : Type 0 where
  pub layers : List (List ℕ)
  pub root : ℕ
  pub leaf_count : ℕ

pub record MerkleSnapshot : Type 0 where
  pub root : ℕ
  pub leaf_count : ℕ

pub record AppendResult : Type 0 where
  pub root : ℕ
  pub leaf_count : ℕ
  pub leaf_index : ℕ
  pub old_root : ℕ
  pub new_root : ℕ
  pub path : List ℕ
  pub indices : List ℕ

pub record InclusionResult : Type 0 where
  pub leaf_index : ℕ
  pub path : List ℕ
  pub indices : List ℕ
  pub root : ℕ

-- `(i) => (i === 1 ? 1 : 0)`
abbrev pub as_bit : ℕ → ℕ
as_bit i = if i == 1 then 1 else 0

unfoldable pub snapshot : MerkleIndex → MerkleSnapshot
snapshot idx = record { root = idx.root; leaf_count = idx.leaf_count }

module _ (bb : List (List ℕ) → ℕ → List ℕ) where
  -- The root of an empty tree is the zero hash of the top.
  unfoldable pub canonical_root : List ℕ → ℕ → Result String ℕ
  canonical_root [] root = do zeros ← zero_hashes bb tree_depth; ok (get_or zeros tree_depth 0)
  canonical_root (_ ∷ _) root = ok root

  unfoldable pub rebuild : List ℕ → Result String MerkleIndex
  rebuild leaves = do
    built ← build_tree bb leaves tree_depth
    root ← canonical_root leaves built.root
    ok (record { layers = built.layers; root = root; leaf_count = length leaves })

  unfoldable pub from_leaves : List ℕ → Result String MerkleIndex
  unfolding rebuild
  from_leaves leaves = rebuild leaves

  -- The index after the call, and the result.
  unfoldable pub append : MerkleIndex → ℕ → Result String (MerkleIndex × AppendResult)
  append idx leaf = do
    idx' ← rebuild (get_or idx.layers 0 [] ++ leaf ∷ [])
    let leaf_index = idx'.leaf_count - 1
    proof ← prove_inclusion bb idx'.layers leaf_index
    ok (
      idx',
      record {
        root = idx'.root;
        leaf_count = idx'.leaf_count;
        leaf_index = leaf_index;
        old_root = idx.root;
        new_root = idx'.root;
        path = proof.path;
        indices = map as_bit proof.indices;
      },
    )

  unfoldable pub proof_at : MerkleIndex → ℕ → Result String InclusionResult
  proof_at idx leaf_index =
      if ltb leaf_index idx.leaf_count
      then (do
        proof ← prove_inclusion bb idx.layers leaf_index
        ok (record {
          leaf_index = leaf_index;
          path = proof.path;
          indices = map as_bit proof.indices;
          root = idx.root;
        }))
      else fail "leafIndex out of range"
