-- ===== src/V3/Merkle.antt =====
-- packages/oprf/v3-grumpkin/service/merkle.mjs: the tree over the commitments, which keeps the leaves
-- and computes its levels again for each root and each proof.
pub mod Levels
pub mod Same
pub mod Mirrors
pub mod Fields
pub mod Guarded
use crisp_qes.Common.{
  ℕ, zero, suc, ◌+◌, ◌-◌, ◌/◌, ◌%◌, Bool, List, [], ◌∷◌, ◌++◌, String, Result, ok, fail, ◌>>=◌,
  ◌>>◌, guard, ltb, ◌==◌, if◌then◌else◌, length, get_or,
}
use crisp_qes.Pedersen.{be_bytes, fr_max, bytes_be_to_bigint}

abbrev pub tree_depth : ℕ
tree_depth = 20

abbrev pub merkle_node_domain : ℕ
merkle_node_domain = 0

abbrev pub genesis_root : ℕ
genesis_root = 0x1b49e706af69da35927cdf2b28b02fb2647245ac0ccbc376d062031185d3cd84

unfoldable pub to_be32 : ℕ → Result String (List ℕ)
to_be32 v =
    if ltb v fr_max then ok (be_bytes 32 v []) else fail "merkle: field element exceeds Fr range"

pub record MerkleIndex : Type 0 where
  pub leaves : List ℕ
  pub zeros : List ℕ
  pub root : ℕ

pub record MerkleProof : Type 0 where
  pub path : List ℕ
  pub indices : List ℕ

pub record AppendResult : Type 0 where
  pub leaf_index : ℕ
  pub old_root : ℕ
  pub new_root : ℕ
  pub path : List ℕ
  pub indices : List ℕ
  pub leaf_count : ℕ

pub record ProofResult : Type 0 where
  pub leaf_index : ℕ
  pub path : List ℕ
  pub indices : List ℕ
  pub root : ℕ

-- `sibIdx < level.length ? level[sibIdx] : this._zeros[d]`
abbrev pub sibling_of : ℕ → List ℕ → ℕ → ℕ
sibling_of z level i = if ltb i (length level) then get_or level i 0 else z

module _ (bb : List (List ℕ) → ℕ → List ℕ) where
  unfoldable pub hash2 : ℕ → ℕ → Result String ℕ
  unfolding to_be32
  hash2 l r = do
    left ← to_be32 l
    right ← to_be32 r
    ok (bytes_be_to_bigint (bb (left ∷ right ∷ []) merkle_node_domain))

  -- `zeros[i]` for `n` more levels.
  unfoldable pub zeros_from : ℕ → ℕ → Result String (List ℕ)
  zeros_from zero z = ok (z ∷ [])
  zeros_from (suc n) z = do z' ← hash2 z z; rest ← zeros_from n z'; ok (z ∷ rest)

  unfoldable pub zero_hashes : ℕ → Result String (List ℕ)
  unfolding zeros_from
  zero_hashes depth = zeros_from depth 0

  -- The loop over the pairs of a level.
  unfoldable pub next_level : ℕ → List ℕ → Result String (List ℕ)
  next_level z [] = ok []
  next_level z (l ∷ []) = do h ← hash2 l z; ok (h ∷ [])
  next_level z (l ∷ r ∷ rest) = do h ← hash2 l r; hs ← next_level z rest; ok (h ∷ hs)

  -- The rounds of `_computeRoot` from the depth `d` on.
  unfoldable pub root_from : ℕ → ℕ → List ℕ → List ℕ → Result String ℕ
  root_from zero d zeros level = ok (get_or level 0 0)
  root_from (suc rounds) d zeros level = do
    next ← next_level (get_or zeros d 0) level
    root_from rounds (suc d) zeros next

  unfoldable pub compute_root : List ℕ → List ℕ → Result String ℕ
  compute_root zeros [] = ok (get_or zeros tree_depth 0)
  compute_root zeros (leaf ∷ leaves) = root_from tree_depth 0 zeros (leaf ∷ leaves)

  -- The rounds of `_proof` from the depth `d` on, for the node `i`. A position in an array of leaves is
  -- taken to be below `2 ^ 31`, where `i >> 1` is its half.
  unfoldable pub proof_from : ℕ → ℕ → List ℕ → List ℕ → ℕ → Result String MerkleProof
  proof_from zero d zeros level i = ok (record { path = []; indices = [] })
  proof_from (suc rounds) d zeros level i =
      let is_right = i % 2 == 1 in
      let sib_idx = if is_right then i - 1 else i + 1 in
      do
        next ← next_level (get_or zeros d 0) level
        later ← proof_from rounds (suc d) zeros next (i / 2)
        ok (record {
          path = sibling_of (get_or zeros d 0) level sib_idx ∷ later.path;
          indices = (if is_right then 1 else 0) ∷ later.indices;
        })

  unfoldable pub from_leaves : List ℕ → Result String MerkleIndex
  from_leaves leaves = do
    zeros ← zero_hashes tree_depth
    guard (get_or zeros tree_depth 0 == genesis_root)
        "merkle: depth-20 zero-tree root != canonical genesis"
    root ← compute_root zeros leaves
    ok (record { leaves = leaves; zeros = zeros; root = root })

  abbrev pub append_proof :
      MerkleIndex → MerkleIndex → Result String MerkleProof → Result String AppendResult
  append_proof idx idx' proof = do
    p ← proof
    ok (record {
      leaf_index = length idx.leaves;
      old_root = idx.root;
      new_root = idx'.root;
      path = p.path;
      indices = p.indices;
      leaf_count = length idx'.leaves;
    })

  -- The leaf is pushed before the root is computed, and stays if that throws.
  abbrev pub append_rooted :
      MerkleIndex → List ℕ → Result String ℕ → Result String AppendResult × MerkleIndex
  append_rooted idx leaves (fail e) =
      (fail e, record { leaves = leaves; zeros = idx.zeros; root = idx.root })
  append_rooted idx leaves (ok root) =
      let idx' : MerkleIndex = record { leaves = leaves; zeros = idx.zeros; root = root } in
      (append_proof idx idx' (proof_from tree_depth 0 idx.zeros leaves (length idx.leaves)), idx')

  unfoldable pub append : MerkleIndex → ℕ → Result String AppendResult × MerkleIndex
  append idx leaf =
      let leaves = idx.leaves ++ leaf ∷ [] in
      append_rooted idx leaves (compute_root idx.zeros leaves)

  unfoldable pub proof_at : MerkleIndex → ℕ → Result String ProofResult
  proof_at idx leaf_index =
      if ltb leaf_index (length idx.leaves)
      then (do
        p ← proof_from tree_depth 0 idx.zeros idx.leaves leaf_index
        ok (record {
          leaf_index = leaf_index;
          path = p.path;
          indices = p.indices;
          root = idx.root;
        }))
      else fail "leafIndex out of range"

  unfoldable pub root_from_path : ℕ → List ℕ → List ℕ → Result String ℕ
  root_from_path node (s ∷ path) (i ∷ indices) = do
    parent ← (if i == 1 then hash2 s node else hash2 node s)
    root_from_path parent path indices
  root_from_path node (s ∷ path) [] = do parent ← hash2 node s; root_from_path parent path []
  root_from_path node [] indices = ok node
