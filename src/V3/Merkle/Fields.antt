-- ===== src/V3/Merkle/Fields.antt =====
-- The roots and the paths of a tree of field elements are computed, and are field elements.
use crisp_qes.Common.{
  ℕ, zero, suc, ◌+◌, ◌-◌, ◌/◌, ◌%◌, ◌^◌, ◌<◌, ◌≤◌, ◌≡◌, refl, sym, subst, ap, ◌∙◌, Bool-cases, inl,
  inr, List, [], ◌∷◌, ok, ok-injective, length, get_or, All, arith, ltb, lt→ltb, ◌==◌,
  if◌then◌else◌,
}
use crisp_qes.Pedersen.{bytes_be_to_bigint}
use crisp_qes.Tree
use crisp_qes.Tree.Total
use crisp_qes.Tree.Total.{IsField}
use crisp_qes.MerkleIndex
use crisp_qes.MerkleIndex.Laws.{rebuild-build_tree, rebuild-IsIndexOf}
use crisp_qes.V3.Merkle.{
  MerkleIndex, MerkleProof, ProofResult, tree_depth, sibling_of, next_level, zero_hashes, root_from,
  compute_root, proof_from, proof_at,
}
use crisp_qes.V3.Merkle.Levels.{zeros_from-Tree, next_level-Tree}
use crisp_qes.V3.Merkle.Same.{compute_root-build_tree}
use crisp_qes.V3.Merkle.Mirrors.{Mirrors}

module _ (bb : List (List ℕ) → ℕ → List ℕ)
    (fields : (buffers : List (List ℕ)) (i : ℕ) → IsField (bytes_be_to_bigint (bb buffers i))) where
  next_level_total :
      (z : ℕ) (level : List ℕ)
      → IsField z
      → All IsField level
      → (next : List ℕ) × (next_level bb z level ≡ ok next) × All IsField next
  next_level_total z level hz hl =
      let (next, made, hn) = Total.next_layer_total bb fields z level hz hl in
      (next, next_level-Tree bb z level next made, hn)

  sibling_of-IsField :
      (z : ℕ) (level : List ℕ) (i : ℕ)
      → IsField z
      → All IsField level
      → IsField (sibling_of z level i)
  sibling_of-IsField z level i hz hl = elim (Bool-cases (ltb i (length level))) [
    | inl inside ↦ rw inside (Total.get_or-IsField bb fields level i hl)
    | inr outside ↦ rw outside hz
  ]

  pub proof_from_total :
      (rounds d : ℕ) (zeros level : List ℕ) (i : ℕ)
      → All IsField zeros
      → All IsField level
      → (p : MerkleProof) × (proof_from bb rounds d zeros level i ≡ ok p) × All IsField p.path
  unfolding proof_from
  proof_from_total zero d zeros level i hz hl = (record { path = []; indices = [] }, refl, tt)
  proof_from_total (suc rounds) d zeros level i hz hl =
      let z = get_or zeros d 0 in
      let zf = Total.get_or-IsField bb fields zeros d hz in
      let (next, made, hn) = next_level_total z level zf hl in
      let (p, later, hp) = proof_from_total rounds (suc d) zeros next (i / 2) hz hn in
      let right = i % 2 == 1 in
      (
        record {
          path = sibling_of z level (if right then i - 1 else i + 1) ∷ p.path;
          indices = (if right then 1 else 0) ∷ p.indices;
        },
        rw (made, later) refl,
        (sibling_of-IsField z level (if right then i - 1 else i + 1) zf hl, hp),
      )

  -- The path that is given for a position of the leaves.
  pub proof_at-IsField :
      (idx : MerkleIndex) (i : ℕ) (p : ProofResult)
      → All IsField idx.zeros
      → All IsField idx.leaves
      → i < length idx.leaves
      → proof_at bb idx i ≡ ok p
      → All IsField p.path
  unfolding proof_at
  proof_at-IsField idx i p hz hl lt h =
      let (q, made, hq) = proof_from_total tree_depth 0 idx.zeros idx.leaves i hz hl in
      let same = rw (lt→ltb i (length idx.leaves) lt, made) at h in
      let e : record { leaf_index = i; path = q.path; indices = q.indices; root = idx.root } ≡ p =
        ok-injective same in
      subst (λ (r : ProofResult). All IsField r.path) e hq

  root_from_total :
      (rounds d : ℕ) (zeros level : List ℕ)
      → All IsField zeros
      → All IsField level
      → (root : ℕ) × (root_from bb rounds d zeros level ≡ ok root) × IsField root
  unfolding root_from
  root_from_total zero d zeros level hz hl =
      (get_or level 0 0, refl, Total.get_or-IsField bb fields level 0 hl)
  root_from_total (suc rounds) d zeros level hz hl =
      let (next, made, hn) =
        next_level_total (get_or zeros d 0) level (Total.get_or-IsField bb fields zeros d hz) hl in
      let (root, later, hr) = root_from_total rounds (suc d) zeros next hz hn in
      (root, rw made later, hr)

  pub zeros_total :
      (zs : List ℕ) × (Tree.zero_hashes bb 20 ≡ ok zs)
      × (zero_hashes bb tree_depth ≡ ok zs)
      × All IsField zs
  unfolding Tree.zero_hashes zero_hashes
  zeros_total =
      let (zs, made, hz) = Total.zeros_from_total bb fields 20 0 (omega arith) in
      (zs, made, zeros_from-Tree bb 20 0 zs made, hz)

  pub compute_root_total :
      (zeros leaves : List ℕ)
      → All IsField zeros
      → All IsField leaves
      → (root : ℕ) × (compute_root bb zeros leaves ≡ ok root) × IsField root
  unfolding compute_root
  compute_root_total zeros [] hz hl =
      (get_or zeros tree_depth 0, refl, Total.get_or-IsField bb fields zeros tree_depth hz)
  compute_root_total zeros (leaf ∷ leaves) hz hl =
      root_from_total tree_depth 0 zeros (leaf ∷ leaves) hz hl

  -- A tree of field elements that fits is the one of the other service over the same leaves, and its
  -- paths are field elements.
  pub Mirrors-of :
      (idx : MerkleIndex)
      → zero_hashes bb tree_depth ≡ ok idx.zeros
      → compute_root bb idx.zeros idx.leaves ≡ ok idx.root
      → All IsField idx.leaves
      → length idx.leaves ≤ 2 ^ 20
      → (v2 : MerkleIndex.MerkleIndex) × Mirrors bb idx v2
  Mirrors-of idx made rooted hl le =
      let (zs, zeros, zeros', hz) = zeros_total in
      let same : zs ≡ idx.zeros = ok-injective (sym zeros' ∙ made) in
      let (t, built) = (Total.build_tree_total bb fields idx.leaves 20 hl).0 le in
      let v2 : MerkleIndex.MerkleIndex = record {
        layers = t.layers;
        root = t.root;
        leaf_count = length idx.leaves;
      } in
      let tree_zeros : Tree.zero_hashes bb 20 ≡ ok idx.zeros = zeros ∙ ap ok same in
      (
        v2,
        record {
          index = rebuild-IsIndexOf bb idx.leaves v2 (rebuild-build_tree bb idx.leaves t built);
          zeros = tree_zeros;
          root =
              ok-injective
                (sym rooted ∙ compute_root-build_tree bb idx.leaves idx.zeros t tree_zeros built);
        },
      )

  pub zeros-IsField : (zs : List ℕ) → zero_hashes bb tree_depth ≡ ok zs → All IsField zs
  zeros-IsField zs made =
      let (zs', _, zeros', hz) = zeros_total in
      subst (λ z. All IsField z) (ok-injective (sym zeros' ∙ made)) hz
