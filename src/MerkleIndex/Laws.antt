-- ===== src/MerkleIndex/Laws.antt =====
-- The index holds the tree over its leaves, and its proofs pass the circuit's walk.
use crisp_qes.Common.{
  ℕ, zero, suc, ◌+◌, ◌-◌, ◌^◌, ◌≤◌, ◌<◌, ◌≡◌, refl, sym, ap, ◌∙◌, true, false, List, [], ◌∷◌, ◌++◌,
  map, String, ok, fail, ◌>>=◌, >>=-eq-ok, ok-injective, Result-cases, subst, arith, length,
  length-append, get_or, get_elem?-append_last, ltb, lt→ltb, All, All-append, inl, inr,
}
use crisp_qes.Pedersen.{bytes_be_to_bigint}
use crisp_qes.Tree.{BuiltTree, InclusionProof, top_root, build_tree, prove_inclusion, compute_root}
use crisp_qes.Tree.Levels.{node, layers_from-empty, layers_from-AreLayers}
use crisp_qes.Tree.Inclusion.{build_tree_inv, compute_root-prove_inclusion, IsBit}
use crisp_qes.Tree.Total.{IsField, build_tree_total}
use crisp_qes.MerkleIndex.{
  MerkleIndex, AppendResult, InclusionResult, as_bit, tree_depth, canonical_root, rebuild, append,
  proof_at,
}

pub map-as_bit : (bits : List ℕ) → All IsBit bits → map as_bit bits ≡ bits
map-as_bit [] h = refl
map-as_bit (b ∷ bits) (h, hs) =
    let e : as_bit b ≡ b = ground arith in rw (e, map-as_bit bits hs) refl

pub get_or-eq-node : (xs : List ℕ) (i : ℕ) → get_or xs i 0 ≡ node 0 xs i
get_or-eq-node [] i = refl
get_or-eq-node (x ∷ xs) zero = refl
get_or-eq-node (x ∷ xs) (suc i) = get_or-eq-node xs i

module _ (bb : List (List ℕ) → ℕ → List ℕ) where
  -- `idx` is the tree over `leaves`.
  pub record IsIndexOf (leaves : List ℕ) (idx : MerkleIndex) : Type 0 where
    pub tree : BuiltTree
    pub built : build_tree bb leaves tree_depth ≡ ok tree
    pub root : idx.root ≡ tree.root
    pub layers : idx.layers ≡ tree.layers
    pub count : idx.leaf_count ≡ length leaves

  -- The canonical root is the root that `buildTree` returns.
  canonical_root-build_tree :
      (leaves : List ℕ) (t : BuiltTree)
      → build_tree bb leaves tree_depth ≡ ok t
      → canonical_root bb leaves t.root ≡ ok t.root
  unfolding canonical_root
  canonical_root-build_tree (l ∷ ls) t h = refl
  canonical_root-build_tree [] t h =
      let (zeros, _, zs, ls, root) = build_tree_inv bb [] tree_depth t h in
      let empty = layers_from-empty bb tree_depth 0 zeros t.layers ls in
      let e : get_or zeros tree_depth 0 ≡ t.root = unfold top_root in (rw empty at root) in
      rw (zs) (ap ok e)

  pub rebuild-build_tree :
      (leaves : List ℕ) (t : BuiltTree)
      → build_tree bb leaves tree_depth ≡ ok t
      → rebuild bb leaves
        ≡ ok (record { layers = t.layers; root = t.root; leaf_count = length leaves })
  unfolding rebuild
  rebuild-build_tree leaves t h = rw (h, canonical_root-build_tree leaves t h) refl

  rebuild_inv :
      (leaves : List ℕ) (idx : MerkleIndex)
      → rebuild bb leaves ≡ ok idx
      → (t : BuiltTree) × (build_tree bb leaves tree_depth ≡ ok t)
  unfolding rebuild
  rebuild_inv leaves idx h =
      let (t, built, _) =
        >>=-eq-ok (build_tree bb leaves tree_depth)
          (λ built. do
            root ← canonical_root bb leaves built.root
            ok (record { layers = built.layers; root = root; leaf_count = length leaves }))
          h in
      (t, built)

  pub rebuild-IsIndexOf :
      (leaves : List ℕ) (idx : MerkleIndex) → rebuild bb leaves ≡ ok idx → IsIndexOf leaves idx
  rebuild-IsIndexOf leaves idx h =
      let (t, built) = rebuild_inv leaves idx h in
      let e : record { layers = t.layers; root = t.root; leaf_count = length leaves } ≡ idx =
        ok-injective (sym (rebuild-build_tree leaves t built) ∙ h) in
      record {
        tree = t;
        built = built;
        root = ap (λ (i : MerkleIndex). i.root) (sym e);
        layers = ap (λ (i : MerkleIndex). i.layers) (sym e);
        count = ap (λ (i : MerkleIndex). i.leaf_count) (sym e);
      }

  -- The proof that the index gives for a position of its tree passes the circuit's walk.
  index-compute_root :
      (leaves : List ℕ) (idx : MerkleIndex) (i : ℕ)
      → IsIndexOf leaves idx
      → i < 2 ^ tree_depth
      → (proof : InclusionProof) × (prove_inclusion bb idx.layers i ≡ ok proof)
        × (compute_root bb (node 0 leaves i) proof.path (map as_bit proof.indices) ≡ ok idx.root)
  index-compute_root leaves idx i x lt =
      let (proof, proved, bits, walked) =
        compute_root-prove_inclusion bb leaves tree_depth i x.tree x.built lt (omega (arith, lt)) in
      (proof, rw x.layers proved, rw (x.root, map-as_bit proof.indices bits) walked)

  -- What `append` does to an index over `leaves`.
  pub record Appends (leaves : List ℕ) (leaf : ℕ) (idx idx' : MerkleIndex) (r : AppendResult)
      : Type 0 where
    pub index : IsIndexOf (leaves ++ leaf ∷ []) idx'
    pub leaf_index : r.leaf_index ≡ length leaves
    pub leaf_count : r.leaf_count ≡ length leaves + 1
    pub old_root : r.old_root ≡ idx.root
    pub new_root : r.new_root ≡ idx'.root
    pub walked : compute_root bb leaf r.path r.indices ≡ ok r.new_root

  pub IsIndexOf-leaves :
      (leaves : List ℕ) (idx : MerkleIndex) → IsIndexOf leaves idx → get_or idx.layers 0 [] ≡ leaves
  IsIndexOf-leaves leaves idx x =
      let (zeros, _, _, ls, _) = build_tree_inv bb leaves tree_depth x.tree x.built in
      rw x.layers (layers_from-AreLayers bb tree_depth 0 zeros leaves x.tree.layers ls).first

  pub append_eq :
      (idx idx' : MerkleIndex) (leaves : List ℕ) (leaf n : ℕ) (proof : InclusionProof)
      → get_or idx.layers 0 [] ≡ leaves
      → rebuild bb (leaves ++ leaf ∷ []) ≡ ok idx'
      → idx'.leaf_count - 1 ≡ n
      → prove_inclusion bb idx'.layers n ≡ ok proof
      → append bb idx leaf
        ≡ ok (
          idx',
          record {
            root = idx'.root;
            leaf_count = idx'.leaf_count;
            leaf_index = n;
            old_root = idx.root;
            new_root = idx'.root;
            path = proof.path;
            indices = map as_bit proof.indices;
          },
        )
  unfolding append
  append_eq idx idx' leaves leaf n proof e r m p = rw (e, r, m, p) refl

  append_full :
      (idx : MerkleIndex) (leaves : List ℕ) (leaf : ℕ) {e : String}
      → get_or idx.layers 0 [] ≡ leaves
      → build_tree bb (leaves ++ leaf ∷ []) tree_depth ≡ fail e
      → append bb idx leaf ≡ fail e
  unfolding append rebuild
  append_full idx leaves leaf same stops = rw (same, stops) refl

  -- If `buildTree` accepts the leaves with the new one, `append` returns: the new index is over those leaves, the result names the old root and the new one, and its proof takes the new leaf to the new root.
  pub append-Appends :
      (leaves : List ℕ) (leaf : ℕ) (idx : MerkleIndex) (t : BuiltTree)
      → IsIndexOf leaves idx
      → build_tree bb (leaves ++ leaf ∷ []) tree_depth ≡ ok t
      → (idx' : MerkleIndex) × (r : AppendResult) × (append bb idx leaf ≡ ok (idx', r))
        × Appends leaves leaf idx idx' r
  append-Appends leaves leaf idx t x h =
      let all = leaves ++ leaf ∷ [] in
      let idx' : MerkleIndex = record {
        layers = t.layers;
        root = t.root;
        leaf_count = length all;
      } in
      let built = rebuild-build_tree all t h in
      let x' = rebuild-IsIndexOf all idx' built in
      let (_, fits, _, _, _) = build_tree_inv bb all tree_depth t h in
      let last : length all - 1 ≡ length leaves = omega (arith, length-append leaves (leaf ∷ [])) in
      let (proof, proved, walked) =
        index-compute_root all idx' (length leaves) x'
          (omega (arith, length-append leaves (leaf ∷ []))) in
      let r : AppendResult = record {
        root = t.root;
        leaf_count = length all;
        leaf_index = length leaves;
        old_root = idx.root;
        new_root = t.root;
        path = proof.path;
        indices = map as_bit proof.indices;
      } in
      (
        idx',
        r,
        append_eq idx idx' leaves leaf (length leaves) proof (IsIndexOf-leaves leaves idx x) built
            last proved,
        record {
          index = x';
          leaf_index = refl;
          leaf_count = omega (arith, length-append leaves (leaf ∷ []));
          old_root = refl;
          new_root = refl;
          walked = rw get_elem?-append_last at walked;
        },
      )

  -- If `append` returns, its result is the one described.
  pub append_inv :
      (leaves : List ℕ) (leaf : ℕ) (idx idx' : MerkleIndex) (r : AppendResult)
      → IsIndexOf leaves idx
      → append bb idx leaf ≡ ok (idx', r)
      → Appends leaves leaf idx idx' r
  append_inv leaves leaf idx idx' r x h =
      elim (Result-cases (build_tree bb (leaves ++ leaf ∷ []) tree_depth)) [
        | inr (e, stops) ↦
            let failed =
              sym h ∙ append_full idx leaves leaf (IsIndexOf-leaves leaves idx x) stops in
            cc
        | inl (t, built) ↦
            let (jdx, q, returned, appends) = append-Appends leaves leaf idx t x built in
            let same : ◌≡◌ {A = MerkleIndex × AppendResult} (jdx, q) (idx', r) =
              ok-injective (sym returned ∙ h) in
            subst (λ (p : MerkleIndex × AppendResult). Appends leaves leaf idx p.0 p.1) same appends
      ]

  -- `proofAt` answers exactly the positions below the leaf count, with a proof that takes the leaf
  -- there to the root of the index.
  pub proof_at-compute_root :
      (leaves : List ℕ) (idx : MerkleIndex) (i : ℕ)
      → IsIndexOf leaves idx
      → (i < length leaves
          → (r : InclusionResult) × (proof_at bb idx i ≡ ok r)
            × (r.leaf_index ≡ i)
            × (r.root ≡ idx.root)
            × (compute_root bb (get_or leaves i 0) r.path r.indices ≡ ok r.root))
        × (length leaves ≤ i → proof_at bb idx i ≡ fail "leafIndex out of range")
  unfolding proof_at
  proof_at-compute_root leaves idx i x =
      let (_, fits, _, _, _) = build_tree_inv bb leaves tree_depth x.tree x.built in
      let count = x.count in
      (
        λ lt.
            let (proof, proved, walked) = index-compute_root leaves idx i x (omega arith) in
            let inside : ltb i idx.leaf_count ≡ true = lt→ltb _ _ (omega arith) in
            (
              record {
                leaf_index = i;
                path = proof.path;
                indices = map as_bit proof.indices;
                root = idx.root;
              },
              rw (inside, proved) refl,
              refl,
              refl,
              rw (get_or-eq-node leaves i) walked,
            ),
        λ le. let outside : ltb i idx.leaf_count ≡ false = ground arith in rw outside refl,
      )

  -- For field elements, `append` to an index that is not full returns what `Appends` says, and to a
  -- full one throws.
  pub append_total :
      (outputs : (buffers : List (List ℕ)) (i : ℕ) → IsField (bytes_be_to_bigint (bb buffers i)))
      (leaves : List ℕ) (leaf : ℕ) (idx : MerkleIndex)
      → IsIndexOf leaves idx
      → All IsField leaves
      → IsField leaf
      → (length leaves < 2 ^ tree_depth
          → (idx' : MerkleIndex) × (r : AppendResult) × (append bb idx leaf ≡ ok (idx', r))
            × Appends leaves leaf idx idx' r)
        × (2 ^ tree_depth ≤ length leaves
            → append bb idx leaf ≡ fail "leaf count exceeds tree capacity")
  append_total outputs leaves leaf idx x hs h =
      let (grows, stops) =
        build_tree_total bb outputs (leaves ++ leaf ∷ []) tree_depth
          (All-append IsField leaves (leaf ∷ []) hs (h, tt)) in
      let one_more = length-append leaves (leaf ∷ []) in
      (
        λ lt. let (t, built) = grows (omega arith) in append-Appends leaves leaf idx t x built,
        λ le. append_full idx leaves leaf (IsIndexOf-leaves leaves idx x) (stops (omega arith)),
      )
