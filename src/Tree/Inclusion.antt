-- ===== src/Tree/Inclusion.antt =====
-- Inclusion proofs of tree/merkle.ts against the circuit's walk.
use native.Mathlib.Nat.{pow-suc, pow-zero, zero-add}
use crisp_qes.Common.{
  ℕ, zero, suc, ◌+◌, ◌-◌, ◌/◌, ◌%◌, ◌^◌, ◌≤◌, ◌<◌, ◌≡◌, ◌≢◌, refl, ap, sym, ◌∙◌, List, [], ◌∷◌, ok,
  length, get_or, arith, inl, inr, ◌⊎◌, Bool-cases, ◌==◌, leb, leb→le, ltb, lt→ltb, true, All,
  bind-bind-ok-eq-ok,
}
use crisp_qes.Tree.{
  top_root, hash2, zeros_from, zero_hashes, next_layer, layers_from, BuiltTree, InclusionProof,
  path_from, path_below, build_tree, prove_inclusion, compute_root,
}
use crisp_qes.Tree.Levels.{
  node, double, double-eq-add, top_root-eq-node, zeros_from-step, zeros_from-head, next_layer-node,
  layers_from-AreLayers,
}

-- A number below `2 ^ 31` is its signed word of 32 bits.
pub small_word : (i : ℕ) → i < 2 ^ 31 → (i % 2 ^ 32 ≡ i) × (ltb i (2 ^ 31) ≡ true)
small_word i h = (omega (arith, h), lt→ltb i (2 ^ 31) h)

module _ (bb : List (List ℕ) → ℕ → List ℕ) (depth : ℕ) (zeros : List ℕ) (layers : List (List ℕ))
    (zero_step : (k : ℕ)
      → k < depth
      → hash2 bb (get_or zeros k 0) (get_or zeros k 0) ≡ ok (get_or zeros (suc k) 0))
    (parents : (k : ℕ)
      → k < depth
      → next_layer bb (get_or zeros k 0) (get_or layers k []) ≡ ok (get_or layers (suc k) [])) where
  abbrev at_level : ℕ → ℕ → ℕ
  at_level k i = node (get_or zeros k 0) (get_or layers k []) i

  parent :
      (k i : ℕ)
      → k < depth
      → hash2 bb (at_level k (double i)) (at_level k (suc (double i))) ≡ ok (at_level (suc k) i)
  parent k i lt = next_layer-node bb _ _ _ _ i (parents k lt) (zero_step k lt)

  parent_right :
      (k i : ℕ)
      → k < depth
      → i % 2 ≡ 1
      → hash2 bb (at_level k (i - 1)) (at_level k i) ≡ ok (at_level (suc k) (i / 2))
  parent_right k i lt odd =
      let e : suc (double (i / 2)) ≡ i = omega (arith, double-eq-add (i / 2)) in
      let e' : double (i / 2) ≡ i - 1 = omega (arith, double-eq-add (i / 2)) in
      rw (← e') (rw e at (parent k (i / 2) lt))

  parent_left :
      (k i : ℕ)
      → k < depth
      → i % 2 ≢ 1
      → hash2 bb (at_level k i) (at_level k (i + 1)) ≡ ok (at_level (suc k) (i / 2))
  parent_left k i lt even =
      let e : double (i / 2) ≡ i = omega (arith, double-eq-add (i / 2)) in
      let e' : suc i ≡ i + 1 = omega arith in rw (← e') (rw e at (parent k (i / 2) lt))

  walk :
      (rounds k i : ℕ)
      → k + rounds ≡ depth
      → i < 2 ^ rounds
      → i < 2 ^ 31
      → compute_root bb
          (at_level k i)
          (path_from rounds k zeros layers i).path
          (path_from rounds k zeros layers i).indices
        ≡ ok (at_level depth 0)
  unfolding path_from compute_root
  walk zero k i e lt small =
      let e' : k ≡ depth = omega arith in let z : i ≡ 0 = omega (arith, pow-zero 2) in rw (e', z)
  walk (suc rounds) k i e lt small =
      let h = pow-suc 2 rounds in
      let ih = walk rounds (suc k) (i / 2) (omega arith) (omega arith) (omega (arith, small)) in
      let (word, fits) = small_word i small in
      let below : k < depth = omega arith in
      elim (Bool-cases (i % 2 == 1)) [
        | inl odd ↦ rw (word, fits, odd) (rw (parent_right k i below (ground arith)) ih)
        | inr even ↦ rw (word, fits, even) (rw (parent_left k i below (ground arith)) ih)
      ]

abbrev pub IsBit : ℕ → Type 0
IsBit b = (b ≡ 0) ⊎ (b ≡ 1)

path_below-IsBit :
    (rounds level : ℕ) (zeros : List ℕ) (layers : List (List ℕ)) (n : ℕ)
    → All IsBit (path_below rounds level zeros layers n).indices
unfolding path_below
path_below-IsBit zero level zeros layers n = tt
path_below-IsBit (suc rounds) level zeros layers n =
    (inl refl, path_below-IsBit rounds (suc level) zeros layers (n / 2))

pub path_from-IsBit :
    (rounds level : ℕ) (zeros : List ℕ) (layers : List (List ℕ)) (i : ℕ)
    → All IsBit (path_from rounds level zeros layers i).indices
unfolding path_from
path_from-IsBit zero level zeros layers i = tt
path_from-IsBit (suc rounds) level zeros layers i = (
  ground arith,
  elim (Bool-cases (ltb (i % 2 ^ 32) (2 ^ 31))) [
    | inl above ↦ rw above (path_from-IsBit rounds (suc level) zeros layers (i % 2 ^ 32 / 2))
    | inr below ↦
        rw below (path_below-IsBit rounds (suc level) zeros layers ((2 ^ 32 - 1 - i % 2 ^ 32) / 2))
  ],
)

module _ (bb : List (List ℕ) → ℕ → List ℕ) where
  pub build_tree_inv :
      (leaves : List ℕ) (depth : ℕ) (t : BuiltTree)
      → build_tree bb leaves depth ≡ ok t
      → (zeros : List ℕ) × (length leaves ≤ 2 ^ depth)
        × (zero_hashes bb depth ≡ ok zeros)
        × (layers_from bb depth 0 zeros leaves ≡ ok t.layers)
        × (top_root (get_or zeros depth 0) (get_or t.layers depth []) ≡ t.root)
  unfolding build_tree
  build_tree_inv leaves depth t h = elim (Bool-cases (leb (length leaves) (2 ^ depth))) [
    | inl fits ↦
        let (zeros, layers, zs, ls, e) =
          bind-bind-ok-eq-ok (zero_hashes bb depth) (λ zeros. layers_from bb depth 0 zeros leaves)
            (λ zeros layers. record {
              root = top_root (get_or zeros depth 0) (get_or layers depth []);
              layers = layers;
            })
            (rw fits at h) in
        (
          zeros,
          leb→le _ _ fits,
          zs,
          ls ∙ ap (λ (u : BuiltTree). ok u.layers) e,
          ap (λ (l : List (List ℕ)). top_root (get_or zeros depth 0) (get_or l depth []))
                (ap (λ (u : BuiltTree). u.layers) (sym e))
              ∙ ap (λ (u : BuiltTree). u.root) e,
        )
    | inr full ↦ absurd (let no = rw full at h in cc)
  ]

  pub prove_inclusion-zeros :
      (depth i : ℕ) (zeros : List ℕ) (layers : List (List ℕ))
      → length layers ≡ suc depth
      → zero_hashes bb depth ≡ ok zeros
      → prove_inclusion bb layers i ≡ ok (path_from depth 0 zeros layers i)
  unfolding prove_inclusion
  prove_inclusion-zeros depth i zeros [] n zs = absurd (omega arith)
  prove_inclusion-zeros depth i zeros (l ∷ upper) n zs =
      let e : length upper ≡ depth = omega arith in rw (e, zs) refl

  -- For every position of a built tree below `2 ^ 31` (every one, for depths up to 31), filled or not,
  -- `proveInclusion` returns a proof whose indices are bits, with which the circuit's walk from the node there (0 past the leaves) ends at the root.
  pub compute_root-prove_inclusion :
      (leaves : List ℕ) (depth i : ℕ) (t : BuiltTree)
      → build_tree bb leaves depth ≡ ok t
      → i < 2 ^ depth
      → i < 2 ^ 31
      → (proof : InclusionProof) × (prove_inclusion bb t.layers i ≡ ok proof)
        × All IsBit proof.indices
        × (compute_root bb (node 0 leaves i) proof.path proof.indices ≡ ok t.root)
  compute_root-prove_inclusion leaves depth i t h lt small =
      let (zeros, fits, zs, ls, root) = build_tree_inv leaves depth t h in
      let a = layers_from-AreLayers bb depth 0 zeros leaves t.layers ls in
      let zs' : zeros_from bb depth 0 ≡ ok zeros = unfold zero_hashes in zs in
      let walked =
        walk bb depth zeros t.layers (λ k below. zeros_from-step bb depth 0 k zeros zs' below)
          (λ k below. rw zero-add at (a.parents k below)) depth 0 i (omega arith) lt small in
      (
        path_from depth 0 zeros t.layers i,
        prove_inclusion-zeros depth i zeros t.layers a.size zs,
        path_from-IsBit depth 0 zeros t.layers i,
        rw (← root, top_root-eq-node _ _ (a.top fits))
            (rw (a.first, zeros_from-head bb depth 0 zeros zs') at walked),
      )
