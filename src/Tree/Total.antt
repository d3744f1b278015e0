-- ===== src/Tree/Total.antt =====
-- `buildTree` returns a tree for field elements that fit, and throws for too many leaves.
use crisp_qes.Common.{
  ℕ, zero, suc, ◌^◌, ◌≤◌, ◌<◌, ◌≡◌, refl, List, [], ◌∷◌, ok, fail, length, get_or, arith, leb,
  lt→ltb, All, true, false,
}
use crisp_qes.Pedersen.{
  fr_max, bigint_to_be32, bytes_be_to_bigint, to_buffers, pedersen_hash_fields, be_bytes,
}
use crisp_qes.Tree.{top_root, hash2, zeros_from, next_layer, layers_from, BuiltTree, build_tree}

abbrev pub IsField : ℕ → Type 0
IsField x = x < fr_max

module _ (bb : List (List ℕ) → ℕ → List ℕ)
    (outputs : (buffers : List (List ℕ)) (i : ℕ)
      → IsField (bytes_be_to_bigint (bb buffers i))) where
  pub hash2_total : (l r : ℕ) → IsField l → IsField r → (h : ℕ) × (hash2 bb l r ≡ ok h) × IsField h
  unfolding hash2 pedersen_hash_fields to_buffers bigint_to_be32
  hash2_total l r hl hr =
      let buffers : List (List ℕ) = be_bytes 32 l [] ∷ be_bytes 32 r [] ∷ [] in
      (
        bytes_be_to_bigint (bb buffers 0),
        rw (lt→ltb l fr_max hl, lt→ltb r fr_max hr) refl,
        outputs buffers 0,
      )

  pub zeros_from_total :
      (n z : ℕ) → IsField z → (zs : List ℕ) × (zeros_from bb n z ≡ ok zs) × All IsField zs
  unfolding zeros_from
  zeros_from_total zero z h = (z ∷ [], refl, (h, tt))
  zeros_from_total (suc n) z h =
      let (z', hashed, h') = hash2_total z z h h in
      let (rest, later, hs) = zeros_from_total n z' h' in
      (z ∷ rest, rw (hashed, later) refl, (h, hs))

  pub next_layer_total :
      (z : ℕ) (cur : List ℕ)
      → IsField z
      → All IsField cur
      → (next : List ℕ) × (next_layer bb z cur ≡ ok next) × All IsField next
  unfolding next_layer
  next_layer_total z [] hz _ = ([], refl, tt)
  next_layer_total z (l ∷ []) hz (hl, _) =
      let (p, hashed, hp) = hash2_total l z hl hz in (p ∷ [], rw hashed refl, (hp, tt))
  next_layer_total z (l ∷ r ∷ cur) hz (hl, (hr, hs)) =
      let (p, hashed, hp) = hash2_total l r hl hr in
      let (next, later, hn) = next_layer_total z cur hz hs in
      (p ∷ next, rw (hashed, later) refl, (hp, hn))

  pub get_or-IsField : (xs : List ℕ) (i : ℕ) → All IsField xs → IsField (get_or xs i 0)
  get_or-IsField [] i h = omega arith
  get_or-IsField (x ∷ xs) zero (h, _) = h
  get_or-IsField (x ∷ xs) (suc i) (_, h) = get_or-IsField xs i h

  layers_from_total :
      (rounds level : ℕ) (zeros cur : List ℕ)
      → All IsField zeros
      → All IsField cur
      → (ls : List (List ℕ)) × (layers_from bb rounds level zeros cur ≡ ok ls)
  unfolding layers_from
  layers_from_total zero level zeros cur hz hc = (cur ∷ [], refl)
  layers_from_total (suc rounds) level zeros cur hz hc =
      let (next, parent, hn) =
        next_layer_total (get_or zeros level 0) cur (get_or-IsField zeros level hz) hc in
      let (rest, later) = layers_from_total rounds (suc level) zeros next hz hn in
      (cur ∷ rest, rw (parent, later) refl)

  -- A list of field elements that fits the depth is built into a tree, and a longer list is refused.
  pub build_tree_total :
      (leaves : List ℕ) (depth : ℕ)
      → All IsField leaves
      → (length leaves ≤ 2 ^ depth → (t : BuiltTree) × (build_tree bb leaves depth ≡ ok t))
        × (2 ^ depth < length leaves
            → build_tree bb leaves depth ≡ fail "leaf count exceeds tree capacity")
  unfolding build_tree
  build_tree_total leaves depth h =
      let (zeros, zs, hz) = zeros_from_total depth 0 (omega arith) in
      let (ls, built) = layers_from_total depth 0 zeros leaves hz h in
      (
        λ le.
            let fits : leb (length leaves) (2 ^ depth) ≡ true = ground arith in
            (
              record { root = top_root (get_or zeros depth 0) (get_or ls depth []); layers = ls },
              rw (fits, zs, built) refl,
            ),
        λ gt. let full : leb (length leaves) (2 ^ depth) ≡ false = ground arith in rw full refl,
      )
