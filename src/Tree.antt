-- ===== src/Tree.antt =====
-- packages/lotl-flattener/src/tree/merkle.ts: the Pedersen-Merkle tree that the trust list and the
-- enrollment registry share, and the walk of packages/circuit that checks an inclusion proof.
pub mod Levels
pub mod Inclusion
pub mod Total
use crisp_qes.Common.{
  ℕ, zero, suc, ◌+◌, ◌-◌, ◌/◌, ◌%◌, ◌^◌, Bool, Option, none, some, List, [], ◌∷◌, String, Result,
  ok, fail, ◌>>=◌, ◌>>◌, guard, leb, ltb, ◌==◌, if◌then◌else◌, length, get_elem?, get_or,
}
use crisp_qes.Pedersen.{pedersen_hash_fields}

abbrev pub merkle_node_domain : ℕ
merkle_node_domain = 0

pub record BuiltTree : Type 0 where
  pub root : ℕ
  pub layers : List (List ℕ)

pub record InclusionProof : Type 0 where
  pub path : List ℕ
  pub indices : List ℕ

-- `layer[i] ?? zero`
abbrev pub or_zero : ℕ → Option ℕ → ℕ
or_zero z none = z
or_zero z (some x) = x

-- `top.length === 1 ? top[0] : zeros[depth]`
unfoldable pub top_root : ℕ → List ℕ → ℕ
top_root z (x ∷ []) = x
top_root z _ = z

-- The loop of `proveInclusion` from `level` on, where `i` is the negative number `-(n + 1)`: the rest
-- by 2 is never 1, and the sibling stands at `-n`.
unfoldable pub path_below : ℕ → ℕ → List ℕ → List (List ℕ) → ℕ → InclusionProof
path_below zero level zeros layers n = record { path = []; indices = [] }
path_below (suc rounds) level zeros layers n =
    let sibling = if n == 0 then get_elem? (get_or layers level []) 0 else none in
    let later = path_below rounds (suc level) zeros layers (n / 2) in
    record {
      path = or_zero (get_or zeros level 0) sibling ∷ later.path;
      indices = 0 ∷ later.indices;
    }

-- The loop of `proveInclusion` from `level` on. `i >> 1` reads the lowest 32 bits of `i` as a signed
-- number.
unfoldable pub path_from : ℕ → ℕ → List ℕ → List (List ℕ) → ℕ → InclusionProof
unfolding path_below
path_from zero level zeros layers i = record { path = []; indices = [] }
path_from (suc rounds) level zeros layers i =
    let is_right = i % 2 == 1 in
    let sibling_idx = if is_right then i - 1 else i + 1 in
    let sibling = get_elem? (get_or layers level []) sibling_idx in
    let word = i % 2 ^ 32 in
    let above = path_from rounds (suc level) zeros layers (word / 2) in
    let below = path_below rounds (suc level) zeros layers ((2 ^ 32 - 1 - word) / 2) in
    let later = if ltb word (2 ^ 31) then above else below in
    record {
      path = or_zero (get_or zeros level 0) sibling ∷ later.path;
      indices = (if is_right then 1 else 0) ∷ later.indices;
    }

module _ (bb : List (List ℕ) → ℕ → List ℕ) where
  unfoldable pub hash2 : ℕ → ℕ → Result String ℕ
  hash2 l r = pedersen_hash_fields bb (l ∷ r ∷ []) merkle_node_domain

  -- `zeros[i]` for `n` more levels, from the zero hash `z` of this one.
  unfoldable pub zeros_from : ℕ → ℕ → Result String (List ℕ)
  zeros_from zero z = ok (z ∷ [])
  zeros_from (suc n) z = do z' ← hash2 z z; rest ← zeros_from n z'; ok (z ∷ rest)

  unfoldable pub zero_hashes : ℕ → Result String (List ℕ)
  unfolding zeros_from
  zero_hashes depth = zeros_from depth 0

  -- One round of the level loop: the parents of `cur`, a missing right child being `z`.
  unfoldable pub next_layer : ℕ → List ℕ → Result String (List ℕ)
  next_layer z [] = ok []
  next_layer z (l ∷ []) = do h ← hash2 l z; ok (h ∷ [])
  next_layer z (l ∷ r ∷ rest) = do h ← hash2 l r; hs ← next_layer z rest; ok (h ∷ hs)

  -- The level loop: `layers[level]` and those above it.
  unfoldable pub layers_from : ℕ → ℕ → List ℕ → List ℕ → Result String (List (List ℕ))
  layers_from zero level zeros cur = ok (cur ∷ [])
  layers_from (suc rounds) level zeros cur = do
    next ← next_layer (get_or zeros level 0) cur
    rest ← layers_from rounds (suc level) zeros next
    ok (cur ∷ rest)

  unfoldable pub build_tree : List ℕ → ℕ → Result String BuiltTree
  unfolding zero_hashes next_layer layers_from
  build_tree leaves depth = do
    guard (leb (length leaves) (2 ^ depth)) "leaf count exceeds tree capacity"
    zeros ← zero_hashes depth
    layers ← layers_from depth 0 zeros leaves
    ok (record { root = top_root (get_or zeros depth 0) (get_or layers depth []); layers = layers })

  unfoldable pub prove_inclusion : List (List ℕ) → ℕ → Result String InclusionProof
  unfolding zero_hashes
  prove_inclusion [] index = fail "layers must contain at least the leaf level"
  prove_inclusion (leaves ∷ upper) index = do
    zeros ← zero_hashes (length upper)
    ok (path_from (length upper) 0 zeros (leaves ∷ upper) index)

  -- The circuit's walk from a leaf to the root.
  unfoldable pub compute_root : ℕ → List ℕ → List ℕ → Result String ℕ
  compute_root node (s ∷ path) (i ∷ indices) = do
    parent ← (if i == 0 then hash2 node s else hash2 s node)
    compute_root parent path indices
  compute_root node _ _ = ok node
