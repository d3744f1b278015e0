-- ===== src/V3/Merkle/Levels.antt =====
-- The levels of the tree are those of `buildTree`, and the rounds of a root and of a proof walk them.
use crisp_qes.Common.{
  ℕ, zero, suc, ◌+◌, ◌/◌, ◌^◌, ◌<◌, ◌≤◌, ◌≡◌, refl, sym, ap, ◌∙◌, List, [], ◌∷◌, ok, >>=-eq-ok,
  ok-injective, length, get_or, get_elem?, arith,
}
use crisp_qes.Pedersen.{bigint_to_be32, to_buffers, pedersen_hash_fields}
use crisp_qes.Tree
use crisp_qes.Tree.{or_zero, InclusionProof, path_from}
use crisp_qes.Tree.Levels.{layers_from_inv}
use crisp_qes.Tree.Inclusion.{small_word}
use crisp_qes.V3.Merkle.{to_be32, sibling_of, hash2, zeros_from, next_level, root_from, proof_from}

-- The sibling of the two sources, present or not.
sibling_of-or_zero :
    (z : ℕ) (level : List ℕ) (i : ℕ) → sibling_of z level i ≡ or_zero z (get_elem? level i)
sibling_of-or_zero z [] i = ground arith
sibling_of-or_zero z (x ∷ level) zero = ground arith
sibling_of-or_zero z (x ∷ level) (suc i) = ground (arith, sibling_of-or_zero z level i)

module _ (bb : List (List ℕ) → ℕ → List ℕ) where
  hash2-Tree : (l r h : ℕ) → Tree.hash2 bb l r ≡ ok h → hash2 bb l r ≡ ok h
  unfolding hash2 Tree.hash2 pedersen_hash_fields to_buffers bigint_to_be32 to_be32
  hash2-Tree l r h e = ground arith

  pub zeros_from-Tree :
      (n z : ℕ) (zs : List ℕ) → Tree.zeros_from bb n z ≡ ok zs → zeros_from bb n z ≡ ok zs
  unfolding zeros_from Tree.zeros_from
  zeros_from-Tree zero z zs e = e
  zeros_from-Tree (suc n) z zs e =
      let (z', hashed, e') = >>=-eq-ok (Tree.hash2 bb z z) _ e in
      let (rest, later, same) = >>=-eq-ok (Tree.zeros_from bb n z') _ e' in
      rw (hash2-Tree z z z' hashed, zeros_from-Tree n z' rest later) same

  pub next_level-Tree :
      (z : ℕ) (level next : List ℕ)
      → Tree.next_layer bb z level ≡ ok next
      → next_level bb z level ≡ ok next
  unfolding next_level Tree.next_layer
  next_level-Tree z [] next e = e
  next_level-Tree z (l ∷ []) next e =
      let (h, hashed, same) = >>=-eq-ok (Tree.hash2 bb l z) _ e in rw (hash2-Tree l z h hashed) same
  next_level-Tree z (l ∷ r ∷ level) next e =
      let (h, hashed, e') = >>=-eq-ok (Tree.hash2 bb l r) _ e in
      let (rest, later, same) = >>=-eq-ok (Tree.next_layer bb z level) _ e' in
      rw (hash2-Tree l r h hashed, next_level-Tree z level rest later) same

  -- The rounds of the root end at the first node of the top level.
  pub root_from-layers_from :
      (rounds d : ℕ) (zeros level : List ℕ) (ls : List (List ℕ))
      → Tree.layers_from bb rounds d zeros level ≡ ok ls
      → root_from bb rounds d zeros level ≡ ok (get_or (get_or ls rounds []) 0 0)
  unfolding root_from
  root_from-layers_from zero d zeros level ls e =
      let same : level ∷ [] ≡ ls = unfold Tree.layers_from in (ok-injective e) in rw (← same) refl
  root_from-layers_from (suc rounds) d zeros level ls e =
      let (next, rest, parents, later, same) = layers_from_inv bb rounds d zeros level e in
      rw (← same, next_level-Tree _ level next parents)
        (root_from-layers_from rounds (suc d) zeros next rest later)

  -- The rounds of a proof read the siblings that `proveInclusion` reads from the stored levels.
  pub proof_from-path_from :
      (rounds d : ℕ) (zeros level : List ℕ) (ls layers : List (List ℕ)) (i : ℕ)
      → i < 2 ^ 31
      → Tree.layers_from bb rounds d zeros level ≡ ok ls
      → ((k : ℕ) → k ≤ rounds → get_or layers (d + k) [] ≡ get_or ls k [])
      → proof_from bb rounds d zeros level i
        ≡ ok (record {
          path = (path_from rounds d zeros layers i).path;
          indices = (path_from rounds d zeros layers i).indices;
        })
  unfolding proof_from path_from
  proof_from-path_from zero d zeros level ls layers i small e same = refl
  proof_from-path_from (suc rounds) d zeros level ls layers i small e same =
      let (word, fits) = small_word i small in
      let (next, rest, parents, later, eq) = layers_from_inv bb rounds d zeros level e in
      let here : get_or layers d [] ≡ level =
        ap (λ n. get_or layers n []) {x = d} {y = d + 0} (omega arith)
        ∙ same 0 (omega arith)
        ∙ ap (λ l. get_or l 0 []) (sym eq) in
      let ih =
        proof_from-path_from rounds (suc d) zeros next rest layers (i / 2) (omega (arith, small))
          later
          λ k le.
            ap (λ n. get_or layers n []) {x = suc d + k} {y = d + suc k} (omega arith)
            ∙ same (suc k) (omega (arith, le))
            ∙ ap (λ l. get_or l (suc k) []) (sym eq) in
      rw (next_level-Tree _ level next parents, ih, here, word, fits, sibling_of-or_zero) refl

  next_layer-filled :
      (z : ℕ) (level next : List ℕ)
      → 0 < length level
      → Tree.next_layer bb z level ≡ ok next
      → 0 < length next
  unfolding Tree.next_layer
  next_layer-filled z [] next lt e = absurd (omega (arith, lt))
  next_layer-filled z (l ∷ []) next lt e =
      let (h, _, same) = >>=-eq-ok (Tree.hash2 bb l z) _ e in rw (← ok-injective same) (omega arith)
  next_layer-filled z (l ∷ r ∷ level) next lt e =
      let (h, _, e') = >>=-eq-ok (Tree.hash2 bb l r) _ e in
      let (rest, _, same) = >>=-eq-ok (Tree.next_layer bb z level) _ e' in
      rw (← ok-injective same) (omega arith)

  -- Over a level with a node, the top level has a node.
  pub layers_from-filled :
      (rounds d : ℕ) (zeros level : List ℕ) (ls : List (List ℕ))
      → 0 < length level
      → Tree.layers_from bb rounds d zeros level ≡ ok ls
      → 0 < length (get_or ls rounds [])
  layers_from-filled zero d zeros level ls lt e =
      let same : level ∷ [] ≡ ls = unfold Tree.layers_from in (ok-injective e) in rw (← same) lt
  layers_from-filled (suc rounds) d zeros level ls lt e =
      let (next, rest, parents, later, same) = layers_from_inv bb rounds d zeros level e in
      rw (← same) (
        layers_from-filled rounds (suc d) zeros next rest
          (next_layer-filled _ level next lt parents) later)
