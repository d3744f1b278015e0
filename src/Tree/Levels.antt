-- ===== src/Tree/Levels.antt =====
-- The levels of a built tree: zero hashes, parents and sizes, of tree/merkle.ts.
use native.Mathlib.Nat.{pow-suc, pow-zero, add-zero, add-suc, suc-add}
use crisp_qes.Common.{
  ℕ, zero, suc, ◌+◌, ◌^◌, ◌≤◌, ◌<◌, ◌≡◌, refl, ap, List, [], ◌∷◌, ok, bind-ok-eq-ok,
  bind-bind-ok-eq-ok, length, get_elem?, get_or, arith,
}
use crisp_qes.Tree.{or_zero, top_root, hash2, zeros_from, next_layer, layers_from}

-- The node at index `i` of a level whose zero subtree hashes to `z`.
abbrev pub node : ℕ → List ℕ → ℕ → ℕ
node z layer i = or_zero z (get_elem? layer i)

abbrev pub double : ℕ → ℕ
double zero = 0
double (suc n) = suc (suc (double n))

pub double-eq-add : (n : ℕ) → double n ≡ n + n
double-eq-add zero = refl
double-eq-add (suc n) = omega (arith, double-eq-add n)

pub top_root-eq-node : (z : ℕ) (top : List ℕ) → length top ≤ 1 → top_root z top ≡ node z top 0
unfolding top_root
top_root-eq-node z [] h = refl
top_root-eq-node z (x ∷ []) h = refl
top_root-eq-node z (x ∷ y ∷ r) h = absurd (omega arith)

module _ (bb : List (List ℕ) → ℕ → List ℕ) where
  zeros_from_inv :
      (n z : ℕ) {zs : List ℕ}
      → zeros_from bb (suc n) z ≡ ok zs
      → (z' : ℕ) × (rest : List ℕ) × (hash2 bb z z ≡ ok z')
        × (zeros_from bb n z' ≡ ok rest)
        × (z ∷ rest ≡ zs)
  unfolding zeros_from
  zeros_from_inv n z h =
      bind-bind-ok-eq-ok (hash2 bb z z) (λ z'. zeros_from bb n z') (λ _ rest. z ∷ rest) h

  next_layer_inv :
      (z l r : ℕ) (cur : List ℕ) {next : List ℕ}
      → next_layer bb z (l ∷ r ∷ cur) ≡ ok next
      → (p : ℕ) × (hs : List ℕ) × (hash2 bb l r ≡ ok p)
        × (next_layer bb z cur ≡ ok hs)
        × (p ∷ hs ≡ next)
  unfolding next_layer
  next_layer_inv z l r cur h =
      bind-bind-ok-eq-ok (hash2 bb l r) (λ _. next_layer bb z cur) (λ p hs. p ∷ hs) h

  next_layer_last_inv :
      (z l : ℕ) {next : List ℕ}
      → next_layer bb z (l ∷ []) ≡ ok next
      → (p : ℕ) × (hash2 bb l z ≡ ok p) × (p ∷ [] ≡ next)
  unfolding next_layer
  next_layer_last_inv z l h = bind-ok-eq-ok (hash2 bb l z) (λ p. p ∷ []) h

  pub layers_from_inv :
      (rounds level : ℕ) (zeros cur : List ℕ) {ls : List (List ℕ)}
      → layers_from bb (suc rounds) level zeros cur ≡ ok ls
      → (next : List ℕ) × (rest : List (List ℕ)) × (next_layer bb (get_or zeros level 0) cur
          ≡ ok next)
        × (layers_from bb rounds (suc level) zeros next ≡ ok rest)
        × (cur ∷ rest ≡ ls)
  unfolding layers_from
  layers_from_inv rounds level zeros cur h =
      bind-bind-ok-eq-ok (next_layer bb (get_or zeros level 0) cur)
        (λ next. layers_from bb rounds (suc level) zeros next) (λ _ rest. cur ∷ rest) h

  pub zeros_from-head : (n z : ℕ) (zs : List ℕ) → zeros_from bb n z ≡ ok zs → get_or zs 0 0 ≡ z
  zeros_from-head zero z zs h = unfold zeros_from in ground arith
  zeros_from-head (suc n) z zs h = let (z', rest, _, _, e) = zeros_from_inv n z h in rw (← e) refl

  -- Each zero hash is the hash of two copies of the one below.
  pub zeros_from-step :
      (n z k : ℕ) (zs : List ℕ)
      → zeros_from bb n z ≡ ok zs
      → k < n
      → hash2 bb (get_or zs k 0) (get_or zs k 0) ≡ ok (get_or zs (suc k) 0)
  zeros_from-step zero z k zs h lt = absurd (omega arith)
  zeros_from-step (suc n) z zero zs h lt =
      let (z', rest, hashed, later, e) = zeros_from_inv n z h in
      rw (← e, zeros_from-head n z' rest later) hashed
  zeros_from-step (suc n) z (suc k) zs h lt =
      let (z', rest, hashed, later, e) = zeros_from_inv n z h in
      rw (← e) (zeros_from-step n z' k rest later (omega arith))

  -- The parent of two neighbours, present or not, is the hash of both.
  pub next_layer-node :
      (z z' : ℕ) (cur next : List ℕ) (i : ℕ)
      → next_layer bb z cur ≡ ok next
      → hash2 bb z z ≡ ok z'
      → hash2 bb (node z cur (double i)) (node z cur (suc (double i))) ≡ ok (node z' next i)
  next_layer-node z z' [] next i h zz =
      let e : [] ≡ next = unfold next_layer in ground arith in rw (← e) zz
  next_layer-node z z' (l ∷ []) next zero h zz =
      let (p, hashed, e) = next_layer_last_inv z l h in rw (← e) hashed
  next_layer-node z z' (l ∷ []) next (suc i) h zz =
      let (p, hashed, e) = next_layer_last_inv z l h in rw (← e) zz
  next_layer-node z z' (l ∷ r ∷ cur) next zero h zz =
      let (p, hs, hashed, _, e) = next_layer_inv z l r cur h in rw (← e) hashed
  next_layer-node z z' (l ∷ r ∷ cur) next (suc i) h zz =
      let (p, hs, _, later, e) = next_layer_inv z l r cur h in
      rw (← e) (next_layer-node z z' cur hs i later zz)

  pub next_layer-length :
      (z m : ℕ) (cur next : List ℕ)
      → next_layer bb z cur ≡ ok next
      → length cur ≤ m + m
      → length next ≤ m
  next_layer-length z m [] next h le =
      let e : [] ≡ next = unfold next_layer in ground arith in rw (← e) (omega arith)
  next_layer-length z m (l ∷ []) next h le =
      let (p, _, e) = next_layer_last_inv z l h in rw (← e) (omega arith)
  next_layer-length z zero (l ∷ r ∷ cur) next h le = absurd (omega arith)
  next_layer-length z (suc m) (l ∷ r ∷ cur) next h le =
      let (p, hs, _, later, e) = next_layer_inv z l r cur h in
      rw (← e) (omega (arith, next_layer-length z m cur hs later (omega arith)))

  -- What `layers_from` has built: each level is the parents of the one below.
  pub record AreLayers (rounds level : ℕ) (zeros cur : List ℕ) (ls : List (List ℕ)) : Type 0 where
    pub first : get_or ls 0 [] ≡ cur
    pub size : length ls ≡ suc rounds
    pub parents :
        (k : ℕ)
        → k < rounds
        → next_layer bb (get_or zeros (level + k) 0) (get_or ls k []) ≡ ok (get_or ls (suc k) [])
    pub top : length cur ≤ 2 ^ rounds → length (get_or ls rounds []) ≤ 1

  module _ {rounds level : ℕ} {zeros cur next : List ℕ} {rest : List (List ℕ)} where
    AreLayers-cons :
        next_layer bb (get_or zeros level 0) cur ≡ ok next
        → AreLayers rounds (suc level) zeros next rest
        → AreLayers (suc rounds) level zeros cur (cur ∷ rest)
    AreLayers-cons parent later = record {
      first = refl;
      size = ap suc later.size;
      parents = all_parents;
      top = λ le. later.top (
          next_layer-length _ (2 ^ rounds) cur next parent
            (let e = pow-suc 2 rounds in omega arith));
    }
      where
        all_parents :
            (k : ℕ)
            → k < suc rounds
            → next_layer bb (get_or zeros (level + k) 0) (get_or (cur ∷ rest) k [])
              ≡ ok (get_or rest k [])
        all_parents zero lt = rw (add-zero, later.first) parent
        all_parents (suc k) lt = rw (add-suc, ← suc-add) (later.parents k (omega arith))

  pub layers_from-AreLayers :
      (rounds level : ℕ) (zeros cur : List ℕ) (ls : List (List ℕ))
      → layers_from bb rounds level zeros cur ≡ ok ls
      → AreLayers rounds level zeros cur ls
  layers_from-AreLayers zero level zeros cur ls h =
      let e : cur ∷ [] ≡ ls = unfold layers_from in ground arith in
      rw (← e) (record {
        first = refl;
        size = refl;
        parents = λ k lt. absurd (omega arith);
        top = λ le. omega (arith, pow-zero 2);
      })
  layers_from-AreLayers (suc rounds) level zeros cur ls h =
      let (next, rest, parent, later, e) = layers_from_inv rounds level zeros cur h in
      rw (← e)
        (AreLayers-cons parent (layers_from-AreLayers rounds (suc level) zeros next rest later))

  pub layers_from-empty :
      (rounds level : ℕ) (zeros : List ℕ) (ls : List (List ℕ))
      → layers_from bb rounds level zeros [] ≡ ok ls
      → get_or ls rounds [] ≡ []
  layers_from-empty zero level zeros ls h =
      let e : [] ∷ [] ≡ ls = unfold layers_from in ground arith in rw (← e) refl
  layers_from-empty (suc rounds) level zeros ls h =
      let (next, rest, none, later, e) = layers_from_inv rounds level zeros [] h in
      let e' : [] ≡ next = unfold next_layer in ground arith in
      rw (← e) (layers_from-empty rounds (suc level) zeros rest (rw (← e') at later))
