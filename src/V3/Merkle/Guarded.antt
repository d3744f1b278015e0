-- ===== src/V3/Merkle/Guarded.antt =====
-- What is hashed has passed the guard of a field element.
use crisp_qes.Common.{
  ℕ, suc, ◌≡◌, Bool-cases, inl, inr, List, [], ◌∷◌, ok, >>=-eq-ok, get_or, All, ltb, ltb→lt,
}
use crisp_qes.Pedersen.{fr_max}
use crisp_qes.Tree.Total.{IsField}
use crisp_qes.V3.Merkle.{to_be32, hash2, next_level, root_from, compute_root}

module _ (bb : List (List ℕ) → ℕ → List ℕ) where
  to_be32-IsField : (v : ℕ) (b : List ℕ) → to_be32 v ≡ ok b → IsField v
  unfolding to_be32
  to_be32-IsField v b h = elim (Bool-cases (ltb v fr_max)) [
    | inl small ↦ ltb→lt v fr_max small
    | inr large ↦ absurd (let clash = rw large at h in cc)
  ]

  hash2-IsField : (l r h : ℕ) → hash2 bb l r ≡ ok h → IsField l × IsField r
  unfolding hash2
  hash2-IsField l r h e =
      let (left, e_l, rest) = >>=-eq-ok (to_be32 l) _ e in
      let (right, e_r, _) = >>=-eq-ok (to_be32 r) _ rest in
      (to_be32-IsField l left e_l, to_be32-IsField r right e_r)

  next_level-IsField :
      (z : ℕ) (level next : List ℕ) → next_level bb z level ≡ ok next → All IsField level
  unfolding next_level
  next_level-IsField z [] next e = tt
  next_level-IsField z (l ∷ []) next e =
      let (h, hashed, _) = >>=-eq-ok (hash2 bb l z) _ e in ((hash2-IsField l z h hashed).0, tt)
  next_level-IsField z (l ∷ r ∷ level) next e =
      let (h, hashed, e') = >>=-eq-ok (hash2 bb l r) _ e in
      let (hs, later, _) = >>=-eq-ok (next_level bb z level) _ e' in
      let (hl, hr) = hash2-IsField l r h hashed in (hl, (hr, next_level-IsField z level hs later))

  root_from-IsField :
      (rounds d : ℕ) (zeros level : List ℕ) (root : ℕ)
      → root_from bb (suc rounds) d zeros level ≡ ok root
      → All IsField level
  unfolding root_from
  root_from-IsField rounds d zeros level root e =
      let (next, parents, _) = >>=-eq-ok (next_level bb (get_or zeros d 0) level) _ e in
      next_level-IsField (get_or zeros d 0) level next parents

  -- Leaves that have a root are field elements.
  pub compute_root-IsField :
      (zeros leaves : List ℕ) (root : ℕ)
      → compute_root bb zeros leaves ≡ ok root
      → All IsField leaves
  unfolding compute_root
  compute_root-IsField zeros [] root e = tt
  compute_root-IsField zeros (leaf ∷ leaves) root e =
      root_from-IsField 19 0 zeros (leaf ∷ leaves) root e
