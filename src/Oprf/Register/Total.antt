-- ===== src/Oprf/Register/Total.antt =====
-- `POST /oprf/register` of packages/oprf/src/app.ts: when it answers, when it refuses, when it throws.
use crisp_qes.Common.{
  ℕ, ◌/◌, ◌^◌, ◌≤◌, ◌<◌, ◌≡◌, refl, subst, true, false, List, [], ◌∷◌, ◌==◌, ok, fail, >>=-eq-ok,
  lt→ltb, arith, length, All, ok-injective, Bool-cases, inl, inr,
}
use crisp_qes.Common.Text.{Text, hex_to_bigint}
use crisp_qes.Common.Text.Hex.{bigint_to_hex32, from_hex, hex_digits}
use crisp_qes.Pedersen.{bytes_be_to_bigint, pedersen_hash_fields, to_buffers}
use crisp_qes.Tree.{hash2, compute_root}
use crisp_qes.Tree.Total.{IsField}
use crisp_qes.MerkleIndex.{append, tree_depth}
use crisp_qes.MerkleIndex.Laws.{append_total}
use crisp_qes.Oprf.Store.{has, count}
use crisp_qes.Oprf.Service.{
  Clock, RegisterRequest, Payload, Reply, State, reply_with, commitment_from_oprf_output,
}
use crisp_qes.Oprf.Register.{
  RegisterBody, row_of, parse_register, attest, persist, commit, enroll, register,
}
use crisp_qes.Oprf.Register.Consistent.{
  IsConsistent, leaves_of, count-leaves, extended-IsConsistent,
}

module _ (bb : List (List ℕ) → ℕ → List ℕ)
    (outputs : (buffers : List (List ℕ)) (i : ℕ)
      → IsField (bytes_be_to_bigint (bb buffers i))) where
  pedersen_hash_fields-IsField :
      (inputs : List ℕ) (i h : ℕ) → pedersen_hash_fields bb inputs i ≡ ok h → IsField h
  unfolding pedersen_hash_fields
  pedersen_hash_fields-IsField inputs i h e =
      let (buffers, _, same) = >>=-eq-ok (to_buffers inputs) _ e in
      subst (λ x. IsField x) (ok-injective same) (outputs buffers i)

  hash2-IsField : (l r h : ℕ) → hash2 bb l r ≡ ok h → IsField h
  unfolding hash2
  hash2-IsField l r h e = pedersen_hash_fields-IsField (l ∷ r ∷ []) _ h e

  compute_root-IsField :
      (node : ℕ) (path indices : List ℕ) (h : ℕ)
      → IsField node
      → compute_root bb node path indices ≡ ok h
      → IsField h
  unfolding compute_root
  compute_root-IsField node [] indices h f e = subst (λ x. IsField x) (ok-injective e) f
  compute_root-IsField node (s ∷ path) [] h f e = subst (λ x. IsField x) (ok-injective e) f
  compute_root-IsField node (s ∷ path) (i ∷ indices) h f e = elim (Bool-cases (i == 0)) [
    | inl left ↦
        let (parent, hashed, rest) = >>=-eq-ok (hash2 bb node s) _ (rw left at e) in
        compute_root-IsField parent path indices h (hash2-IsField node s parent hashed) rest
    | inr right ↦
        let (parent, hashed, rest) = >>=-eq-ok (hash2 bb s node) _ (rw right at e) in
        compute_root-IsField parent path indices h (hash2-IsField s node parent hashed) rest
  ]

  commitment-IsField : (n : List ℕ) (h : ℕ) → commitment_from_oprf_output bb n ≡ ok h → IsField h
  unfolding commitment_from_oprf_output
  commitment-IsField n h = elim (Bool-cases (length n == 32)) [
    | inl wide ↦ rw wide (pedersen_hash_fields-IsField _ 0 h)
    | inr other ↦ rw other λ e. cc
  ]

  bigint_to_hex32-field : (v : ℕ) → IsField v → (t : Text) × (bigint_to_hex32 v ≡ ok t)
  unfolding bigint_to_hex32
  bigint_to_hex32-field v f =
      let fits : v < 16 ^ 64 = omega (arith, f) in
      (48 ∷ 120 ∷ hex_digits 64 v [], rw (lt→ltb v (16 ^ 64) fits) refl)

  commit_total :
      (st : State) (clock : Clock) (body : RegisterBody)
      → IsConsistent bb st
      → All IsField (leaves_of bb st.store)
      → IsField (hex_to_bigint body.commitment)
      → has st.store body.commitment ≡ false
      → length (leaves_of bb st.store) < 2 ^ tree_depth
      → (reply : Reply) × ((commit bb st clock body
            (append bb st.merkle (hex_to_bigint body.commitment))).0
          ≡ ok reply)
        × (reply.code ≡ 200)
  commit_total st clock body c hs f free lt =
      let leaf = hex_to_bigint body.commitment in
      let (merkle, r, appended, a) =
        (append_total bb outputs (leaves_of bb st.store) leaf st.merkle c.index hs f).0 lt in
      let (inserted, _, _) =
        extended-IsConsistent bb st merkle (row_of body r.leaf_index (clock.ms / 1000)) r c a refl
          free in
      let (root, stamped) =
        bigint_to_hex32-field r.new_root
          (compute_root-IsField leaf r.path r.indices _ f a.walked) in
      unfold commit persist attest in (rw (appended, inserted, stamped) (_, refl, refl))

  -- For a body whose commitment is the one derived from its output, on a consistent state whose
  -- leaves are field elements and for a hash into the field, `POST /oprf/register` answers 409 and
  -- changes nothing if the commitment is enrolled; if it is new, it answers 200 if fewer than
  -- 2 ^ 20 rows are stored, and otherwise throws and changes nothing.
  pub register_total :
      (st : State) (clock : Clock) (req : RegisterRequest) (body : RegisterBody)
      → IsConsistent bb st
      → All IsField (leaves_of bb st.store)
      → parse_register req ≡ ok body
      → commitment_from_oprf_output bb (from_hex body.unblinded_output)
        ≡ ok (hex_to_bigint body.commitment)
      → (has st.store body.commitment ≡ true
          → register bb st clock req
            ≡ (ok (reply_with 409 (Payload.already_enrolled body.commitment)), st))
        × (has st.store body.commitment ≡ false
            → (count st.store < 2 ^ tree_depth
                → (reply : Reply) × ((register bb st clock req).0 ≡ ok reply) × (reply.code ≡ 200))
              × (2 ^ tree_depth ≤ count st.store
                  → register bb st clock req ≡ (fail "leaf count exceeds tree capacity", st)))
  register_total st clock req body c hs parsed derived =
      let leaf = hex_to_bigint body.commitment in
      let same : (leaf == leaf) ≡ true = ground arith in
      let f = commitment-IsField (from_hex body.unblinded_output) leaf derived in
      let counted = count-leaves bb st.store c.dense in
      unfold register enroll in
      (rw (parsed, derived, same)
        (
          λ taken. rw taken refl,
          λ free. (
            λ lt. rw free (commit_total st clock body c hs f free (omega (arith, lt, counted))),
            λ le.
                let full =
                  (append_total bb outputs (leaves_of bb st.store) leaf st.merkle c.index hs f).1
                    (omega (arith, le, counted)) in
                unfold commit in (rw (free, full) refl),
          ),
        ))
