-- ===== src/Oprf/Register/Consistent.antt =====
-- The store and the in-memory tree agree, and what an enrollment answers.
use crisp_qes.Common.{
  ℕ, ◌/◌, ◌≡◌, refl, sym, subst, ap, ◌∙◌, false, some, List, [], ◌∷◌, ◌++◌, String, ◌==◌, Result,
  ok, fail, Bool-cases, >>=-eq-ok, ok-injective, inl, inr, arith, length,
}
use crisp_qes.Common.Text.{Text, hex_to_bigint}
use crisp_qes.Common.Text.Hex.{from_hex}
use crisp_qes.MerkleIndex.{MerkleIndex, AppendResult, append, from_leaves, rebuild}
use crisp_qes.MerkleIndex.Laws.{
  IsIndexOf, Appends, append_inv, rebuild-build_tree, rebuild-IsIndexOf,
}
use crisp_qes.Oprf.Store.{
  Store, EnrolledRow, insert, has, count, next_leaf_index, kv_set, all_in_order, leaf_index_for,
}
use crisp_qes.Oprf.Store.Enrolled.{IsDense, commitments, extended, insert_next, all_in_order-dense}
use crisp_qes.Oprf.Service.{Clock, RegisterRequest, Reply, State, commitment_from_oprf_output}
use crisp_qes.Oprf.Register.{
  RegisterBody, row_of, parse_register, commitments_to_leaves, attest, persist, commit, enroll,
  enroll_parsed, register, rebuild_state,
}

leaves-append_last :
    (cs : List Text) (c : Text)
    → commitments_to_leaves (cs ++ c ∷ []) ≡ commitments_to_leaves cs ++ hex_to_bigint c ∷ []
leaves-append_last [] c = refl
leaves-append_last (d ∷ cs) c = ap (λ ls. hex_to_bigint d ∷ ls) (leaves-append_last cs c)

pub length-leaves :
    (rows : List EnrolledRow) → length (commitments_to_leaves (commitments rows)) ≡ length rows
length-leaves [] = refl
length-leaves (r ∷ rows) = omega (arith, length-leaves rows)

module _ (bb : List (List ℕ) → ℕ → List ℕ) where
  abbrev pub leaves_of : Store → List ℕ
  leaves_of s = commitments_to_leaves (all_in_order s)

  -- The leaf indices of the store are dense, and the tree is over its commitments in their order.
  pub record IsConsistent (st : State) : Type 0 where
    pub dense : IsDense 0 st.store.enrolled
    pub index : IsIndexOf bb (leaves_of st.store) st.merkle

  pub count-leaves : (s : Store) → IsDense 0 s.enrolled → length (leaves_of s) ≡ count s
  count-leaves s h = rw (all_in_order-dense s h) (length-leaves s.enrolled)

  -- The store with the row of a commitment, and the tree with its leaf, are consistent.
  pub extended-IsConsistent :
      (st : State) (merkle : MerkleIndex) (row : EnrolledRow) (r : AppendResult)
      → IsConsistent st
      → Appends bb (leaves_of st.store) (hex_to_bigint row.commitment) st.merkle merkle r
      → row.leaf_index ≡ r.leaf_index
      → has st.store row.commitment ≡ false
      → (insert st.store row ≡ some (extended st.store row))
        × IsConsistent (record { store = extended st.store row; merkle = merkle })
        × (leaf_index_for (extended st.store row) row.commitment ≡ some r.leaf_index)
  extended-IsConsistent st merkle row r c appends at free =
      let last : r.leaf_index ≡ next_leaf_index st.store =
        appends.leaf_index ∙ count-leaves st.store c.dense in
      let (inserted, dense, order, found) = (insert_next st.store row c.dense (at ∙ last)).1 free in
      let leaves =
        ap commitments_to_leaves order
        ∙ leaves-append_last (all_in_order st.store) row.commitment in
      (
        inserted,
        record {
          dense = dense;
          index = subst (λ ls. IsIndexOf bb ls merkle) (sym leaves) appends.index;
        },
        found ∙ ap some (sym last),
      )

  attest-IsConsistent :
      (st : State) (c : Text) (r : AppendResult) (root : Result String Text)
      → IsConsistent st
      → IsConsistent (attest bb st c r root).1
  unfolding attest kv_set all_in_order
  attest-IsConsistent st c r (ok root) h = record { dense = h.dense; index = h.index }
  attest-IsConsistent st c r (fail e) h = h

  commit-IsConsistent :
      (st : State) (clock : Clock) (body : RegisterBody)
      → IsConsistent st
      → has st.store body.commitment ≡ false
      → (m : Result String (MerkleIndex × AppendResult))
      → append bb st.merkle (hex_to_bigint body.commitment) ≡ m
      → IsConsistent (commit bb st clock body m).1
  unfolding commit persist
  commit-IsConsistent st clock body h free (fail e) e' = h
  commit-IsConsistent st clock body h free (ok (merkle, r)) e =
      let appends =
        append_inv bb (leaves_of st.store) (hex_to_bigint body.commitment) st.merkle merkle r
          h.index e in
      let (inserted, h', found) =
        extended-IsConsistent st merkle (row_of body r.leaf_index (clock.ms / 1000)) r h appends
          refl free in
      rw inserted (attest-IsConsistent _ body.commitment r _ h')

  -- One request of `POST /oprf/register`, run to its end, keeps the store and the tree consistent,
  -- whatever it answers or throws.
  pub register-IsConsistent :
      (st : State) (clock : Clock) (req : RegisterRequest)
      → IsConsistent st
      → IsConsistent (register bb st clock req).1
  unfolding register
  register-IsConsistent st clock req h = parsed (parse_register req)
    where
      checked :
          (body : RegisterBody) (derived : Result String ℕ)
          → IsConsistent (enroll bb st clock body derived).1
      checked body (fail e) = unfold enroll in h
      checked body (ok expected) = elim (Bool-cases (expected == hex_to_bigint body.commitment)) [
        | inr differs ↦ unfold enroll in (rw differs h)
        | inl same ↦ elim (Bool-cases (has st.store body.commitment)) [
          | inl taken ↦ unfold enroll in (rw (same, taken) h)
          | inr free ↦
              unfold enroll in (rw (same, free) (commit-IsConsistent st clock body h free _ refl))
        ]
      ]

      parsed : (p : Result Reply RegisterBody) → IsConsistent (enroll_parsed bb st clock p).1
      parsed (fail r) = h
      parsed (ok body) =
          checked body (commitment_from_oprf_output bb (from_hex body.unblinded_output))

  -- The tree that `buildApp` builds of a store with dense leaf indices is consistent with it.
  pub rebuild_state-IsConsistent :
      (s : Store) (st : State) → IsDense 0 s.enrolled → rebuild_state bb s ≡ ok st → IsConsistent st
  unfolding rebuild_state from_leaves
  rebuild_state-IsConsistent s st dense h =
      let (merkle, built, same) = >>=-eq-ok (rebuild bb (leaves_of s)) _ h in
      subst IsConsistent (ok-injective same)
        (record { dense = dense; index = rebuild-IsIndexOf bb (leaves_of s) merkle built })

  rebuild_state-index :
      (st : State)
      → IsConsistent st
      → (merkle : MerkleIndex) × (rebuild_state bb st.store
          ≡ ok (record { store = st.store; merkle = merkle }))
        × (merkle ≡ st.merkle)
  unfolding rebuild_state from_leaves
  rebuild_state-index st h =
      let leaves = leaves_of st.store in
      let x = h.index in
      (
        record { layers = x.tree.layers; root = x.tree.root; leaf_count = length leaves },
        rw (rebuild-build_tree bb leaves x.tree x.built) refl,
        ap (λ l. record { layers = l; root = x.tree.root; leaf_count = length leaves })
              (sym x.layers)
            ∙ ap (λ q. record { layers = st.merkle.layers; root = q; leaf_count = length leaves })
                (sym x.root)
            ∙ ap (λ n. record { layers = st.merkle.layers; root = st.merkle.root; leaf_count = n })
                (sym x.count),
      )

  -- The state after some requests for enrollments, each run to its end.
  abbrev pub after_requests : List (Clock × RegisterRequest) → State → State
  after_requests [] st = st
  after_requests ((clock, req) ∷ reqs) st = after_requests reqs (register bb st clock req).1

  after_requests-IsConsistent :
      (reqs : List (Clock × RegisterRequest)) (st : State)
      → IsConsistent st
      → IsConsistent (after_requests reqs st)
  after_requests-IsConsistent [] st h = h
  after_requests-IsConsistent ((clock, req) ∷ reqs) st h =
      after_requests-IsConsistent reqs (register bb st clock req).1
        (register-IsConsistent st clock req h)

  -- A restart restores the state: if the service starts on a store whose rows have the leaf indices 0,
  -- 1 and so on, and runs any requests for enrollments, each to its end, then `buildApp` on the store
  -- that they leave returns the state that they leave, with the same tree.
  pub rebuild_state-restores :
      (s : Store) (st : State) (reqs : List (Clock × RegisterRequest))
      → IsDense 0 s.enrolled
      → rebuild_state bb s ≡ ok st
      → rebuild_state bb (after_requests reqs st).store ≡ ok (after_requests reqs st)
  rebuild_state-restores s st reqs dense started =
      let h = after_requests-IsConsistent reqs st (rebuild_state-IsConsistent s st dense started) in
      let (merkle, rebuilt, same) = rebuild_state-index (after_requests reqs st) h in
      rebuilt ∙ ap (λ m. ok (record { store = (after_requests reqs st).store; merkle = m })) same
