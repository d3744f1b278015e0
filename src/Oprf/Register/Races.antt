-- ===== src/Oprf/Register/Races.antt =====
-- `POST /oprf/register` of packages/oprf/src/app.ts, when two requests overlap: `append` of
-- packages/oprf/src/merkle.ts reads the leaves before it awaits the hashes, and stores the tree after.
use crisp_qes.Common.{
  ℕ, ◌/◌, ◌≡◌, refl, sym, ap, ◌∙◌, true, false, none, List, [], ◌∷◌, ◌++◌, any, String, Result, ok,
  fail, arith, get_or,
}
use crisp_qes.Common.Text.{Text, hex_to_bigint}
use crisp_qes.MerkleIndex.{MerkleIndex, AppendResult, append}
use crisp_qes.MerkleIndex.Laws.{Appends, append_inv, IsIndexOf-leaves}
use crisp_qes.Oprf.Store.{EnrolledRow, collides, has, insert, count, kv_set}
use crisp_qes.Oprf.Store.Enrolled.{extended}
use crisp_qes.Oprf.Service.{Clock, Payload, State, reply_with}
use crisp_qes.Oprf.Register.{RegisterBody, Outcome, row_of, attest, persist, commit}
use crisp_qes.Oprf.Register.Consistent.{
  IsConsistent, leaves_of, count-leaves, extended-IsConsistent,
}

-- A row with the leaf index of the last one collides.
collides-last :
    (rows : List EnrolledRow) (row last : EnrolledRow)
    → last.leaf_index ≡ row.leaf_index
    → any (collides row) (rows ++ last ∷ []) ≡ true
collides-last [] row last e = ground (arith, e)
collides-last (r ∷ rows) row last e =
    let rest = collides-last rows row last e in ground (arith, rest)

module _ (bb : List (List ℕ) → ℕ → List ℕ) where
  attest-enrolled :
      (st : State) (c : Text) (r : AppendResult) (root : Result String Text)
      → (attest bb st c r root).1.store.enrolled ≡ st.store.enrolled
  unfolding attest kv_set
  attest-enrolled st c r (ok root) = refl
  attest-enrolled st c r (fail e) = refl

  -- Once a request with a new commitment has its append, its row is the last one of the store.
  commit-enrolled :
      (st : State) (clock : Clock) (body : RegisterBody) (merkle : MerkleIndex) (r : AppendResult)
      → IsConsistent bb st
      → has st.store body.commitment ≡ false
      → Appends bb (leaves_of bb st.store) (hex_to_bigint body.commitment) st.merkle merkle r
      → (commit bb st clock body (ok (merkle, r))).1.store.enrolled
        ≡ st.store.enrolled ++ row_of body r.leaf_index (clock.ms / 1000) ∷ []
  commit-enrolled st clock body merkle r c free a =
      let row = row_of body r.leaf_index (clock.ms / 1000) in
      let (inserted, _, _) = extended-IsConsistent bb st merkle row r c a refl free in
      unfold commit persist in
      (rw inserted (
        attest-enrolled (record { store = extended st.store row; merkle = merkle }) body.commitment
          r _))

  -- Two requests whose appends both read the tree of `st`: the first is done before the second
  -- stores its tree.
  abbrev pub overlap : State → Clock → RegisterBody → Clock → RegisterBody → Outcome
  overlap st clock_a a clock_b b =
      commit bb (commit bb st clock_a a (append bb st.merkle (hex_to_bigint a.commitment))).1
        clock_b b (append bb st.merkle (hex_to_bigint b.commitment))

  commit_refused :
      (st : State) (clock : Clock) (body : RegisterBody) (merkle : MerkleIndex) (r : AppendResult)
      → insert st.store (row_of body r.leaf_index (clock.ms / 1000)) ≡ none
      → commit bb st clock body (ok (merkle, r)) ≡ (
        ok (reply_with 409 (Payload.already_enrolled body.commitment)),
        record { store = st.store; merkle = merkle },
      )
  unfolding commit persist
  commit_refused st clock body merkle r refused = rw refused refl

  -- If two requests overlap on a consistent state, the first with a new commitment, and both appends
  -- succeed, then the second is answered 409 whatever its commitment is, the store has the row of the
  -- first and none of the second, and the tree has the leaf of the second in the place of the first.
  pub overlap-leaves_of :
      (st : State) (clock_a clock_b : Clock) (a b : RegisterBody) (merkle_a merkle_b : MerkleIndex)
      (r_a r_b : AppendResult)
      → IsConsistent bb st
      → has st.store a.commitment ≡ false
      → append bb st.merkle (hex_to_bigint a.commitment) ≡ ok (merkle_a, r_a)
      → append bb st.merkle (hex_to_bigint b.commitment) ≡ ok (merkle_b, r_b)
      → ((overlap st clock_a a clock_b b).0
          ≡ ok (reply_with 409 (Payload.already_enrolled b.commitment)))
        × ((overlap st clock_a a clock_b b).1.store.enrolled
            ≡ st.store.enrolled ++ row_of a (count st.store) (clock_a.ms / 1000) ∷ [])
        × (get_or (overlap st clock_a a clock_b b).1.merkle.layers 0 []
            ≡ leaves_of bb st.store ++ hex_to_bigint b.commitment ∷ [])
  overlap-leaves_of st clock_a clock_b a b merkle_a merkle_b r_a r_b c free e_a e_b =
      let leaves = leaves_of bb st.store in
      let leaf_b = hex_to_bigint b.commitment in
      let first =
        append_inv bb leaves (hex_to_bigint a.commitment) st.merkle merkle_a r_a c.index e_a in
      let second = append_inv bb leaves leaf_b st.merkle merkle_b r_b c.index e_b in
      let row_a = row_of a r_a.leaf_index (clock_a.ms / 1000) in
      let row_b = row_of b r_b.leaf_index (clock_b.ms / 1000) in
      let st' : State = (commit bb st clock_a a (ok (merkle_a, r_a))).1 in
      let enrolled = commit-enrolled st clock_a a merkle_a r_a c free first in
      let collision =
        collides-last st.store.enrolled row_b row_a (first.leaf_index ∙ sym second.leaf_index) in
      let refused : insert st'.store row_b ≡ none =
        unfold insert in (rw (enrolled, collision) refl) in
      let position : r_a.leaf_index ≡ count st.store =
        first.leaf_index ∙ count-leaves bb st.store c.dense in
      rw (e_a, e_b, commit_refused st' clock_b b merkle_b r_b refused)
        (
          refl,
          enrolled ∙ ap (λ i. st.store.enrolled ++ row_of a i (clock_a.ms / 1000) ∷ []) position,
          IsIndexOf-leaves bb (leaves ++ leaf_b ∷ []) merkle_b second.index,
        )
