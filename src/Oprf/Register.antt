-- ===== src/Oprf/Register.antt =====
-- packages/oprf/src/app.ts: the routes that enroll a commitment and that give its path again.
-- A request runs to its end before the next one, except in Races.
pub mod Consistent
pub mod Answers
pub mod Total
pub mod Races
use crisp_qes.Common.{
  ℕ, ◌/◌, Bool, true, false, Option, none, some, List, [], ◌∷◌, map, String, ◌==◌, if◌then◌else◌,
  Result, ok, fail, ◌>>=◌, ◌>>◌, guard,
}
use crisp_qes.Common.Text.{Text, hex_to_bigint}
use crisp_qes.Common.Text.Hex.{bigint_to_hex32, from_hex}
use crisp_qes.MerkleIndex
use crisp_qes.MerkleIndex.{MerkleIndex, AppendResult, InclusionResult}
use crisp_qes.Oprf.Store
use crisp_qes.Oprf.Store.{Store, EnrolledRow}
use crisp_qes.Oprf.Service.{
  Clock, RegisterRequest, RootUpdate, Payload, Reply, reply_with, State, with_store, hex32,
  string_field, commitment_from_oprf_output,
}

pub record RegisterBody : Type 0 where
  pub commitment : Text
  pub blinded_input_used : Text
  pub unblinded_output : Text

abbrev pub parse_register : RegisterRequest → Result Reply RegisterBody
parse_register req = do
  commitment ← string_field hex32 req.commitment
  blinded_input_used ← string_field hex32 req.blinded_input_used
  unblinded_output ← string_field hex32 req.unblinded_output
  ok (record {
    commitment = commitment;
    blinded_input_used = blinded_input_used;
    unblinded_output = unblinded_output;
  })

-- A route's reply, or what it throws, and the state afterwards.
abbrev pub Outcome : Type 0
Outcome = Result String Reply × State

abbrev pub row_of : RegisterBody → ℕ → ℕ → EnrolledRow
row_of body leaf_index enrolled_at = record {
  commitment = body.commitment;
  leaf_index = leaf_index;
  enrolled_at = enrolled_at;
  blinded_input = body.blinded_input_used;
}

-- `commitmentsToLeaves`
abbrev pub commitments_to_leaves : List Text → List ℕ
commitments_to_leaves = map hex_to_bigint

module _ (bb : List (List ℕ) → ℕ → List ℕ) where
  -- The stamp of the new root, and the reply with what the attester signs.
  unfoldable pub attest : State → Text → AppendResult → Result String Text → Outcome
  attest st commitment result (fail e) = (fail e, st)
  attest st commitment result (ok root) = (
    ok (
        reply_with 200 (
          Payload.registered result
            (record {
              old_root = result.old_root;
              new_root = result.new_root;
              new_commitments = hex_to_bigint commitment ∷ [];
            })
            commitment)),
    with_store st (Store.kv_set st.store "current_root" root),
  )

  -- The insertion of the row: the tree has grown, whether it succeeds or not.
  unfoldable pub persist :
      State → MerkleIndex → RegisterBody → AppendResult → Option Store → Outcome
  unfolding attest
  persist st merkle body result none = (
    ok (reply_with 409 (Payload.already_enrolled body.commitment)),
    record { store = st.store; merkle = merkle },
  )
  persist st merkle body result (some s) =
      attest (record { store = s; merkle = merkle }) body.commitment result
        (bigint_to_hex32 result.new_root)

  -- From the append on: a tree that is full throws.
  unfoldable pub commit :
      State → Clock → RegisterBody → Result String (MerkleIndex × AppendResult) → Outcome
  unfolding persist
  commit st clock body (fail e) = (fail e, st)
  commit st clock body (ok (merkle, result)) =
      persist st merkle body result
        (Store.insert st.store (row_of body result.leaf_index (clock.ms / 1000)))

  -- The checks of the route once the commitment is derived from the output.
  unfoldable pub enroll : State → Clock → RegisterBody → Result String ℕ → Outcome
  unfolding commit
  enroll st clock body (fail e) = (fail e, st)
  enroll st clock body (ok expected) =
      if expected == hex_to_bigint body.commitment
      then (if Store.has st.store body.commitment
          then (ok (reply_with 409 (Payload.already_enrolled body.commitment)), st)
          else commit st clock body
              (MerkleIndex.append bb st.merkle (hex_to_bigint body.commitment)))
      else (ok (reply_with 400 Payload.commitment_mismatch), st)

  abbrev pub enroll_parsed : State → Clock → Result Reply RegisterBody → Outcome
  enroll_parsed st clock (fail r) = (ok r, st)
  enroll_parsed st clock (ok body) =
      enroll st clock body (commitment_from_oprf_output bb (from_hex body.unblinded_output))

  -- `POST /oprf/register`
  unfoldable pub register : State → Clock → RegisterRequest → Outcome
  unfolding enroll
  register st clock req = enroll_parsed st clock (parse_register req)

  abbrev pub found_path : Result String InclusionResult → Result String Reply
  found_path (fail e) = fail e
  found_path (ok proof) = ok (reply_with 200 (Payload.path_found proof))

  abbrev pub path_at : State → Text → Option ℕ → Result String Reply
  path_at st commitment none = ok (reply_with 404 (Payload.not_enrolled commitment))
  path_at st commitment (some idx) = found_path (MerkleIndex.proof_at bb st.merkle idx)

  abbrev pub path_of : State → Result Reply Text → Result String Reply
  path_of st (fail r) = ok r
  path_of st (ok commitment) = path_at st commitment (Store.leaf_index_for st.store commitment)

  -- `GET /enrollment/:commitment/path`
  unfoldable pub enrollment_path : State → Text → Result String Reply
  enrollment_path st commitment = path_of st (string_field hex32 (some commitment))

  -- `buildApp`: the tree is built again from the stored commitments.
  unfoldable pub rebuild_state : Store → Result String State
  rebuild_state s = do
    merkle ← MerkleIndex.from_leaves bb (commitments_to_leaves (Store.all_in_order s))
    ok (record { store = s; merkle = merkle })
