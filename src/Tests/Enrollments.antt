-- ===== src/Tests/Enrollments.antt =====
-- The store and the enrollment routes at concrete inputs.
use crisp_qes.Common.{
  List, ℕ, ◌<◌, ◌≤◌, ◌^◌, ◌≡◌, refl, fail, true, false, none, some, [], ◌∷◌, ◌++◌, ok, replicate,
  get_or,
}
use crisp_qes.Common.Text.{Text, codes, hex_value, hex_to_bigint}
use crisp_qes.Common.Text.Hex.{bigint_to_hex32, hex_digits}
use crisp_qes.Pedersen.{
  bigint_to_be32, bytes_be_to_bigint, be_value, be_bytes, to_buffers, pedersen_hash_fields,
}
use crisp_qes.Tree.{
  compute_root, hash2, zeros_from, zero_hashes, next_layer, layers_from, top_root, path_from,
  build_tree, prove_inclusion,
}
use crisp_qes.MerkleIndex
use crisp_qes.MerkleIndex.{
  MerkleIndex, AppendResult, InclusionResult, tree_depth, canonical_root, rebuild,
}
use crisp_qes.Oprf.Store
use crisp_qes.Oprf.Store.{
  Store, EnrolledRow, empty_store, has, insert, all_in_order, sort_by_leaf, insert_by_leaf, count,
  next_leaf_index, leaf_index_for, record_p7s_hash_if_fresh, increment_blind_eval_count,
}
use crisp_qes.Oprf.Service.{
  Clock, RegisterRequest, Payload, Reply, State, reply_with, commitment_from_oprf_output,
}
use crisp_qes.Oprf.Register.{
  RegisterBody, row_of, attest, persist, commit, enroll, register, enrollment_path, rebuild_state,
}
use crisp_qes.Oprf.Register.Consistent.{
  IsConsistent, register-IsConsistent, after_requests, rebuild_state-restores,
}
use crisp_qes.Oprf.Register.Answers.{
  EnrollsDerived, register-IsAnswered, enrollment_path-compute_root,
}
use crisp_qes.Oprf.Register.Total.{register_total}
use crisp_qes.Oprf.Register.Races.{overlap, overlap-leaves_of}
use crisp_qes.Tests.Samples.{
  sample_hash, sample_hash-IsField, value_of, sample_index, empty_index-IsIndexOf,
}

abbrev zeros : Text
zeros = codes "0x" ++ replicate 64 b'0'

abbrev ones : Text
ones = codes "0x" ++ replicate 64 b'1'

abbrev clock : Clock
clock = record { ms = 1700000000000; today = record { year = 2026; month = 5; day = 30 } }

abbrev empty_state : State
empty_state = record { store = empty_store; merkle = sample_index [] }

-- The stand-in hash of an output of zeros is 0.
abbrev request : RegisterRequest
request = record {
  commitment = some zeros;
  blinded_input_used = some ones;
  unblinded_output = some zeros;
}

empty-IsConsistent : IsConsistent sample_hash empty_state
unfolding all_in_order sort_by_leaf
empty-IsConsistent = record { dense = tt; index = empty_index-IsIndexOf }

abbrev no_reply : Reply
no_reply = reply_with 500 Payload.bad_request

abbrev first_reply : Reply
first_reply = value_of no_reply (register sample_hash empty_state clock request).0

register-IsConsistent_example :
    IsConsistent sample_hash (register sample_hash empty_state clock request).1
register-IsConsistent_example =
    register-IsConsistent sample_hash empty_state clock request empty-IsConsistent

register-IsAnswered_example :
    EnrollsDerived sample_hash request first_reply empty_state
      (register sample_hash empty_state clock request).1
unfolding register enroll commit persist attest commitment_from_oprf_output MerkleIndex.append
    rebuild canonical_root build_tree zero_hashes zeros_from next_layer layers_from top_root hash2
    path_from prove_inclusion pedersen_hash_fields to_buffers bigint_to_be32 be_bytes
    bytes_be_to_bigint be_value hex_value insert has bigint_to_hex32 hex_digits Store.kv_set
register-IsAnswered_example =
    register-IsAnswered sample_hash empty_state clock request first_reply empty-IsConsistent refl
      refl

abbrev zero_body : RegisterBody
zero_body = record { commitment = zeros; blinded_input_used = ones; unblinded_output = zeros }

register_total_example :
    (has empty_store zeros ≡ true
      → register sample_hash empty_state clock request
        ≡ (ok (reply_with 409 (Payload.already_enrolled zeros)), empty_state))
    × (has empty_store zeros ≡ false
        → (count empty_store < 2 ^ tree_depth
            → (reply : Reply) × ((register sample_hash empty_state clock request).0 ≡ ok reply)
              × (reply.code ≡ 200))
          × (2 ^ tree_depth ≤ count empty_store
              → register sample_hash empty_state clock request
                ≡ (fail "leaf count exceeds tree capacity", empty_state)))
unfolding commitment_from_oprf_output pedersen_hash_fields to_buffers bigint_to_be32 be_bytes
    bytes_be_to_bigint be_value hex_value all_in_order sort_by_leaf
register_total_example =
    register_total sample_hash sample_hash-IsField empty_state clock request zero_body
      empty-IsConsistent tt refl refl

abbrev rival_body : RegisterBody
rival_body = record {
  commitment = codes "0x" ++ replicate 63 b'0' ++ codes "1";
  blinded_input_used = zeros;
  unblinded_output = zeros;
}

abbrev no_append : MerkleIndex × AppendResult
no_append = (
  sample_index [],
  record {
    leaf_index = 0;
    old_root = 0;
    new_root = 0;
    root = 0;
    leaf_count = 0;
    path = [];
    indices = [];
  },
)

abbrev appended : ℕ → MerkleIndex × AppendResult
appended leaf = value_of no_append (MerkleIndex.append sample_hash empty_state.merkle leaf)

overlap-leaves_of_example :
    ((overlap sample_hash empty_state clock zero_body clock rival_body).0
      ≡ ok (reply_with 409 (Payload.already_enrolled rival_body.commitment)))
    × ((overlap sample_hash empty_state clock zero_body clock rival_body).1.store.enrolled
        ≡ row_of zero_body 0 1700000000 ∷ [])
    × (get_or
          (overlap sample_hash empty_state clock zero_body clock rival_body).1.merkle.layers
          0
          []
        ≡ 1 ∷ [])
unfolding commit persist attest MerkleIndex.append rebuild canonical_root build_tree zero_hashes
    zeros_from next_layer layers_from top_root hash2 path_from prove_inclusion pedersen_hash_fields
    to_buffers bigint_to_be32 be_bytes bytes_be_to_bigint be_value hex_value insert has
    bigint_to_hex32 hex_digits Store.kv_set all_in_order sort_by_leaf
overlap-leaves_of_example =
    overlap-leaves_of sample_hash empty_state clock clock zero_body rival_body (appended 0).0
      (appended 1).0 (appended 0).1 (appended 1).1 empty-IsConsistent refl refl refl

abbrev first_state : State
first_state = (register sample_hash empty_state clock request).1

enrollment_path-compute_root_example :
    (leaf_index_for first_state.store zeros ≡ none
      → enrollment_path sample_hash first_state zeros
        ≡ ok (reply_with 404 (Payload.not_enrolled zeros)))
    × ((i : ℕ)
        → leaf_index_for first_state.store zeros ≡ some i
        → (r : InclusionResult) × (enrollment_path sample_hash first_state zeros
            ≡ ok (reply_with 200 (Payload.path_found r)))
          × (r.leaf_index ≡ i)
          × (r.root ≡ first_state.merkle.root)
          × (compute_root sample_hash (hex_to_bigint zeros) r.path r.indices ≡ ok r.root))
enrollment_path-compute_root_example =
    enrollment_path-compute_root sample_hash first_state zeros
      (register-IsConsistent sample_hash empty_state clock request empty-IsConsistent) refl

-- The stand-in hash of an output of ones is 158.
abbrev second_request : RegisterRequest
second_request = record {
  commitment = some (codes "0x" ++ replicate 62 b'0' ++ codes "9e");
  blinded_input_used = some ones;
  unblinded_output = some ones;
}

abbrev requests : List (Clock × RegisterRequest)
requests = (clock, request) ∷ (clock, second_request) ∷ (clock, request) ∷ []

-- Two commitments are enrolled.
two_enrolled : count (after_requests sample_hash requests empty_state).store ≡ 2
unfolding register enroll commit persist attest commitment_from_oprf_output MerkleIndex.append
    rebuild canonical_root build_tree zero_hashes zeros_from next_layer layers_from top_root hash2
    path_from prove_inclusion pedersen_hash_fields to_buffers bigint_to_be32 be_bytes
    bytes_be_to_bigint be_value hex_value insert has bigint_to_hex32 hex_digits Store.kv_set
two_enrolled = refl

-- A service that starts empty, enrolls two commitments, and refuses a third request.
rebuild_state-restores_example :
    rebuild_state sample_hash (after_requests sample_hash requests empty_state).store
    ≡ ok (after_requests sample_hash requests empty_state)
unfolding rebuild_state MerkleIndex.from_leaves rebuild canonical_root build_tree zero_hashes
    zeros_from next_layer layers_from top_root hash2 pedersen_hash_fields to_buffers bigint_to_be32
    be_bytes bytes_be_to_bigint be_value all_in_order sort_by_leaf
rebuild_state-restores_example =
    rebuild_state-restores sample_hash empty_store empty_state requests tt refl

abbrev row : Text → ℕ → EnrolledRow
row c i = record { commitment = c; leaf_index = i; enrolled_at = 5; blinded_input = zeros }

abbrev two_rows : Store
two_rows = record {
  enrolled = row (codes "0xa") 0 ∷ row (codes "0xb") 1 ∷ [];
  kv = [];
  p7s_replay_cache = [];
  blind_eval_counts = [];
}
