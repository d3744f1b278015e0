-- ===== src/Tests/Registrations.antt =====
-- The theorems of the threshold service at concrete inputs.
use crisp_qes.Common.{
  ℕ, ◌<◌, ◌≡◌, refl, true, some, none, List, [], ◌∷◌, ◌++◌, ok, replicate, arith, bytes_eq, ◌⊎◌,
  All, map, length, get_elem?,
}
use crisp_qes.Common.Text.{Text, codes, hex_value, hex_to_bigint, starts_with, lower}
use crisp_qes.Pedersen.{be_bytes, be_value, bytes_be_to_bigint}
use crisp_qes.Tree.Total.{IsField}
use crisp_qes.V3.Words.{
  extract_m_from_public_inputs, affine_at, word_to_be32, proof_to_bytes, normalize_public_inputs,
  extract_digest_from_public_inputs, extract_cr_from_enroll, bytes_hex,
  extract_threshold_nullifier_publics, to_big, word_value,
}
use crisp_qes.V3.Gate.{
  verify_enroll_commit_proof, parse, run_verifier, cross_checks, verify_threshold_nullifier_proof,
}
use crisp_qes.V3.Challenge.{expected_digest_limbs, build_enroll_v3_challenge_bytes}
use crisp_qes.V3.Merkle.{
  from_leaves, zero_hashes, zeros_from, to_be32, hash2, compute_root, root_from, next_level,
}
use crisp_qes.V3.ChainSync.{Synced, sync_merkle_from_chain, scan, set_all, by_index, leaves_from}
use crisp_qes.V3.ChainSync.Windows.{sync_merkle_from_chain_events}
use crisp_qes.V3.Server.{
  Payload, Reply, Json, BlindEvalRequest, State, boot, state_of, index_leaves, get_index,
  reply_with, validate_blind_eval_body, resync_if_stale, challenge_digest_ok,
  validate_register_body,
}
use crisp_qes.V3.Server.Register.{admit, register, enrollment_path}
use crisp_qes.V3.Server.BlindEval.{evaluate, blind_eval}
use crisp_qes.V3.Server.Complete.{register_complete}
use crisp_qes.V3.Server.Path.{enrollment_path_walked}
use crisp_qes.V3.Server.OnChain.{IsRootOf, IsSigned, register_old_root}
use crisp_qes.Oprf.Service.{RootUpdate}
use crisp_qes.V3.Server.Evaluation.{IsGated, blind_eval-IsGated}
use crisp_qes.Common.Text.Hex.{bigint_to_hex32, hex_digits}
use crisp_qes.Tree
use crisp_qes.V3.Server.Register.Outcomes.{IsSettled, register-IsSettled}
use crisp_qes.V3.Server.Indexed.{IsIndexed}
use crisp_qes.V3.Server.Preserved.{boot-IsIndexed}
use crisp_qes.V3.Server.Reachable.{IsReachable, reachable-IsIndexed}
use crisp_qes.Tests.Services.{
  events, genesis_hash, config, services, enroll_words, commitment, body, request, root_text, chain,
  tree, hex_key, start, genesis_hash-IsField, chain-IsNode,
}

request-admitted : admit (config (some 1)) services request ≡ ok body
unfolding admit hex_value extract_m_from_public_inputs affine_at word_to_be32 starts_with
    verify_enroll_commit_proof parse proof_to_bytes normalize_public_inputs be_bytes run_verifier
    challenge_digest_ok extract_digest_from_public_inputs expected_digest_limbs
    build_enroll_v3_challenge_bytes be_value extract_cr_from_enroll lower cross_checks
    verify_threshold_nullifier_proof validate_register_body bytes_hex
    extract_threshold_nullifier_publics to_big word_value
request-admitted = refl

start-booted : boot (config (some 1)) services chain [] ≡ ok start
unfolding boot state_of sync_merkle_from_chain scan set_all by_index leaves_from lower from_leaves
    zero_hashes zeros_from hash2 to_be32 bytes_be_to_bigint be_bytes be_value compute_root root_from
    next_level index_leaves bigint_to_hex32 hex_digits hex_value
start-booted = refl

start-IsIndexed : IsIndexed genesis_hash start
start-IsIndexed = boot-IsIndexed (config (some 1)) services chain [] start start-booted

start-in_sync : resync_if_stale (config (some 1)) services (ok root_text) chain start ≡ ok start
unfolding resync_if_stale lower bigint_to_hex32 hex_digits
start-in_sync = refl

fields : All IsField (5 ∷ 7 ∷ [])
fields = (omega arith, (omega arith, tt))

absent : get_index commitment start.leaf_index_of ≡ none
unfolding get_index
absent = refl

register_complete_example :
    (r : Reply) × (st' : State) × (register
        (config (some 1))
        services
        (ok root_text)
        chain
        start
        request
      ≡ (ok r, st'))
    × (r.code ≡ 200)
    × (st'.merkle.leaves ≡ 5 ∷ 7 ∷ hex_to_bigint commitment ∷ [])
    × (get_index commitment st'.leaf_index_of ≡ some 2)
register_complete_example =
    register_complete (config (some 1)) services genesis_hash-IsField (ok root_text) chain start
      start request body request-admitted start-in_sync start-IsIndexed fields absent

-- The enrollment of the request.
enrolled :
    (r : Reply) × (st' : State) × (register
        (config (some 1))
        services
        (ok root_text)
        chain
        start
        request
      ≡ (ok r, st'))
    × (r.code ≡ 200)
    × (st'.merkle.leaves ≡ 5 ∷ 7 ∷ hex_to_bigint commitment ∷ [])
    × (get_index commitment st'.leaf_index_of ≡ some 2)
enrolled =
    register_complete (config (some 1)) services genesis_hash-IsField (ok root_text) chain start
      start request body request-admitted start-in_sync start-IsIndexed fields absent

register-IsSettled_example :
    IsSettled (config (some 1)) services (ok root_text) chain start request enrolled.0 enrolled.1
register-IsSettled_example =
    register-IsSettled (config (some 1)) services (ok root_text) chain start request enrolled.0
      enrolled.1 enrolled.2

register_old_root_example :
    (signed : RootUpdate) × IsSigned enrolled.0 signed
    × (IsRootOf (ok root_text) signed.old_root ⊎ IsRootOf (ok root_text) signed.old_root)
register_old_root_example =
    register_old_root (config (some 1)) services (ok root_text) chain 1 start request enrolled.0
      enrolled.1 refl enrolled.2 enrolled.3

enrollment_path_walked_example :
    ((i : ℕ)
      → get_index (hex_key "07") start.leaf_index_of ≡ some i
      → (path : List Text) × (bits : List ℕ) × (root : Text) × (enrollment_path
            (config (some 1))
            services
            (ok root_text)
            chain
            start
            (hex_key "07")
          ≡ (ok (reply_with 200 (Payload.path_found i path bits root)), start))
        × (hex_to_bigint root ≡ 77)
        × (Tree.compute_root genesis_hash
              (hex_to_bigint (hex_key "07"))
              (map hex_to_bigint path)
              bits
            ≡ ok 77))
    × (get_index (hex_key "07") start.leaf_index_of ≡ none
        → enrollment_path (config (some 1)) services (ok root_text) chain start (hex_key "07")
          ≡ (ok (reply_with 404 (Payload.not_enrolled (hex_key "07"))), start))
enrollment_path_walked_example =
    enrollment_path_walked (config (some 1)) services genesis_hash-IsField (ok root_text) chain
      start start (hex_key "07") start-in_sync start-IsIndexed fields (omega arith) refl

abbrev synced : Synced
synced = record { index = tree; leaves = 5 ∷ 7 ∷ []; onchain_root = root_text }

sync_merkle_from_chain_events_example :
    (length synced.leaves ≡ 2)
    × ((i : ℕ)
        → i < 2
        → (cmt : Text) × (by_index i (set_all (events 1 12000) []) ≡ some cmt)
          × (get_elem? (5 ∷ 7 ∷ []) i ≡ some (hex_to_bigint cmt)))
    × (from_leaves genesis_hash (5 ∷ 7 ∷ []) ≡ ok tree)
    × (t : Text) × (bigint_to_hex32 77 ≡ ok t)
    × (bytes_eq (lower t) (lower root_text) ≡ true)
unfolding sync_merkle_from_chain scan set_all by_index leaves_from lower from_leaves zero_hashes
    zeros_from hash2 to_be32 bytes_be_to_bigint be_bytes be_value compute_root root_from next_level
    bigint_to_hex32 hex_digits hex_value
sync_merkle_from_chain_events_example =
    sync_merkle_from_chain_events genesis_hash chain events 1 2 12000 root_text synced chain-IsNode
      refl refl refl (omega arith) refl

abbrev evaluation : BlindEvalRequest
evaluation = record {
  m =
      Json.text
        (codes "0x" ++ (replicate 63 b'0' ++ (codes "1" ++ (replicate 63 b'0' ++ codes "2"))));
  proof = Json.array (9 ∷ []) [];
  public_inputs = Json.array [] enroll_words;
}

blind_eval-IsGated_example :
    IsGated (config none) services evaluation (blind_eval (config none) services evaluation)
unfolding blind_eval evaluate validate_blind_eval_body hex_value extract_m_from_public_inputs
    affine_at word_to_be32 starts_with verify_enroll_commit_proof parse proof_to_bytes
    normalize_public_inputs be_bytes run_verifier challenge_digest_ok
    extract_digest_from_public_inputs expected_digest_limbs build_enroll_v3_challenge_bytes be_value
    lower bytes_hex to_big word_value
blind_eval-IsGated_example = blind_eval-IsGated (config none) services evaluation refl

reachable-IsIndexed_example : IsIndexed genesis_hash enrolled.1
reachable-IsIndexed_example =
    reachable-IsIndexed (config (some 1)) services genesis_hash-IsField enrolled.1 (
      IsReachable.registered (ok root_text) chain start request (ok enrolled.0) enrolled.1
        (IsReachable.started chain [] start start-booted) enrolled.2)
