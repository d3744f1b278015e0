-- ===== src/Tests/Proofs.antt =====
-- The threshold service's proofs and tree at concrete inputs: a verifier that takes every proof of
-- one byte, and the tree over two leaves.
use crisp_qes.Common.{ℕ, ◌≡◌, refl, ◌↔◌, ◌==◌, List, [], ◌∷◌, ◌++◌, ok, fail}
use crisp_qes.Common.Text.{Text, codes, hex_value, starts_with}
use crisp_qes.Common.Text.Hex.{hex_digits}
use crisp_qes.Pedersen.{be_bytes}
use crisp_qes.V3.Words.{
  Word, ProofField, Affine, NullifierPublics, word_value, word_to_be32, bytes_hex,
  normalize_public_inputs, proof_to_bytes, to_big, affine_at, extract_m_from_public_inputs,
}
use crisp_qes.V3.Gate.{
  Gate, Expected, parse, run_verifier, verify_enroll_commit_proof, verify_threshold_nullifier_proof,
}
use crisp_qes.V3.Gate.Bound.{SpelledAt, Verified, verify_enroll_commit_proof_iff}
use crisp_qes.V3.Gate.Nullifier.{Binds, verify_threshold_nullifier_proof_iff}
use crisp_qes.Tree
use crisp_qes.Tree.{next_layer, layers_from, top_root, build_tree}
use crisp_qes.MerkleIndex
use crisp_qes.MerkleIndex.{rebuild, tree_depth}
use crisp_qes.Pedersen.{
  bigint_to_be32, bytes_be_to_bigint, be_value, to_buffers, pedersen_hash_fields,
}
use crisp_qes.V3.Merkle
use crisp_qes.V3.Merkle.{AppendResult, ProofResult, append, proof_at}
use crisp_qes.V3.Merkle.Mirrors.{Mirrors, SameAppend, append-Mirrors}
use crisp_qes.Tests.Samples.{sample_hash, sample_index, value_of, index-IsIndexOf}

abbrev pub gate : Gate
gate (b ∷ []) texts = ok (b == 9)
gate _ texts = fail "no proof"

abbrev words : List Word
words =
    Word.text (codes "0x10")
    ∷ Word.bigint 11
    ∷ Word.bigint 12
    ∷ Word.bigint 13
    ∷ Word.bigint 14
    ∷ Word.bigint 15
    ∷ Word.bigint 16
    ∷ Word.bigint 17
    ∷ Word.bigint 1
    ∷ Word.bigint 2
    ∷ Word.bigint 20
    ∷ Word.bigint 21
    ∷ Word.text (codes "0016")
    ∷ []

abbrev point : ℕ → ℕ → Affine
point x y = record { x = x; y = y }

abbrev expected : Expected
expected = record {
  m = point 16 11;
  published_kpub_set = point 12 13 ∷ point 14 15 ∷ point 16 17 ∷ [];
  epoch = 20;
  cr = 21;
  commitment = 22;
}

abbrev proof : ProofField
proof = ProofField.bytes (9 ∷ [])

verify_enroll_commit_proof_iff_example :
    (verify_enroll_commit_proof gate proof words (point 1 2) ≡ ok tt) ↔ (
      (texts : List Text) × Verified gate proof words texts
      × SpelledAt texts 8 1
      × SpelledAt texts 9 2)
verify_enroll_commit_proof_iff_example = verify_enroll_commit_proof_iff gate proof words (point 1 2)

verify_threshold_nullifier_proof_iff_example :
    ((p : NullifierPublics) × (verify_threshold_nullifier_proof gate proof words expected ≡ ok p))
    ↔ ((texts : List Text) × Verified gate proof words texts × Binds texts expected)
verify_threshold_nullifier_proof_iff_example =
    verify_threshold_nullifier_proof_iff gate proof words expected

-- A run of each check.
accepts : verify_enroll_commit_proof gate proof words (point 1 2) ≡ ok tt
unfolding verify_enroll_commit_proof parse normalize_public_inputs word_value word_to_be32 bytes_hex
    be_bytes proof_to_bytes to_big affine_at extract_m_from_public_inputs run_verifier hex_value
    starts_with
accepts = refl

abbrev two_words : List Word
two_words = Word.text (codes "0x1F") ∷ Word.bigint 7 ∷ []

abbrev two_texts : List Text
unfolding hex_digits
two_texts = (codes "0x" ++ hex_digits 64 31 []) ∷ (codes "0x" ++ hex_digits 64 7 []) ∷ []

abbrev zeros : List ℕ
unfolding Tree.zero_hashes
zeros = value_of [] (Tree.zero_hashes sample_hash 20)

abbrev mirror : Merkle.MerkleIndex
mirror = record { leaves = 5 ∷ 7 ∷ []; zeros = zeros; root = (sample_index (5 ∷ 7 ∷ [])).root }

mirror-Mirrors : Mirrors sample_hash mirror (sample_index (5 ∷ 7 ∷ []))
unfolding Tree.zero_hashes Tree.zeros_from Tree.hash2 pedersen_hash_fields to_buffers bigint_to_be32
    be_bytes bytes_be_to_bigint be_value
mirror-Mirrors = record { index = index-IsIndexOf; zeros = refl; root = refl }

abbrev no_append : MerkleIndex.MerkleIndex × MerkleIndex.AppendResult
no_append = (
  sample_index [],
  record {
    root = 0;
    leaf_count = 0;
    leaf_index = 0;
    old_root = 0;
    new_root = 0;
    path = [];
    indices = [];
  },
)

abbrev appended : MerkleIndex.MerkleIndex × MerkleIndex.AppendResult
unfolding MerkleIndex.append rebuild build_tree Tree.hash2 pedersen_hash_fields
    MerkleIndex.canonical_root Tree.prove_inclusion
appended = value_of no_append (MerkleIndex.append sample_hash (sample_index (5 ∷ 7 ∷ [])) 9)

append-Mirrors_example :
    (r : AppendResult) × (idx' : Merkle.MerkleIndex) × (append sample_hash mirror 9 ≡ (ok r, idx'))
    × (idx'.leaves ≡ 5 ∷ 7 ∷ 9 ∷ [])
    × Mirrors sample_hash idx' appended.0
    × SameAppend sample_hash r appended.1
unfolding MerkleIndex.append rebuild build_tree Tree.hash2 pedersen_hash_fields
    MerkleIndex.canonical_root Tree.prove_inclusion
append-Mirrors_example =
    append-Mirrors sample_hash mirror (sample_index (5 ∷ 7 ∷ [])) appended.0 9 appended.1
      mirror-Mirrors refl
