-- ===== src/Tests/Samples.antt =====
-- A hash in place of the Pedersen hash of bb.js, and a tree index over two leaves with it.
use crisp_qes.Common.{ℕ, ◌+◌, ◌*◌, ◌%◌, ◌≡◌, refl, List, [], ◌∷◌, String, Result, ok, fail, arith}
use crisp_qes.Pedersen.{
  bigint_to_be32, bytes_be_to_bigint, be_value, be_bytes, to_buffers, pedersen_hash_fields,
}
use crisp_qes.Tree.{
  BuiltTree, hash2, zeros_from, zero_hashes, next_layer, layers_from, top_root, build_tree,
}
use crisp_qes.Tree.Total.{IsField}
use crisp_qes.MerkleIndex.{MerkleIndex, tree_depth, canonical_root, rebuild}
use crisp_qes.MerkleIndex.Laws.{IsIndexOf, rebuild-IsIndexOf}

-- The bytes as digits of a small number, with its position.
abbrev pub digits : List ℕ → ℕ → ℕ
digits [] acc = acc
digits (b ∷ bs) acc = digits bs (acc * 3 + b)

abbrev pub all_digits : List (List ℕ) → ℕ → ℕ
all_digits [] acc = acc
all_digits (b ∷ bs) acc = all_digits bs (digits b acc)

abbrev pub sample_hash : List (List ℕ) → ℕ → List ℕ
sample_hash buffers i = (all_digits buffers i % 251) ∷ []

pub sample_hash-IsField :
    (buffers : List (List ℕ)) (i : ℕ) → IsField (bytes_be_to_bigint (sample_hash buffers i))
unfolding bytes_be_to_bigint be_value
sample_hash-IsField buffers i = omega arith

abbrev pub value_of {ℓ} : {A : Type ℓ} → A → Result String A → A
value_of a (ok b) = b
value_of a (fail e) = a

abbrev pub small_tree : BuiltTree
small_tree = record { root = 208; layers = (5 ∷ 7 ∷ 9 ∷ []) ∷ (240 ∷ 68 ∷ []) ∷ (208 ∷ []) ∷ [] }

pub small_tree-built : build_tree sample_hash (5 ∷ 7 ∷ 9 ∷ []) 2 ≡ ok small_tree
unfolding build_tree zero_hashes zeros_from next_layer layers_from top_root hash2
    pedersen_hash_fields to_buffers bigint_to_be32 be_bytes bytes_be_to_bigint be_value
small_tree-built = refl

abbrev pub no_index : MerkleIndex
no_index = record { layers = []; root = 0; leaf_count = 0 }

abbrev pub sample_index : List ℕ → MerkleIndex
unfolding rebuild
sample_index leaves = value_of no_index (rebuild sample_hash leaves)

abbrev pub no_tree : BuiltTree
no_tree = record { root = 0; layers = [] }

abbrev pub sample_tree : List ℕ → BuiltTree
unfolding build_tree
sample_tree leaves = value_of no_tree (build_tree sample_hash leaves tree_depth)

pub index-IsIndexOf : IsIndexOf sample_hash (5 ∷ 7 ∷ []) (sample_index (5 ∷ 7 ∷ []))
unfolding rebuild canonical_root build_tree zero_hashes zeros_from next_layer layers_from top_root
    hash2 pedersen_hash_fields to_buffers bigint_to_be32 be_bytes bytes_be_to_bigint be_value
index-IsIndexOf = rebuild-IsIndexOf sample_hash (5 ∷ 7 ∷ []) (sample_index (5 ∷ 7 ∷ [])) refl

pub empty_index-IsIndexOf : IsIndexOf sample_hash [] (sample_index [])
unfolding rebuild canonical_root build_tree zero_hashes zeros_from next_layer layers_from top_root
    hash2 pedersen_hash_fields to_buffers bigint_to_be32 be_bytes bytes_be_to_bigint be_value
empty_index-IsIndexOf = rebuild-IsIndexOf sample_hash [] (sample_index []) refl

pub three-built :
    build_tree sample_hash (5 ∷ 7 ∷ 9 ∷ []) tree_depth ≡ ok (sample_tree (5 ∷ 7 ∷ 9 ∷ []))
unfolding build_tree zero_hashes zeros_from next_layer layers_from top_root hash2
    pedersen_hash_fields to_buffers bigint_to_be32 be_bytes bytes_be_to_bigint be_value
three-built = refl
