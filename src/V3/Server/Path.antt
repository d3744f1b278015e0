-- ===== src/V3/Server/Path.antt =====
-- The path that is given for a commitment again.
use crisp_qes.Common.{
  ℕ, zero, suc, ◌^◌, ◌<◌, ◌≤◌, ◌≡◌, refl, sym, subst, ◌∙◌, true, none, some, List, [], ◌∷◌, map,
  String, Result, ok, ok-injective, length, get_elem?, get_or, All, arith,
}
use crisp_qes.Common.Text.{Text, hex_to_bigint}
use crisp_qes.Pedersen.{bytes_be_to_bigint}
use crisp_qes.Tree
use crisp_qes.Tree.Total.{IsField}
use crisp_qes.V3.Merkle.Mirrors.{proof_at-Mirrors}
use crisp_qes.V3.Merkle.Fields.{Mirrors-of, proof_at-IsField, compute_root_total, zeros-IsField}
use crisp_qes.V3.ChainSync.{Chain}
use crisp_qes.V3.Server.{
  Payload, reply_with, hex32, State, Config, Services, get_index, resync_if_stale,
}
use crisp_qes.V3.Server.Register.{enrollment_path, path_reply}
use crisp_qes.V3.Server.Indexed.{IsIndexed}
use crisp_qes.V3.Server.Spelled.{bigint_to_hex32_total, hexes_total}

get_or-get_elem? :
    (xs : List ℕ) (i v : ℕ) → get_elem? xs i ≡ some v → (get_or xs i 0 ≡ v) × (i < length xs)
get_or-get_elem? [] i v h = cc
get_or-get_elem? (x ∷ xs) zero v h = (cc, omega arith)
get_or-get_elem? (x ∷ xs) (suc i) v h =
    let (same, lt) = get_or-get_elem? xs i v h in (same, omega (arith, lt))

module _ (cfg : Config) (sv : Services)
    (fields : (buffers : List (List ℕ)) (i : ℕ)
      → IsField (bytes_be_to_bigint (sv.bb buffers i))) where
  -- With a tree of field elements that fits its depth, the path of a commitment that is a key of the
  -- map is given, and takes the commitment to the root; any other commitment is answered 404.
  pub enrollment_path_walked :
      (onchain : Result String Text) (chain : Chain) (st synced : State) (commitment : Text)
      → resync_if_stale cfg sv onchain chain st ≡ ok synced
      → IsIndexed sv.bb synced
      → All IsField synced.merkle.leaves
      → length synced.merkle.leaves ≤ 2 ^ 20
      → hex32 commitment ≡ true
      → ((i : ℕ)
          → get_index commitment synced.leaf_index_of ≡ some i
          → (path : List Text) × (bits : List ℕ) × (root : Text) × (enrollment_path cfg sv onchain
                chain st commitment
              ≡ (ok (reply_with 200 (Payload.path_found i path bits root)), synced))
            × (hex_to_bigint root ≡ synced.merkle.root)
            × (Tree.compute_root sv.bb (hex_to_bigint commitment) (map hex_to_bigint path) bits
                ≡ ok synced.merkle.root))
        × (get_index commitment synced.leaf_index_of ≡ none
            → enrollment_path cfg sv onchain chain st commitment
              ≡ (ok (reply_with 404 (Payload.not_enrolled commitment)), synced))
  unfolding enrollment_path path_reply
  enrollment_path_walked onchain chain st synced commitment in_sync ix hl le hex =
      let (v2, mirrors) = Mirrors-of sv.bb fields synced.merkle ix.zeros ix.root hl le in
      (
        λ i found.
            let (leaf, inside) =
              get_or-get_elem? synced.merkle.leaves i (hex_to_bigint commitment)
                (ix.names.leaf commitment i found) in
            let (p, proved, at, same_root, walked) =
              (proof_at-Mirrors sv.bb synced.merkle v2 i mirrors).0 inside in
            let (_, rooted, hr) =
              compute_root_total sv.bb fields synced.merkle.zeros synced.merkle.leaves
                (zeros-IsField sv.bb fields synced.merkle.zeros ix.zeros) hl in
            let root_field : IsField synced.merkle.root =
              subst IsField (ok-injective (sym rooted ∙ ix.root)) hr in
            let (root, spelled, value) =
              bigint_to_hex32_total p.root (subst IsField (sym same_root) root_field) in
            let (path, spelled_path, values) = hexes_total p.path (
              proof_at-IsField sv.bb fields synced.merkle i p
                (zeros-IsField sv.bb fields synced.merkle.zeros ix.zeros) hl inside proved) in
            (
              path,
              p.indices,
              root,
              rw (hex, in_sync, found, proved, spelled, spelled_path, at) refl,
              value ∙ same_root,
              rw (values, ← leaf) walked,
            ),
        λ absent. rw (hex, in_sync, absent) refl,
      )
