-- ===== src/V3/Server/Complete.antt =====
-- An enrollment that is admitted and new is carried out.
use crisp_qes.Common.{
  ℕ, ◌≡◌, refl, sym, subst, ◌∙◌, none, some, List, [], ◌∷◌, ◌++◌, String, Result, ok, guard-inv,
  >>=-eq-ok, ok-injective, length, All, All-append, ltb, ltb→lt, bytes_eq_refl,
}
use crisp_qes.Common.Text.{Text, hex_to_bigint}
use crisp_qes.Pedersen.{bytes_be_to_bigint, fr_max}
use crisp_qes.Tree.Total.{IsField}
use crisp_qes.Oprf.Service.{RootUpdate}
use crisp_qes.V3.Merkle
use crisp_qes.V3.Merkle.{MerkleIndex, AppendResult, tree_depth, compute_root, proof_from}
use crisp_qes.V3.Merkle.Fields.{proof_from_total, compute_root_total, zeros-IsField}
use crisp_qes.V3.ChainSync.{Chain}
use crisp_qes.V3.Server.{
  Payload, Reply, reply_with, matching, is_proof_field, is_word_array, hex32, RegisterRequest,
  RegisterBody, validate_register_body, State, Config, Services, get_index, set_index,
  resync_if_stale,
}
use crisp_qes.V3.Server.Register.{admit, registered, enroll, register}
use crisp_qes.V3.Server.Register.Admission.{admit-IsAdmitted}
use crisp_qes.V3.Server.Indexed.{IsIndexed}
use crisp_qes.V3.Server.Spelled.{bigint_to_hex32_total, hexes_total}

pub validate-IsField :
    (req : RegisterRequest) (body : RegisterBody)
    → validate_register_body req ≡ ok body
    → IsField (hex_to_bigint body.commitment)
unfolding validate_register_body
validate-IsField req body h =
    let (commitment, _, h₁) =
      >>=-eq-ok (matching hex32 req.commitment "commitment must be 0x-prefixed 32-byte hex") _ h in
    let (small, h₂) = guard-inv (ltb (hex_to_bigint commitment) fr_max) _ _ h₁ in
    let (_, _, h₃) = >>=-eq-ok (is_proof_field req.enroll_proof _) _ h₂ in
    let (_, _, h₄) = >>=-eq-ok (is_word_array req.enroll_public_inputs _) _ h₃ in
    let (_, _, h₅) = >>=-eq-ok (is_proof_field req.nullifier_proof _) _ h₄ in
    let (_, _, h₆) = >>=-eq-ok (is_word_array req.nullifier_public_inputs _) _ h₅ in
    subst (λ (b : RegisterBody). IsField (hex_to_bigint b.commitment)) (ok-injective h₆)
      (ltb→lt (hex_to_bigint commitment) fr_max small)

module _ (cfg : Config) (sv : Services)
    (fields : (buffers : List (List ℕ)) (i : ℕ)
      → IsField (bytes_be_to_bigint (sv.bb buffers i))) where
  registered_total :
      (commitment : Text) (r : AppendResult)
      → All IsField r.path
      → IsField r.old_root
      → IsField r.new_root
      → (q : Reply) × (registered cfg sv commitment r ≡ ok q) × (q.code ≡ 200)
  unfolding registered
  registered_total commitment r hp ho hn =
      let (path, spelled_path, _) = hexes_total r.path hp in
      let (old_root, spelled_old, _) = bigint_to_hex32_total r.old_root ho in
      let (new_root, spelled_new, _) = bigint_to_hex32_total r.new_root hn in
      let signed : RootUpdate = record {
        old_root = r.old_root;
        new_root = r.new_root;
        new_commitments = hex_to_bigint commitment ∷ [];
      } in
      (
        reply_with 200
            (Payload.registered r.leaf_index path r.indices old_root new_root commitment signed),
        rw (spelled_path, spelled_old, spelled_new) refl,
        refl,
      )

  -- A request that is admitted, while the chain can be followed, is answered 200 if its commitment is
  -- no key of the map, and then its leaf is the last of the tree and its position stands in the map.
  pub register_complete :
      (onchain : Result String Text) (chain : Chain) (st synced : State) (req : RegisterRequest)
      (body : RegisterBody)
      → admit cfg sv req ≡ ok body
      → resync_if_stale cfg sv onchain chain st ≡ ok synced
      → IsIndexed sv.bb synced
      → All IsField synced.merkle.leaves
      → get_index body.commitment synced.leaf_index_of ≡ none
      → (r : Reply) × (st' : State) × (register cfg sv onchain chain st req ≡ (ok r, st'))
        × (r.code ≡ 200)
        × (st'.merkle.leaves ≡ synced.merkle.leaves ++ hex_to_bigint body.commitment ∷ [])
        × (get_index body.commitment st'.leaf_index_of ≡ some (length synced.merkle.leaves))
  unfolding register enroll Merkle.append get_index
  register_complete onchain chain st synced req body admitted in_sync ix hl fresh =
      let idx = synced.merkle in
      let leaf = hex_to_bigint body.commitment in
      let leaves = idx.leaves ++ leaf ∷ [] in
      let hz = zeros-IsField sv.bb fields idx.zeros ix.zeros in
      let small = validate-IsField req body (admit-IsAdmitted cfg sv req body admitted).validated in
      let hl' = All-append IsField idx.leaves (leaf ∷ []) hl (small, tt) in
      let (root, rooted, hr) = compute_root_total sv.bb fields idx.zeros leaves hz hl' in
      let (p, proved, hp) =
        proof_from_total sv.bb fields tree_depth 0 idx.zeros leaves (length idx.leaves) hz hl' in
      let (_, old, ho) = compute_root_total sv.bb fields idx.zeros idx.leaves hz hl in
      let old_field : IsField idx.root = subst IsField (ok-injective (sym old ∙ ix.root)) ho in
      let r : AppendResult = record {
        leaf_index = length idx.leaves;
        old_root = idx.root;
        new_root = root;
        path = p.path;
        indices = p.indices;
        leaf_count = length leaves;
      } in
      let (q, answered, code) = registered_total body.commitment r hp old_field hr in
      (
        q,
        record {
          merkle = record { leaves = leaves; zeros = idx.zeros; root = root };
          leaf_index_of = set_index body.commitment (length idx.leaves) synced.leaf_index_of;
        },
        rw (admitted, in_sync, fresh, rooted, proved, answered) refl,
        code,
        refl,
        rw (bytes_eq_refl body.commitment) refl,
      )
