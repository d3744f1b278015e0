-- ===== src/V3/Server/Register/Outcomes.antt =====
-- The answers of the enrollment route and the state after them.
use crisp_qes.Common.{
  ◌≡◌, ◌≢◌, refl, sym, subst, ap, ◌∙◌, ◌⊎◌, inl, inr, none, Option-cases, String, Result, ok, fail,
  Result-cases, >>=-eq-ok, ok-injective, arith,
}
use crisp_qes.Common.Text.{Text, hex_to_bigint}
use crisp_qes.Common.Text.Hex.{bigint_to_hex32}
use crisp_qes.V3.Merkle
use crisp_qes.V3.Merkle.{MerkleIndex, AppendResult}
use crisp_qes.V3.ChainSync.{Chain}
use crisp_qes.V3.Server.{
  Reply, RegisterRequest, RegisterBody, State, Config, Services, get_index, set_index,
  resync_if_stale,
}
use crisp_qes.V3.Server.Register.{
  Stop, or_throw, Outcome, hexes, admit, registered, appended, enroll, register_admitted, register,
}
use crisp_qes.V3.Server.Register.Admission.{IsAdmitted, admit-IsAdmitted, admit-IsRefusal}

module _ (cfg : Config) (sv : Services) (onchain : Result String Text) (chain : Chain) where
  -- The request is admitted, its commitment is no key of the map once the tree is the chain's, and
  -- the tree and the map have grown by it. The reply is that of the append.
  pub record IsEnrolled (st : State) (req : RegisterRequest) (r : Reply) (st' : State)
      : Type 0 where
    pub body : RegisterBody
    pub admitted : IsAdmitted cfg sv req body
    pub synced : State
    pub in_sync : resync_if_stale cfg sv onchain chain st ≡ ok synced
    pub fresh : get_index body.commitment synced.leaf_index_of ≡ none
    pub result : AppendResult
    pub grown :
        Merkle.append sv.bb synced.merkle (hex_to_bigint body.commitment) ≡ (ok result, st'.merkle)
    pub reply : registered cfg sv body.commitment result ≡ ok r
    pub indexed :
        st'.leaf_index_of ≡ set_index body.commitment result.leaf_index synced.leaf_index_of

  or_throw_ok : {A : Type 0} (x : Result String A) (a : A) → or_throw x ≡ ok a → x ≡ ok a
  or_throw_ok (ok b) a h = ap ok (ok-injective h)
  or_throw_ok (fail e) a h = cc

  appended_inv :
      (st st' : State) (commitment : Text) (x : Result String AppendResult × MerkleIndex)
      (r : Reply)
      → appended cfg sv st commitment x ≡ (ok r, st')
      → (result : AppendResult) × (x ≡ (ok result, st'.merkle))
        × (registered cfg sv commitment result ≡ ok r)
        × (st'.leaf_index_of ≡ set_index commitment result.leaf_index st.leaf_index_of)
  appended_inv st st' commitment (ok result, merkle) r h =
      let e : or_throw (registered cfg sv commitment result) ≡ ok r = ap (λ (o : Outcome). o.0) h in
      let after = ap (λ (o : Outcome). o.1) h in
      (
        result,
        ap (λ (s : State). (ok result, s.merkle)) after,
        or_throw_ok (registered cfg sv commitment result) r e,
        ap (λ (s : State). s.leaf_index_of) (sym after),
      )
  appended_inv st st' commitment (fail e, merkle) r h =
      let clash : fail (Stop.thrown e) ≡ ok r = ap (λ (o : Outcome). o.0) h in cc

  registered_code :
      (commitment : Text) (result : AppendResult) (r : Reply)
      → registered cfg sv commitment result ≡ ok r
      → r.code ≡ 200
  unfolding registered
  registered_code commitment result r h =
      let (path, _, h₁) = >>=-eq-ok (hexes result.path) _ h in
      let (old_root, _, h₂) = >>=-eq-ok (bigint_to_hex32 result.old_root) _ h₁ in
      let (new_root, _, e) = >>=-eq-ok (bigint_to_hex32 result.new_root) _ h₂ in
      ap (λ (q : Reply). q.code) (sym (ok-injective e))

  -- What a reply of the route says of the request and of the state.
  pub data IsSettled (st : State) (req : RegisterRequest) (r : Reply) (st' : State) : Type 0 where
    enrolled : r.code ≡ 200 → IsEnrolled st req r st' → IsSettled st req r st'
    refused :
        r.code ≢ 200
        → (st' ≡ st) ⊎ (resync_if_stale cfg sv onchain chain st ≡ ok st')
        → IsSettled st req r st'

  refused_at :
      (st st₀ : State) (req : RegisterRequest) (q r : Reply) (st' : State)
      → q.code ≢ 200
      → (st₀ ≡ st) ⊎ (resync_if_stale cfg sv onchain chain st ≡ ok st₀)
      → ◌≡◌ {A = Outcome} (ok q, st₀) (ok r, st')
      → IsSettled st req r st'
  refused_at st st₀ req q r st' ne from h =
      let e : ok q ≡ ok r = ap (λ (o : Outcome). o.0) h in
      let after : st₀ ≡ st' = ap (λ (o : Outcome). o.1) h in
      IsSettled.refused (λ code. ne (ap (λ (p : Reply). p.code) (ok-injective e) ∙ code))
        (subst (λ s. (s ≡ st) ⊎ (resync_if_stale cfg sv onchain chain st ≡ ok s)) after from)

  stopped :
      (st : State) (req : RegisterRequest) (s : Stop) (r : Reply) (st' : State)
      → admit cfg sv req ≡ fail s
      → register_admitted cfg sv onchain chain st (fail s) ≡ (ok r, st')
      → IsSettled st req r st'
  stopped st req (Stop.answered q) r st' e h =
      refused_at st st req q r st' ((admit-IsRefusal cfg sv req).with_failure (Stop.answered q) e)
        (inl refl) h
  stopped st req (Stop.thrown t) r st' e h =
      let clash : fail (Stop.thrown t) ≡ ok r = ap (λ (o : Outcome). o.0) h in cc

  -- A reply of 200 is that of an enrollment, and any other reply leaves the state as it was, or as it
  -- was read from the chain.
  pub register-IsSettled :
      (st : State) (req : RegisterRequest) (r : Reply) (st' : State)
      → register cfg sv onchain chain st req ≡ (ok r, st')
      → IsSettled st req r st'
  unfolding register enroll
  register-IsSettled st req r st' h = elim (Result-cases (admit cfg sv req)) [
    | inr (s, stop) ↦ stopped st req s r st' stop (rw stop at h)
    | inl (body, admitted) ↦ elim (Result-cases (resync_if_stale cfg sv onchain chain st)) [
      | inr (t, stale) ↦
          refused_at st st req _ r st' (λ e. omega (arith, e)) (inl refl)
            (rw (admitted, stale) at h)
      | inl (synced, in_sync) ↦
          elim (Option-cases (get_index body.commitment synced.leaf_index_of)) [
            | inr (i, old) ↦
                refused_at st synced req _ r st' (λ e. omega (arith, e)) (inr in_sync)
                  (rw (admitted, in_sync, old) at h)
            | inl fresh ↦
                let (result, grown, reply, indexed) =
                  appended_inv synced st' body.commitment _ r
                    (rw (admitted, in_sync, fresh) at h) in
                IsSettled.enrolled (registered_code body.commitment result r reply) (record {
                  body = body;
                  admitted = admit-IsAdmitted cfg sv req body admitted;
                  synced = synced;
                  in_sync = in_sync;
                  fresh = fresh;
                  result = result;
                  grown = grown;
                  reply = reply;
                  indexed = indexed;
                })
          ]
    ]
  ]
