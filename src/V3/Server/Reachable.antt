-- ===== src/V3/Server/Reachable.antt =====
-- The states of the service: it starts, and it answers requests for enrollments and for paths.
use crisp_qes.Common.{
  ℕ, ◌≡◌, subst, ap, ◌∙◌, Bool-cases, ◌⊎◌, inl, inr, List, String, Result, ok, Result-cases,
}
use crisp_qes.Common.Text.{Text}
use crisp_qes.Pedersen.{bytes_be_to_bigint}
use crisp_qes.Tree.Total.{IsField}
use crisp_qes.V3.ChainSync.{Chain}
use crisp_qes.V3.Server.{
  hex32, Reply, RegisterRequest, State, Config, Services, boot, resync_if_stale,
}
use crisp_qes.V3.Server.Register.{Stop, Outcome, register, enrollment_path}
use crisp_qes.V3.Server.Indexed.{IsIndexed}
use crisp_qes.V3.Server.Preserved.{boot-IsIndexed, resync_if_stale-IsIndexed, register-IsIndexed}

module _ (cfg : Config) (sv : Services) where
  -- A state of the service after some requests, whether they were answered or threw; the chain may
  -- change between them.
  pub data IsReachable : State → Type 0 where
    started :
        (chain : Chain) (leaves : List ℕ) (st : State)
        → boot cfg sv chain leaves ≡ ok st
        → IsReachable st
    registered :
        (onchain : Result String Text) (chain : Chain) (st : State) (req : RegisterRequest)
        (r : Result Stop Reply) (st' : State)
        → IsReachable st
        → register cfg sv onchain chain st req ≡ (r, st')
        → IsReachable st'
    looked_up :
        (onchain : Result String Text) (chain : Chain) (st : State) (commitment : Text)
        (r : Result Stop Reply) (st' : State)
        → IsReachable st
        → enrollment_path cfg sv onchain chain st commitment ≡ (r, st')
        → IsReachable st'

  enrollment_path_state :
      (onchain : Result String Text) (chain : Chain) (st : State) (commitment : Text)
      (r : Result Stop Reply) (st' : State)
      → enrollment_path cfg sv onchain chain st commitment ≡ (r, st')
      → (st ≡ st') ⊎ (resync_if_stale cfg sv onchain chain st ≡ ok st')
  unfolding enrollment_path
  enrollment_path_state onchain chain st commitment r st' h = elim (Bool-cases (hex32 commitment)) [
    | inr bad ↦ inl (ap (λ (o : Outcome). o.1) (rw bad at h))
    | inl fits ↦ elim (Result-cases (resync_if_stale cfg sv onchain chain st)) [
      | inr (e, stale) ↦ inl (ap (λ (o : Outcome). o.1) (rw (fits, stale) at h))
      | inl (synced, in_sync) ↦
          inr (in_sync ∙ ap (λ (o : Outcome). ok o.1) (rw (fits, in_sync) at h))
    ]
  ]

  -- In every state of the service, after any requests, answered or not, the root is that of the
  -- leaves, each key of the map is a text of the leaf at its position, and each leaf has a key. It is
  -- assumed that the hash of bb.js gives field elements.
  pub reachable-IsIndexed :
      ((buffers : List (List ℕ)) (i : ℕ) → IsField (bytes_be_to_bigint (sv.bb buffers i)))
      → (st : State) → IsReachable st
      → IsIndexed sv.bb st
  reachable-IsIndexed fields _ (IsReachable.started chain leaves st booted) =
      boot-IsIndexed cfg sv chain leaves st booted
  reachable-IsIndexed fields _ (IsReachable.registered onchain chain st req r st' before h) =
      subst (λ s. IsIndexed sv.bb s) (ap (λ (o : Outcome). o.1) h)
        (register-IsIndexed cfg sv fields onchain chain st req
          (reachable-IsIndexed fields st before))
  reachable-IsIndexed fields _ (IsReachable.looked_up onchain chain st commitment r st' before h) =
      elim (enrollment_path_state onchain chain st commitment r st' h) [
        | inl same ↦ subst (λ s. IsIndexed sv.bb s) same (reachable-IsIndexed fields st before)
        | inr synced ↦
            resync_if_stale-IsIndexed cfg sv onchain chain st st'
              (reachable-IsIndexed fields st before) synced
      ]
