-- ===== src/Oprf/Register/Answers.antt =====
-- What an enrollment answers, and the path that is given for it later.
use crisp_qes.Common.{
  ℕ, zero, suc, ◌/◌, ◌<◌, ◌≡◌, refl, sym, ap, ◌∙◌, true, false, none, some, List, [], ◌∷◌, String,
  ◌==◌, Result, ok, fail, >>=-eq-fail, Bool-cases, inl, inr, arith, get_or, ok-injective,
}
use crisp_qes.Common.Text.{Text, hex_value, hex_to_bigint}
use crisp_qes.Common.Text.Hex.{bigint_to_hex32, from_hex}
use crisp_qes.Tree.{compute_root}
use crisp_qes.MerkleIndex.{MerkleIndex, AppendResult, InclusionResult, append}
use crisp_qes.MerkleIndex.Laws.{Appends, append_inv, proof_at-compute_root}
use crisp_qes.Oprf.Store.{has, count, kv_set, all_in_order, leaf_index_for}
use crisp_qes.Oprf.Store.Enrolled.{leaf_index_for-all_in_order}
use crisp_qes.Oprf.Service.{
  Clock, RegisterRequest, RootUpdate, Payload, Reply, State, reply_with, hex32, string_field,
  commitment_from_oprf_output,
}
use crisp_qes.Oprf.Service.Gates.{string_field_refused}
use crisp_qes.Oprf.Register.{
  RegisterBody, Outcome, row_of, parse_register, commitments_to_leaves, attest, persist, commit,
  enroll, enroll_parsed, register, enrollment_path,
}
use crisp_qes.Oprf.Register.Consistent.{
  IsConsistent, leaves_of, count-leaves, extended-IsConsistent,
}

get_or-leaves :
    (cs : List Text) (i : ℕ)
    → get_or (commitments_to_leaves cs) i 0 ≡ hex_to_bigint (get_or cs i [])
unfolding hex_value
get_or-leaves [] i = refl
get_or-leaves (c ∷ cs) zero = refl
get_or-leaves (c ∷ cs) (suc i) = get_or-leaves cs i

parse_register_refused :
    (req : RegisterRequest) (r : Reply) → parse_register req ≡ fail r → r.code ≡ 400
parse_register_refused req r h = elim (>>=-eq-fail (string_field hex32 req.commitment) _ h) [
  | inl e ↦ string_field_refused hex32 req.commitment r e
  | inr (_, _, h₁) ↦ elim (>>=-eq-fail (string_field hex32 req.blinded_input_used) _ h₁) [
    | inl e ↦ string_field_refused hex32 req.blinded_input_used r e
    | inr (_, _, h₂) ↦ elim (>>=-eq-fail (string_field hex32 req.unblinded_output) _ h₂) [
      | inl e ↦ string_field_refused hex32 req.unblinded_output r e
      | inr (_, _, h₃) ↦ cc
    ]
  ]
]

module _ (bb : List (List ℕ) → ℕ → List ℕ) where
  -- The path route answers 404 for a commitment that is not enrolled; for one that is, 200 with its
  -- leaf index and a path that takes its leaf to the root of the tree.
  pub enrollment_path-compute_root :
      (st : State) (c : Text)
      → IsConsistent bb st
      → hex32 c ≡ true
      → (leaf_index_for st.store c ≡ none
          → enrollment_path bb st c ≡ ok (reply_with 404 (Payload.not_enrolled c)))
        × ((i : ℕ)
            → leaf_index_for st.store c ≡ some i
            → (r : InclusionResult) × (enrollment_path bb st c
                ≡ ok (reply_with 200 (Payload.path_found r)))
              × (r.leaf_index ≡ i)
              × (r.root ≡ st.merkle.root)
              × (compute_root bb (hex_to_bigint c) r.path r.indices ≡ ok r.root))
  unfolding enrollment_path
  enrollment_path-compute_root st c h valid = (
    λ missing. rw (valid, missing) refl,
    λ i found.
        let (lt, at) = leaf_index_for-all_in_order st.store c i h.dense found in
        let (answers, _) = proof_at-compute_root bb (leaves_of bb st.store) st.merkle i h.index in
        let (r, proved, index, root, walked) =
          answers (omega (arith, count-leaves bb st.store h.dense)) in
        let leaf : get_or (leaves_of bb st.store) i 0 ≡ hex_to_bigint c =
          get_or-leaves (all_in_order st.store) i ∙ ap hex_to_bigint at in
        (r, rw (valid, found, proved) refl, index, root, rw leaf at walked),
  )

  -- What an enrollment of `c`, answered with `r` and `signed`, has done.
  pub record Enrolls (st st' : State) (c : Text) (r : AppendResult) (signed : RootUpdate)
      : Type 0 where
    pub fresh : has st.store c ≡ false
    pub position : r.leaf_index ≡ count st.store
    pub old_root : signed.old_root ≡ st.merkle.root
    pub new_root : signed.new_root ≡ st'.merkle.root
    pub commitments : signed.new_commitments ≡ hex_to_bigint c ∷ []
    pub walked : compute_root bb (hex_to_bigint c) r.path r.indices ≡ ok st'.merkle.root
    pub stored : leaf_index_for st'.store c ≡ some r.leaf_index

  -- A reply of status 200 says what the enrollment of `c` has done.
  abbrev pub IsAnswered : State → Text → Outcome → Type 0
  IsAnswered st c out =
      (reply : Reply)
      → out.0 ≡ ok reply
      → reply.code ≡ 200
      → (r : AppendResult) × (signed : RootUpdate) × (reply
          ≡ reply_with 200 (Payload.registered r signed c))
        × Enrolls st out.1 c r signed

  -- Other replies have other statuses.
  refused :
      (st st' : State) (code : ℕ) (payload : Payload) (reply : Reply)
      → ◌≡◌ {A = Result String Reply} (ok (reply_with code payload)) (ok reply)
      → reply.code ≡ 200
      → 200 < code
      → ⊥
  refused st st' code payload reply h accepted lt =
      let e : code ≡ reply.code = ap (λ (q : Reply). q.code) (ok-injective h) in
      omega (arith, e, accepted)

  attest-IsAnswered :
      (st st' : State) (c : Text) (r : AppendResult) (root : Result String Text)
      → has st.store c ≡ false
      → Appends bb (leaves_of bb st.store) (hex_to_bigint c) st.merkle st'.merkle r
      → r.leaf_index ≡ count st.store
      → leaf_index_for st'.store c ≡ some r.leaf_index
      → IsAnswered st c (attest bb st' c r root)
  unfolding attest kv_set leaf_index_for
  attest-IsAnswered st st' c r (fail e) free a position found reply h accepted = cc
  attest-IsAnswered st st' c r (ok root) free a position found reply h accepted =
      let signed : RootUpdate = record {
        old_root = r.old_root;
        new_root = r.new_root;
        new_commitments = hex_to_bigint c ∷ [];
      } in
      (
        r,
        signed,
        sym (ok-injective h),
        record {
          fresh = free;
          position = position;
          old_root = a.old_root;
          new_root = a.new_root;
          commitments = refl;
          walked = a.walked ∙ ap ok a.new_root;
          stored = found;
        },
      )

  commit-IsAnswered :
      (st : State) (clock : Clock) (body : RegisterBody)
      → IsConsistent bb st
      → has st.store body.commitment ≡ false
      → (m : Result String (MerkleIndex × AppendResult))
      → append bb st.merkle (hex_to_bigint body.commitment) ≡ m
      → IsAnswered st body.commitment (commit bb st clock body m)
  unfolding commit persist
  commit-IsAnswered st clock body h free (fail e) e' = λ reply k accepted. cc
  commit-IsAnswered st clock body h free (ok (merkle, r)) e =
      let a =
        append_inv bb (leaves_of bb st.store) (hex_to_bigint body.commitment) st.merkle merkle r
          h.index e in
      let (inserted, h', found) =
        extended-IsConsistent bb st merkle (row_of body r.leaf_index (clock.ms / 1000)) r h a refl
          free in
      let position = a.leaf_index ∙ count-leaves bb st.store h.dense in
      rw inserted (
        attest-IsAnswered st _ body.commitment r (bigint_to_hex32 r.new_root) free a position found)

  -- An answered request has a body, whose commitment is derived from its output and is the one that
  -- the reply names and that has been enrolled.
  abbrev pub EnrollsDerived : RegisterRequest → Reply → State → State → Type 0
  EnrollsDerived req reply st st' =
      (body : RegisterBody) × (parse_register req ≡ ok body)
      × (commitment_from_oprf_output bb (from_hex body.unblinded_output)
          ≡ ok (hex_to_bigint body.commitment))
      × (r : AppendResult) × (signed : RootUpdate) × (reply
          ≡ reply_with 200 (Payload.registered r signed body.commitment))
      × Enrolls st st' body.commitment r signed

  -- If `POST /oprf/register` on a consistent state answers 200, then the commitment in the body is
  -- the one derived from the body's output, and the reply names it; it was new and is now enrolled at
  -- the next leaf index, the attester was given the roots of the tree before and after and this
  -- commitment alone, and the path in the reply takes the commitment to the new root.
  pub register-IsAnswered :
      (st : State) (clock : Clock) (req : RegisterRequest) (reply : Reply)
      → IsConsistent bb st
      → (register bb st clock req).0 ≡ ok reply
      → reply.code ≡ 200
      → EnrollsDerived req reply st (register bb st clock req).1
  unfolding register
  register-IsAnswered st clock req reply h = parsed (parse_register req) refl
    where
      checked :
          (body : RegisterBody) (derived : Result String ℕ)
          → (enroll bb st clock body derived).0 ≡ ok reply
          → reply.code ≡ 200
          → (derived ≡ ok (hex_to_bigint body.commitment))
            × ((r : AppendResult) × (signed : RootUpdate) × (reply
                  ≡ reply_with 200 (Payload.registered r signed body.commitment))
                × Enrolls st (enroll bb st clock body derived).1 body.commitment r signed)
      checked body (fail e) = unfold enroll in λ k accepted. cc
      checked body (ok expected) = elim (Bool-cases (expected == hex_to_bigint body.commitment)) [
        | inr differs ↦
            unfold enroll in
            (rw differs λ k accepted.
              absurd (refused st st 400 Payload.commitment_mismatch reply k accepted (omega arith)))
        | inl same ↦ elim (Bool-cases (has st.store body.commitment)) [
          | inl taken ↦
              unfold enroll in
              (rw (same, taken)
                λ k accepted. absurd (
                  refused st st 409 (Payload.already_enrolled body.commitment) reply k accepted
                    (omega arith)))
          | inr free ↦
              let e : expected ≡ hex_to_bigint body.commitment = ground arith in
              unfold enroll in
              (rw (same, free)
                λ k accepted.
                  (ap ok e, commit-IsAnswered st clock body h free _ refl reply k accepted))
        ]
      ]

      parsed :
          (p : Result Reply RegisterBody)
          → parse_register req ≡ p
          → (enroll_parsed bb st clock p).0 ≡ ok reply
          → reply.code ≡ 200
          → EnrollsDerived req reply st (enroll_parsed bb st clock p).1
      parsed (fail r) e k accepted =
          let code = parse_register_refused req r e in
          let same : r ≡ reply = ok-injective k in
          absurd (omega (arith, code, ap (λ (q : Reply). q.code) same, accepted))
      parsed (ok body) e k accepted =
          let (derived, (r, signed, named, enrolls)) =
            checked body (commitment_from_oprf_output bb (from_hex body.unblinded_output)) k
              accepted in
          (body, e, derived, r, signed, named, enrolls)
