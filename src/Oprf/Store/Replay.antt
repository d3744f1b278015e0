-- ===== src/Oprf/Store/Replay.antt =====
-- The cache of the envelopes that were seen.
use crisp_qes.Common.{
  ℕ, ◌≤◌, ◌≡◌, refl, sym, ap, Bool, true, false, not, ◌&&◌, ◌||◌, Option, none, some, List, [], ◌∷◌,
  ◌++◌, String, ltb, any, keep, bytes_eq_refl, arith, Bool-cases, inl, inr,
}
use crisp_qes.Common.Text.{Text}
use crisp_qes.Oprf.Store.{
  Store, EnrolledRow, ReplayRow, insert, kv_set, with_hash, record_p7s_hash_if_fresh,
  prune_p7s_replay_cache, increment_blind_eval_count, prune_blind_eval_counts, collides,
}

-- The cache has the hash, seen at `t` or later.
abbrev pub saw : List ℕ → ℕ → ReplayRow → Bool
saw h t r = with_hash h r && not (ltb r.seen_at t)

abbrev pub HasSeen : List ℕ → ℕ → Store → Type 0
HasSeen h t s = any (saw h t) s.p7s_replay_cache ≡ true

-- The statements that change a store. The replay cache is pruned of rows older than `bound` at most.
pub data Step (bound : ℕ) : Store → Store → Type 0 where
  inserted : (s s' : Store) (row : EnrolledRow) → insert s row ≡ some s' → Step bound s s'
  stamped : (s : Store) (key : String) (value : Text) → Step bound s (kv_set s key value)
  recorded : (s : Store) (h : List ℕ) (t : ℕ) → Step bound s (record_p7s_hash_if_fresh s h t).1
  pruned :
      (s : Store) (older_than : ℕ)
      → older_than ≤ bound
      → Step bound s (prune_p7s_replay_cache s older_than).1
  counted : (s : Store) (h : List ℕ) (t : ℕ) → Step bound s (increment_blind_eval_count s h t).1
  forgot : (s : Store) (older_than : ℕ) → Step bound s (prune_blind_eval_counts s older_than).1

pub data Steps (bound : ℕ) : Store → Store → Type 0 where
  done : (s : Store) → Steps bound s s
  next : {s s' s'' : Store} → Step bound s s' → Steps bound s' s'' → Steps bound s s''

any-append_last :
    (p : ReplayRow → Bool) (rows : List ReplayRow) (row : ReplayRow)
    → any p (rows ++ row ∷ []) ≡ any p rows || p row
any-append_last p [] row = ground arith
any-append_last p (r ∷ rows) row = ground (arith, any-append_last p rows row)

any-keep :
    (h : List ℕ) (t older_than : ℕ) (rows : List ReplayRow)
    → older_than ≤ t
    → any (saw h t) rows ≡ true
    → any (saw h t) (keep (λ (r : ReplayRow). not (ltb r.seen_at older_than)) rows) ≡ true
any-keep h t older_than [] le e = e
any-keep h t older_than (r ∷ rows) le e = ground (arith, any-keep h t older_than rows le)

any-weaken :
    (h : List ℕ) (t : ℕ) (rows : List ReplayRow)
    → any (saw h t) rows ≡ true
    → any (with_hash h) rows ≡ true
any-weaken h t [] e = e
any-weaken h t (r ∷ rows) e = ground (arith, any-weaken h t rows)

insert-cache :
    (s s' : Store) (row : EnrolledRow)
    → insert s row ≡ some s'
    → s.p7s_replay_cache ≡ s'.p7s_replay_cache
unfolding insert
insert-cache s s' row e = elim (Bool-cases (any (collides row) s.enrolled)) [
  | inl taken ↦ let f : none ≡ some s' = rw taken at e in cc
  | inr free ↦
      let f = rw free at e in
      ap (λ (o : Option Store). elim o [ some u ↦ u.p7s_replay_cache | none ↦ [] ]) f
]

Step-HasSeen : (h : List ℕ) (t : ℕ) (s s' : Store) → Step t s s' → HasSeen h t s → HasSeen h t s'
unfolding record_p7s_hash_if_fresh prune_p7s_replay_cache kv_set increment_blind_eval_count
    prune_blind_eval_counts
Step-HasSeen h t s s' (Step.inserted _ _ row e) seen = rw (sym (insert-cache s s' row e)) seen
Step-HasSeen h t s _ (Step.stamped _ key value) seen = seen
Step-HasSeen h t s _ (Step.recorded _ h' t') seen =
    elim (Bool-cases (any (with_hash h') s.p7s_replay_cache)) [
      | inl old ↦ rw old seen
      | inr fresh ↦
          rw
            (
              fresh,
              any-append_last (saw h t) s.p7s_replay_cache (record { p_hash = h'; seen_at = t' }),
              seen,
            )
            refl
    ]
Step-HasSeen h t s _ (Step.pruned _ older_than le) seen =
    any-keep h t older_than s.p7s_replay_cache le seen
Step-HasSeen h t s _ (Step.counted _ h' t') seen = seen
Step-HasSeen h t s _ (Step.forgot _ older_than) seen = seen

Steps-HasSeen : (h : List ℕ) (t : ℕ) (s s' : Store) → Steps t s s' → HasSeen h t s → HasSeen h t s'
Steps-HasSeen h t s s' (Steps.done _) seen = seen
Steps-HasSeen h t s s' (Steps.next {s' = u} step steps) seen =
    Steps-HasSeen h t u s' steps (Step-HasSeen h t s u step seen)

record-HasSeen :
    (s : Store) (h : List ℕ) (t : ℕ)
    → (record_p7s_hash_if_fresh s h t).0 ≡ true
    → HasSeen h t (record_p7s_hash_if_fresh s h t).1
unfolding record_p7s_hash_if_fresh
record-HasSeen s h t fresh = elim (Bool-cases (any (with_hash h) s.p7s_replay_cache)) [
  | inl old ↦ let e : false ≡ true = rw old at fresh in cc
  | inr missing ↦
      let row : ReplayRow = record { p_hash = h; seen_at = t } in
      rw (missing, any-append_last (saw h t) s.p7s_replay_cache row, bytes_eq_refl h) (ground arith)
]

-- An envelope that was recorded as new at `t` is refused later, and the store left alone, whatever
-- statements ran in between, as long as no pruning was of rows seen after `t`.
pub replay_refused :
    (s s' : Store) (h : List ℕ) (t later : ℕ)
    → (record_p7s_hash_if_fresh s h t).0 ≡ true
    → Steps t (record_p7s_hash_if_fresh s h t).1 s'
    → record_p7s_hash_if_fresh s' h later ≡ (false, s')
unfolding record_p7s_hash_if_fresh
replay_refused s s' h t later fresh steps =
    let seen = Steps-HasSeen h t _ s' steps (record-HasSeen s h t fresh) in
    rw (any-weaken h t s'.p7s_replay_cache seen) refl
