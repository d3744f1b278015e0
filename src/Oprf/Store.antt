-- ===== src/Oprf/Store.antt =====
-- packages/oprf/src/db.ts: the tables of the enrollment store.
-- A table is its rows; a statement that breaks a unique constraint throws, and leaves it alone.
pub mod Replay
pub mod Counts
pub mod Enrolled
use crisp_qes.Common.{
  ℕ, ◌+◌, ◌-◌, Bool, true, false, not, ◌||◌, Option, none, some, List, [], ◌∷◌, ◌++◌, map, String,
  ltb, leb, ◌==◌, if◌then◌else◌, length, any, find, keep, bytes_eq, str_eq,
}
use crisp_qes.Common.Text.{Text}
use crisp_qes.Common.Maps

pub record EnrolledRow : Type 0 where
  pub commitment : Text
  pub leaf_index : ℕ
  pub enrolled_at : ℕ
  pub blinded_input : Text

pub record ReplayRow : Type 0 where
  pub p_hash : List ℕ
  pub seen_at : ℕ

pub record CountRow : Type 0 where
  pub subject_hash : List ℕ
  pub count : ℕ
  pub first_seen : ℕ

-- The four tables of the schema.
pub record Store : Type 0 where
  pub enrolled : List EnrolledRow
  pub kv : List (String × Text)
  pub p7s_replay_cache : List ReplayRow
  pub blind_eval_counts : List CountRow

abbrev pub empty_store : Store
empty_store = record { enrolled = []; kv = []; p7s_replay_cache = []; blind_eval_counts = [] }

-- The row breaks the primary key or the unique leaf index.
abbrev pub collides : EnrolledRow → EnrolledRow → Bool
collides row r = bytes_eq r.commitment row.commitment || (r.leaf_index == row.leaf_index)

unfoldable pub insert : Store → EnrolledRow → Option Store
insert s row =
    if any (collides row) s.enrolled
    then none
    else some (record {
      enrolled = s.enrolled ++ row ∷ [];
      kv = s.kv;
      p7s_replay_cache = s.p7s_replay_cache;
      blind_eval_counts = s.blind_eval_counts;
    })

abbrev pub with_commitment : Text → EnrolledRow → Bool
with_commitment commitment r = bytes_eq r.commitment commitment

unfoldable pub has : Store → Text → Bool
has s commitment = any (with_commitment commitment) s.enrolled

abbrev pub leaf_index_of : Option EnrolledRow → Option ℕ
leaf_index_of none = none
leaf_index_of (some r) = some r.leaf_index

unfoldable pub leaf_index_for : Store → Text → Option ℕ
leaf_index_for s commitment = leaf_index_of (find (with_commitment commitment) s.enrolled)

-- `ORDER BY leaf_index ASC`
unfoldable pub insert_by_leaf : EnrolledRow → List EnrolledRow → List EnrolledRow
insert_by_leaf r [] = r ∷ []
insert_by_leaf r (s ∷ rows) =
    let rest = insert_by_leaf r rows in
    if leb r.leaf_index s.leaf_index then r ∷ s ∷ rows else s ∷ rest

unfoldable pub sort_by_leaf : List EnrolledRow → List EnrolledRow
unfolding insert_by_leaf
sort_by_leaf [] = []
sort_by_leaf (r ∷ rows) = insert_by_leaf r (sort_by_leaf rows)

unfoldable pub all_in_order : Store → List Text
unfolding sort_by_leaf
all_in_order s = map (λ (r : EnrolledRow). r.commitment) (sort_by_leaf s.enrolled)

abbrev pub count : Store → ℕ
count s = length s.enrolled

abbrev pub next_leaf_index : Store → ℕ
next_leaf_index s = count s

unfoldable pub kv_get : Store → String → Option Text
kv_get s key = Maps.lookup key s.kv

unfoldable pub kv_set : Store → String → Text → Store
kv_set s key value = record {
  enrolled = s.enrolled;
  kv = Maps.insert key value s.kv;
  p7s_replay_cache = s.p7s_replay_cache;
  blind_eval_counts = s.blind_eval_counts;
}

abbrev pub with_hash : List ℕ → ReplayRow → Bool
with_hash h r = bytes_eq r.p_hash h

abbrev pub with_replay_cache : Store → List ReplayRow → Store
with_replay_cache s rows = record {
  enrolled = s.enrolled;
  kv = s.kv;
  p7s_replay_cache = rows;
  blind_eval_counts = s.blind_eval_counts;
}

-- Whether the hash is new, and the store with it.
unfoldable pub record_p7s_hash_if_fresh : Store → List ℕ → ℕ → Bool × Store
record_p7s_hash_if_fresh s p_hash seen_at =
    if any (with_hash p_hash) s.p7s_replay_cache then (false, s) else (
      true,
      with_replay_cache s
          (s.p7s_replay_cache ++ record { p_hash = p_hash; seen_at = seen_at } ∷ []),
    )

unfoldable pub prune_p7s_replay_cache : Store → ℕ → ℕ × Store
prune_p7s_replay_cache s older_than =
    let rows = keep (λ (r : ReplayRow). not (ltb r.seen_at older_than)) s.p7s_replay_cache in
    (length s.p7s_replay_cache - length rows, with_replay_cache s rows)

abbrev pub with_counts : Store → List CountRow → Store
with_counts s rows = record {
  enrolled = s.enrolled;
  kv = s.kv;
  p7s_replay_cache = s.p7s_replay_cache;
  blind_eval_counts = rows;
}

-- The row after `INSERT … ON CONFLICT … count = count + 1`, and the table with it.
unfoldable pub upsert_count : List ℕ → ℕ → List CountRow → CountRow × List CountRow
upsert_count subject_hash now [] =
    let row : CountRow = record { subject_hash = subject_hash; count = 1; first_seen = now } in
    (row, row ∷ [])
upsert_count subject_hash now (r ∷ rows) =
    let (found, rest) = upsert_count subject_hash now rows in
    let bumped : CountRow = record {
      subject_hash = r.subject_hash;
      count = r.count + 1;
      first_seen = r.first_seen;
    } in
    if bytes_eq r.subject_hash subject_hash then (bumped, bumped ∷ rows) else (found, r ∷ rest)

unfoldable pub increment_blind_eval_count : Store → List ℕ → ℕ → CountRow × Store
unfolding upsert_count
increment_blind_eval_count s subject_hash now =
    let (row, rows) = upsert_count subject_hash now s.blind_eval_counts in (row, with_counts s rows)

unfoldable pub prune_blind_eval_counts : Store → ℕ → ℕ × Store
prune_blind_eval_counts s older_than =
    let rows = keep (λ (r : CountRow). not (ltb r.first_seen older_than)) s.blind_eval_counts in
    (length s.blind_eval_counts - length rows, with_counts s rows)
