-- ===== src/Oprf/Store/Enrolled.antt =====
-- The enrolled commitments: their leaf indices are dense, in the order of insertion.
use crisp_qes.Common.{
  ℕ, suc, ◌+◌, ◌≤◌, ◌<◌, ◌≡◌, refl, ap, Bool, true, false, none, some, List, [], ◌∷◌, ◌++◌, map,
  leb, length, any, find, bytes_eq, bytes_eq_refl, bytes_eq_sound, arith, Bool-cases, inl, inr,
  get_or,
}
use crisp_qes.Common.Text.{Text}
use crisp_qes.Oprf.Store.{
  Store, EnrolledRow, collides, insert, with_commitment, has, leaf_index_of, leaf_index_for,
  insert_by_leaf, sort_by_leaf, all_in_order, count, next_leaf_index,
}

abbrev pub IsDense : ℕ → List EnrolledRow → Type 0
IsDense n [] = Unit
IsDense n (r ∷ rows) = (r.leaf_index ≡ n) × IsDense (suc n) rows

abbrev pub commitments : List EnrolledRow → List Text
commitments = map (λ (r : EnrolledRow). r.commitment)

insert_by_leaf_first :
    (n : ℕ) (r : EnrolledRow) (rows : List EnrolledRow)
    → r.leaf_index ≡ n
    → IsDense (suc n) rows
    → insert_by_leaf r rows ≡ r ∷ rows
unfolding insert_by_leaf
insert_by_leaf_first n r [] e h = refl
insert_by_leaf_first n r (s ∷ rows) e (first, h) =
    let le : leb r.leaf_index s.leaf_index ≡ true = ground arith in rw le refl

sort_by_leaf-dense : (n : ℕ) (rows : List EnrolledRow) → IsDense n rows → sort_by_leaf rows ≡ rows
unfolding sort_by_leaf
sort_by_leaf-dense n [] h = refl
sort_by_leaf-dense n (r ∷ rows) (e, h) =
    rw (sort_by_leaf-dense (suc n) rows h) (insert_by_leaf_first n r rows e h)

pub all_in_order-dense :
    (s : Store) → IsDense 0 s.enrolled → all_in_order s ≡ commitments s.enrolled
unfolding all_in_order
all_in_order-dense s h = ap commitments (sort_by_leaf-dense 0 s.enrolled h)

IsDense-append :
    (n : ℕ) (rows : List EnrolledRow) (row : EnrolledRow)
    → IsDense n rows
    → row.leaf_index ≡ n + length rows
    → IsDense n (rows ++ row ∷ [])
IsDense-append n [] row h e = (omega (arith, e), tt)
IsDense-append n (r ∷ rows) row (e, h) last =
    (e, IsDense-append (suc n) rows row h (omega (arith, last)))

any-collides :
    (n : ℕ) (row : EnrolledRow) (rows : List EnrolledRow)
    → IsDense n rows
    → n + length rows ≤ row.leaf_index
    → any (collides row) rows ≡ any (with_commitment row.commitment) rows
any-collides n row [] h le = refl
any-collides n row (r ∷ rows) (e, h) le = ground (arith, any-collides (suc n) row rows h)

find-append_last :
    (p : EnrolledRow → Bool) (rows : List EnrolledRow) (row : EnrolledRow)
    → any p rows ≡ false
    → p row ≡ true
    → find p (rows ++ row ∷ []) ≡ some row
find-append_last p [] row h e = rw e refl
find-append_last p (r ∷ rows) row h e = ground (arith, find-append_last p rows row)

-- The store after the insertion of a new commitment at the next leaf index.
abbrev pub extended : Store → EnrolledRow → Store
extended s row = record {
  enrolled = s.enrolled ++ row ∷ [];
  kv = s.kv;
  p7s_replay_cache = s.p7s_replay_cache;
  blind_eval_counts = s.blind_eval_counts;
}

-- In a dense store, a row at the next leaf index is inserted exactly if its commitment is new; then
-- the store is dense again, lists its commitments with the new one last, and finds it at that index.
pub insert_next :
    (s : Store) (row : EnrolledRow)
    → IsDense 0 s.enrolled
    → row.leaf_index ≡ next_leaf_index s
    → (has s row.commitment ≡ true → insert s row ≡ none)
      × (has s row.commitment ≡ false
          → (insert s row ≡ some (extended s row))
            × IsDense 0 (extended s row).enrolled
            × (all_in_order (extended s row) ≡ all_in_order s ++ row.commitment ∷ [])
            × (leaf_index_for (extended s row) row.commitment ≡ some (next_leaf_index s)))
unfolding insert has leaf_index_for
insert_next s row h e =
    let same = any-collides 0 row s.enrolled h (omega arith) in
    let dense = IsDense-append 0 s.enrolled row h (omega arith) in
    (
      λ taken. rw (same, taken) refl,
      λ free. (
        rw (same, free) refl,
        dense,
        rw (all_in_order-dense (extended s row) dense, all_in_order-dense s h)
            (map-append_last s.enrolled),
        rw
            (find-append_last (with_commitment row.commitment) s.enrolled row free
              (bytes_eq_refl row.commitment))
            (ap some e),
      ),
    )
  where
    map-append_last :
        (rows : List EnrolledRow)
        → commitments (rows ++ row ∷ []) ≡ commitments rows ++ row.commitment ∷ []
    map-append_last [] = refl
    map-append_last (r ∷ rows) = ap (λ cs. r.commitment ∷ cs) (map-append_last rows)

find-dense :
    (n k : ℕ) (c : Text) (rows : List EnrolledRow)
    → IsDense n rows
    → leaf_index_of (find (with_commitment c) rows) ≡ some k
    → (i : ℕ) × (k ≡ n + i) × (i < length rows) × (get_or (commitments rows) i [] ≡ c)
find-dense n k c [] h e = cc
find-dense n k c (r ∷ rows) (first, h) e = elim (Bool-cases (bytes_eq r.commitment c)) [
  | inl here ↦
      let found : some r.leaf_index ≡ some k = rw here at e in
      let same : r.leaf_index ≡ k = cc in (0, omega arith, omega arith, bytes_eq_sound _ _ here)
  | inr there ↦
      let (i, at, lt, got) = find-dense (suc n) k c rows h (rw there at e) in
      (suc i, omega (arith, at), omega arith, got)
]

-- In a dense store, the leaf index found for a commitment is its position among the commitments in
-- order.
pub leaf_index_for-all_in_order :
    (s : Store) (c : Text) (i : ℕ)
    → IsDense 0 s.enrolled
    → leaf_index_for s c ≡ some i
    → (i < count s) × (get_or (all_in_order s) i [] ≡ c)
unfolding leaf_index_for
leaf_index_for-all_in_order s c i h e =
    let (j, at, lt, got) = find-dense 0 i c s.enrolled h e in
    let same : i ≡ j = omega (arith, at) in (omega arith, rw (all_in_order-dense s h, same) got)
