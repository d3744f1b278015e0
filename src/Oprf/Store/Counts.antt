-- ===== src/Oprf/Store/Counts.antt =====
-- The counters of evaluations by subject.
use crisp_qes.Common.{
  ℕ, suc, ◌+◌, ◌≡◌, refl, ap, ◌∙◌, true, List, [], ◌∷◌, if◌then◌else◌, bytes_eq, bytes_eq_refl,
  bytes_eq_sound, arith, Bool-cases, inl, inr,
}
use crisp_qes.Oprf.Store.{Store, CountRow, upsert_count, increment_blind_eval_count}

abbrev pub Calls : Type 0
Calls = List (List ℕ × ℕ)

-- The counters after calls for subjects at times, the newest first, from `s`.
abbrev pub after_calls : Store → Calls → Store
after_calls s [] = s
after_calls s ((h, now) ∷ calls) = (increment_blind_eval_count (after_calls s calls) h now).1

-- How many of the calls are for the subject.
abbrev pub occurrences : List ℕ → Calls → ℕ
occurrences h [] = 0
occurrences h ((j, now) ∷ calls) = (if bytes_eq j h then 1 else 0) + occurrences h calls

-- The count of a subject in the table, 0 if it has no row.
abbrev pub count_in : List ℕ → List CountRow → ℕ
count_in h [] = 0
count_in h (r ∷ rows) = if bytes_eq r.subject_hash h then r.count else count_in h rows

bytes_eq-join : (a b c : List ℕ) → bytes_eq a c ≡ true → bytes_eq b c ≡ true → bytes_eq a b ≡ true
bytes_eq-join a b c h k = rw (bytes_eq_sound a c h, bytes_eq_sound b c k) (bytes_eq_refl c)

count_in-upsert :
    (h j : List ℕ) (now : ℕ) (rows : List CountRow)
    → ((upsert_count j now rows).0.count ≡ suc (count_in j rows))
      × (count_in h (upsert_count j now rows).1 ≡ (if bytes_eq j h then 1 else 0) + count_in h rows)
unfolding upsert_count
count_in-upsert h j now [] = (refl, ground arith)
count_in-upsert h j now (r ∷ rows) =
    let (here, there) = count_in-upsert h j now rows in
    elim (Bool-cases (bytes_eq r.subject_hash j)) [
      | inl same ↦
          let e : r.subject_hash ≡ j = bytes_eq_sound _ _ same in
          rw same (ground arith, rw e (ground arith))
      | inr other ↦ rw other (here, ground (arith, bytes_eq-join r.subject_hash j h, there))
    ]

count_in-after_calls :
    (h : List ℕ) (s : Store) (calls : Calls)
    → count_in h (after_calls s calls).blind_eval_counts
      ≡ occurrences h calls + count_in h s.blind_eval_counts
unfolding increment_blind_eval_count
count_in-after_calls h s [] = omega arith
count_in-after_calls h s ((j, now) ∷ calls) = omega (
  arith,
  (count_in-upsert h j now (after_calls s calls).blind_eval_counts).1,
  count_in-after_calls h s calls,
)

-- The counter that a call for a subject returns is one more than the calls for it before and than
-- its count at the start, whatever calls for other subjects came between.
pub increment_blind_eval_count-occurrences :
    (h : List ℕ) (now : ℕ) (s : Store) (calls : Calls)
    → (increment_blind_eval_count (after_calls s calls) h now).0.count
      ≡ suc (occurrences h calls + count_in h s.blind_eval_counts)
unfolding increment_blind_eval_count
increment_blind_eval_count-occurrences h now s calls =
    (count_in-upsert h h now (after_calls s calls).blind_eval_counts).0
    ∙ ap suc (count_in-after_calls h s calls)
