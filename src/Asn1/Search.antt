-- ===== src/Asn1/Search.antt =====
-- The search finds the first occurrence.
use crisp_qes.Common.{
  ℕ, zero, suc, ◌+◌, ◌-◌, ◌≤◌, ◌<◌, ◌≡◌, refl, ap, ◌∙◌, subst, ◌↔◌, ◌⊎◌, inl, inr, true, Option,
  none, some, List, [], ◌∷◌, ltb, length, get_elem?, ◌==◌, Bool-cases, arith, and_true,
}
use crisp_qes.Asn1.{is_byte, same_from, bytes_eq_at, search_from, index_of}

-- The bytes `b` stand in `a` from the position `off` on.
abbrev pub OccursAt : List ℕ → ℕ → List ℕ → Type 0
OccursAt a off b = (k : ℕ) → k < length b → get_elem? a (off + k) ≡ get_elem? b k

is_byte_iff : (x : Option ℕ) (byte : ℕ) → (is_byte x byte ≡ true) ↔ (x ≡ some byte)
is_byte_iff none byte = (λ h. cc, λ h. cc)
is_byte_iff (some x) byte =
    (λ h. ap some (ground arith), λ h. let e : x ≡ byte = cc in ground arith)

same_from-OccursAt :
    (a : List ℕ) (off : ℕ) (b : List ℕ) → (same_from a off b ≡ true) ↔ OccursAt a off b
unfolding same_from
same_from-OccursAt a off [] = (λ h k lt. absurd (omega (arith, lt)), λ h. refl)
same_from-OccursAt a off (byte ∷ b) =
    let (sound, complete) = same_from-OccursAt a (suc off) b in
    let (found, back) = is_byte_iff (get_elem? a off) byte in
    (
      λ h.
          let (first, rest) = and_true (is_byte (get_elem? a off) byte) _ h in
          λ k. at_each k (found first) (sound rest),
      λ h.
          let first = back (ap (get_elem? a) (omega arith) ∙ h 0 (omega arith)) in
          let rest =
            complete (λ k lt. ap (get_elem? a) (omega arith) ∙ h (suc k) (omega (arith, lt))) in
          rw (first, rest) refl,
    )
  where
    at_each :
        (k : ℕ)
        → get_elem? a off ≡ some byte
        → OccursAt a (suc off) b
        → k < suc (length b)
        → get_elem? a (off + k) ≡ get_elem? (byte ∷ b) k
    at_each zero first rest lt = ap (get_elem? a) (omega arith) ∙ first
    at_each (suc k) first rest lt = ap (get_elem? a) (omega arith) ∙ rest k (omega (arith, lt))

get_elem?-lt : (a : List ℕ) (i x : ℕ) → get_elem? a i ≡ some x → i < length a
get_elem?-lt [] i x h = absurd cc
get_elem?-lt (y ∷ a) zero x h = omega arith
get_elem?-lt (y ∷ a) (suc i) x h = omega (arith, get_elem?-lt a i x h)

later-absent :
    (hay needle : List ℕ) (i n : ℕ)
    → ¬ OccursAt hay i needle
    → ((j : ℕ) → suc i ≤ j → j < n → ¬ OccursAt hay j needle)
    → (j : ℕ) → i ≤ j
    → j < n
    → ¬ OccursAt hay j needle
later-absent hay needle i n here later j le lt = elim (Bool-cases (j == i)) [
  | inl same ↦ let e : i ≡ j = ground arith in subst (λ x. ¬ OccursAt hay x needle) e here
  | inr other ↦ let apart : suc i ≤ j = ground arith in later j apart lt
]

get_elem?-last : (x : ℕ) (xs : List ℕ) → (last : ℕ) × (get_elem? (x ∷ xs) (length xs) ≡ some last)
get_elem?-last x [] = (x, refl)
get_elem?-last x (y ∷ xs) = get_elem?-last y xs

-- What the loop finds is the first position of its range where the bytes stand.
search_from-cases :
    (hay needle : List ℕ) (n i : ℕ)
    → ((search_from hay needle n i ≡ none)
        × ((j : ℕ) → i ≤ j → j < i + n → ¬ OccursAt hay j needle))
      ⊎ ((at : ℕ) × (search_from hay needle n i ≡ some at)
          × OccursAt hay at needle
          × ((j : ℕ) → i ≤ j → j < at → ¬ OccursAt hay j needle))
unfolding search_from
search_from-cases hay needle zero i = inl (refl, λ j le lt. absurd (omega (arith, le, lt)))
search_from-cases hay needle (suc n) i =
    let (sound, complete) = same_from-OccursAt hay i needle in
    elim (Bool-cases (same_from hay i needle)) [
      | inl here ↦ inr (i, rw here refl, sound here, λ j le lt. absurd (omega (arith, le, lt)))
      | inr absent ↦
          let here : ¬ OccursAt hay i needle = λ o. absurd (let e = complete o in cc) in
          elim (search_from-cases hay needle n (suc i)) [
            | inl (missed, none_later) ↦ inl (
              rw (absent, missed) refl,
              later-absent hay needle i (i + suc n) here
                  λ j le lt. none_later j le (omega (arith, lt)),
            )
            | inr (at, found, occurs, none_before) ↦
                inr (
                  at,
                  rw (absent, found) refl,
                  occurs,
                  later-absent hay needle i at here none_before,
                )
          ]
    ]

-- `indexOf` returns the least position from which the needle stands in the bytes, and -1 exactly if
-- there is none.
pub index_of_first :
    (hay needle : List ℕ)
    → ((index_of hay needle ≡ none) × ((j : ℕ) → ¬ OccursAt hay j needle))
      ⊎ ((at : ℕ) × (index_of hay needle ≡ some at)
          × OccursAt hay at needle
          × ((j : ℕ) → j < at → ¬ OccursAt hay j needle))
unfolding index_of
index_of_first hay [] =
    inr (0, refl, (λ k lt. absurd (omega (arith, lt))), λ j lt. absurd (omega (arith, lt)))
index_of_first hay (byte ∷ needle) =
    elim (search_from-cases hay (byte ∷ needle) (suc (length hay) - length (byte ∷ needle)) 0) [
      | inl (missed, absent) ↦ inl (missed, λ j o. absent j (omega arith) (fits j o) o)
      | inr (at, found, occurs, before) ↦ inr (at, found, occurs, λ j lt. before j (omega arith) lt)
    ]
  where
    fits :
        (j : ℕ)
        → OccursAt hay j (byte ∷ needle)
        → j < 0 + (suc (length hay) - length (byte ∷ needle))
    fits j o =
        let (last, at_end) = get_elem?-last byte needle in
        let inside =
          get_elem?-lt hay (j + length needle) last (o (length needle) (omega arith) ∙ at_end) in
        omega (arith, inside)

-- `bytesEqAt` holds exactly if the range is inside the bytes and has the given bytes.
pub bytes_eq_at_iff :
    (a : List ℕ) (a_off : ℕ) (b : List ℕ)
    → (bytes_eq_at a a_off b ≡ true) ↔ ((a_off + length b ≤ length a) × OccursAt a a_off b)
unfolding bytes_eq_at
bytes_eq_at_iff a a_off b =
    let (sound, complete) = same_from-OccursAt a a_off b in
    elim (Bool-cases (ltb (length a) (a_off + length b))) [
      | inl outside ↦
          let lt : length a < a_off + length b = ground arith in
          rw outside (λ h. absurd cc, λ (le, _). absurd (omega (arith, le, lt)))
      | inr inside ↦
          let le : a_off + length b ≤ length a = ground arith in
          rw inside (λ h. (le, sound h), λ (_, o). complete o)
    ]
