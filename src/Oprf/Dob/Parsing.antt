-- ===== src/Oprf/Dob/Parsing.antt =====
-- Which texts are dates of birth.
use crisp_qes.Common.{
  ℕ, ◌≤◌, ◌<◌, ◌≡◌, refl, sym, subst, ap, ◌∙◌, ◌↔◌, inl, inr, true, false, ◌||◌, none, some, ltb,
  leb, ◌==◌, arith, Bool-cases,
}
use crisp_qes.Common.Text.{Text}
use crisp_qes.Oprf.Dob.{
  Date, days_in_month, date_utc, differs, checked_date, parse_dob_string, starts_with_8_digits,
  number_at,
}

-- A date of the calendar in the years that are accepted.
abbrev pub IsAccepted : Date → Type 0
IsAccepted t =
    ((1900 ≤ t.year) × (t.year ≤ 2100))
    × ((1 ≤ t.month) × (t.month ≤ 12))
    × ((1 ≤ t.day) × (t.day ≤ days_in_month t.year t.month))

days_in_month-le : (y m : ℕ) → days_in_month y m ≤ 31
unfolding days_in_month
days_in_month-le y m = ground arith

date_utc_inside :
    (y m d : ℕ) → d ≤ days_in_month y m → date_utc y m d ≡ record { year = y; month = m; day = d }
unfolding date_utc
date_utc_inside y m d h = let e : leb d (days_in_month y m) ≡ true = ground arith in rw e refl

date_utc_outside : (y m d : ℕ) → days_in_month y m < d → differs (date_utc y m d) y m d ≡ true
unfolding date_utc
date_utc_outside y m d h =
    let e : leb d (days_in_month y m) ≡ false = ground arith in
    elim (Bool-cases (m == 12)) [
      | inl december ↦ rw (e, december) (ground arith)
      | inr other ↦ rw (e, other) (ground arith)
    ]

differs_same : (y m d : ℕ) → differs (record { year = y; month = m; day = d }) y m d ≡ false
differs_same y m d = ground arith

checked_date_complete :
    (y m d : ℕ)
    → IsAccepted (record { year = y; month = m; day = d })
    → checked_date y m d ≡ some (record { year = y; month = m; day = d })
unfolding checked_date
checked_date_complete y m d (years, months, days) =
    let ranges : ltb m 1 || (ltb 12 m || (ltb d 1 || ltb 31 d)) ≡ false =
      ground (arith, days_in_month-le y m) in
    let year : ltb y 1900 || ltb 2100 y ≡ false = ground arith in
    rw (ranges, year, date_utc_inside y m d days.1, differs_same y m d) refl

checked_date_sound :
    (y m d : ℕ) (t : Date)
    → checked_date y m d ≡ some t
    → IsAccepted (record { year = y; month = m; day = d })
      × (record { year = y; month = m; day = d } ≡ t)
unfolding checked_date
checked_date_sound y m d t h = elim (Bool-cases (ltb m 1 || (ltb 12 m || (ltb d 1 || ltb 31 d)))) [
  | inl bad ↦ let e : none ≡ some t = rw bad at h in cc
  | inr ranges ↦ elim (Bool-cases (ltb y 1900 || ltb 2100 y)) [
    | inl bad ↦ let e : none ≡ some t = rw (ranges, bad) at h in cc
    | inr years ↦ elim (Bool-cases (leb d (days_in_month y m))) [
      | inr outside ↦
          let past = date_utc_outside y m d (ground arith) in
          let e : none ≡ some t = rw (ranges, years, past) at h in cc
      | inl inside ↦
          let days : d ≤ days_in_month y m = ground arith in
          let same = date_utc_inside y m d days in
          let e : some (record { year = y; month = m; day = d }) ≡ some t =
            rw (ranges, years, same, differs_same y m d) at h in
          ((ground arith, ground arith, ground arith), cc)
    ]
  ]
]

-- A text is read as a date exactly if it starts with eight digits and these are the year, month and
-- day of a date of the calendar between 1900 and 2100: then that is the date read.
pub parse_dob_string_iff :
    (raw : Text) (t : Date)
    → (parse_dob_string raw ≡ some t) ↔ (
        (starts_with_8_digits raw ≡ true)
        × (record { year = number_at raw 0 4; month = number_at raw 4 6; day = number_at raw 6 8 }
            ≡ t)
        × IsAccepted t)
unfolding parse_dob_string
parse_dob_string_iff raw t = elim (Bool-cases (starts_with_8_digits raw)) [
  | inr short ↦ (λ h. let e : none ≡ some t = rw short at h in cc, λ (digits, _, _). cc)
  | inl digits ↦ (
    λ h.
        let (accepted, e) =
          checked_date_sound (number_at raw 0 4) (number_at raw 4 6) (number_at raw 6 8) t
            (rw digits at h) in
        (digits, e, subst (λ u. IsAccepted u) e accepted),
    λ (_, e, accepted). rw digits (
        checked_date_complete (number_at raw 0 4) (number_at raw 4 6) (number_at raw 6 8)
          (subst (λ u. IsAccepted u) (sym e) accepted)
        ∙ ap some e),
  )
]
