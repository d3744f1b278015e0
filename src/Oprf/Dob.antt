-- ===== src/Oprf/Dob.antt =====
-- packages/oprf/src/dob.ts: dates of birth and ages.
-- A `Date` at midnight UTC is its calendar date, with months from 1.
pub mod Age
pub mod Parsing
use crisp_qes.Common.{
  ℕ, ◌+◌, ◌-◌, ◌%◌, Bool, true, false, not, ◌&&◌, ◌||◌, Option, none, some, ltb, leb, ◌==◌,
  if◌then◌else◌, length, take, drop, all,
}
use crisp_qes.Common.Text.{Text, is_digit, decimal_value}

pub record Date : Type 0 where
  pub year : ℕ
  pub month : ℕ
  pub day : ℕ

abbrev pub is_leap_year : ℕ → Bool
is_leap_year y = ((y % 4 == 0) && not (y % 100 == 0)) || (y % 400 == 0)

unfoldable pub days_in_month : ℕ → ℕ → ℕ
days_in_month y m =
    if m == 2
    then (if is_leap_year y then 29 else 28)
    else if (m == 4) || ((m == 6) || ((m == 9) || (m == 11)))
    then 30
    else 31

-- `new Date(Date.UTC(y, m - 1, d))`, for a month of 1 to 12 and a day of at most 31: the days past
-- the end of the month run into the next one.
unfoldable pub date_utc : ℕ → ℕ → ℕ → Date
unfolding days_in_month
date_utc y m d =
    if leb d (days_in_month y m)
    then record { year = y; month = m; day = d }
    else if m == 12
    then record { year = y + 1; month = 1; day = d - days_in_month y m }
    else record { year = y; month = m + 1; day = d - days_in_month y m }

abbrev pub number_at : Text → ℕ → ℕ → ℕ
number_at raw from upto = decimal_value 0 (take (upto - from) (drop from raw))

-- `back` is not the date that was asked for.
abbrev pub differs : Date → ℕ → ℕ → ℕ → Bool
differs back y m d = not (back.year == y) || (not (back.month == m) || not (back.day == d))

abbrev pub starts_with_8_digits : Text → Bool
starts_with_8_digits raw = (length (take 8 raw) == 8) && all is_digit (take 8 raw)

-- `parseDOBString` once the numbers are read.
unfoldable pub checked_date : ℕ → ℕ → ℕ → Option Date
unfolding date_utc
checked_date y m d =
    if ltb m 1 || (ltb 12 m || (ltb d 1 || ltb 31 d))
    then none
    else if ltb y 1900 || ltb 2100 y
    then none
    else let back = date_utc y m d in if differs back y m d then none else some back

unfoldable pub parse_dob_string : Text → Option Date
unfolding checked_date
parse_dob_string raw =
    if not (starts_with_8_digits raw)
    then none
    else checked_date (number_at raw 0 4) (number_at raw 4 6) (number_at raw 6 8)

-- Where JavaScript's age is negative, this one is 0, as the maximum with 0 makes it.
unfoldable pub age_in_years : Date → Date → ℕ
age_in_years dob now =
    let age = now.year - dob.year in
    if ltb now.month dob.month || ((now.month == dob.month) && ltb now.day dob.day)
    then age - 1
    else age
