-- ===== src/Oprf/Dob/Age.antt =====
-- Ages are counted in completed years.
use crisp_qes.Common.{ℕ, ◌+◌, ◌≤◌, ◌<◌, ◌≡◌, ◌⊎◌, ◌↔◌, arith}
use crisp_qes.Oprf.Dob.{Date, age_in_years}

-- The date `dob` with the year moved by `n` is `now` or before it.
abbrev pub HasReached : ℕ → Date → Date → Type 0
HasReached n dob now =
    (dob.year + n < now.year)
    ⊎ ((dob.year + n ≡ now.year)
        × ((dob.month < now.month) ⊎ ((dob.month ≡ now.month) × (dob.day ≤ now.day))))

-- The age is at least `n`, for a positive `n`, exactly from the `n`th birthday on.
pub age_in_years-HasReached :
    (n : ℕ) (dob now : Date) → 0 < n → (n ≤ age_in_years dob now) ↔ HasReached n dob now
unfolding age_in_years
age_in_years-HasReached n dob now pos = ground arith
