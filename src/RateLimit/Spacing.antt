-- ===== src/RateLimit/Spacing.antt =====
-- Two requests of one address are not both let through within a window.
use crisp_qes.Common.{
  ℕ, ◌+◌, ◌*◌, ◌≤◌, ◌<◌, ◌≡◌, true, false, some, List, [], ◌∷◌, String, arith, All, eq_iff, eq_refl,
}
use crisp_qes.Common.Maps.{
  lookup, insert, HasDistinctKeys, lookup-insert, insert-HasDistinctKeys, lookup-keep_values,
  keep_values-HasDistinctKeys,
}
use crisp_qes.RateLimit.{Hits, is_recent, prune, take}

-- The map after a sequence of calls.
abbrev pub after : ℕ → Hits → List (String × ℕ) → Hits
after window hits [] = hits
after window hits ((ip, now) ∷ calls) = after window (take window hits ip now).1 calls

pub prune-HasDistinctKeys :
    (window now : ℕ) (hits : Hits) → HasDistinctKeys hits → HasDistinctKeys (prune window now hits)
unfolding prune
prune-HasDistinctKeys window now hits h =
    ground (arith, keep_values-HasDistinctKeys (is_recent window now) hits h)

pub take-HasDistinctKeys :
    (window now : ℕ) (hits : Hits) (ip : String)
    → HasDistinctKeys hits
    → HasDistinctKeys (take window hits ip now).1
unfolding take
take-HasDistinctKeys window now hits ip h = ground (
  arith,
  prune-HasDistinctKeys window now (insert ip now hits) (insert-HasDistinctKeys ip now hits h),
)

pub lookup-prune :
    (window now v : ℕ) (hits : Hits) (ip : String)
    → HasDistinctKeys hits
    → lookup ip hits ≡ some v
    → now ≤ v + window * 10
    → lookup ip (prune window now hits) ≡ some v
unfolding prune
lookup-prune window now v hits ip h e le =
    ground (arith, lookup-keep_values (is_recent window now) ip hits h)

-- Within the window the entry of an address stays, whoever calls.
lookup-take :
    (window now v : ℕ) (hits : Hits) (ip caller : String)
    → HasDistinctKeys hits
    → lookup ip hits ≡ some v
    → now < v + window
    → lookup ip (take window hits caller now).1 ≡ some v
unfolding take
lookup-take window now v hits ip caller h e lt = ground (
  arith,
  eq_iff caller ip,
  lookup-insert caller ip now hits,
  lookup-prune window now v (insert caller now hits) ip (insert-HasDistinctKeys caller now hits h),
)

take_granted :
    (window now : ℕ) (hits : Hits) (ip : String)
    → HasDistinctKeys hits
    → (take window hits ip now).0 ≡ true
    → lookup ip (take window hits ip now).1 ≡ some now
unfolding take
take_granted window now hits ip h e = ground (
  arith,
  eq_refl ip,
  lookup-insert ip ip now hits,
  lookup-prune window now now (insert ip now hits) ip (insert-HasDistinctKeys ip now hits h),
)

take_early :
    (window now v : ℕ) (hits : Hits) (ip : String)
    → lookup ip hits ≡ some v
    → now < v + window
    → take window hits ip now ≡ (false, hits)
unfolding take
take_early window now v hits ip e lt = rw e (ground arith)

-- Once an address has been let through at `now`, its requests before `now + window` are refused and
-- leave the map alone, whatever calls, of that address and of others, come between.
pub take_spaced :
    (window now later : ℕ) (hits : Hits) (ip : String) (calls : List (String × ℕ))
    → HasDistinctKeys hits
    → (take window hits ip now).0 ≡ true
    → All (λ c. c.1 < now + window) calls
    → later < now + window
    → take window (after window (take window hits ip now).1 calls) ip later
      ≡ (false, after window (take window hits ip now).1 calls)
take_spaced window now later hits ip calls h granted between lt =
    let h' = take-HasDistinctKeys window now hits ip h in
    take_early window later now _ ip
      (kept calls _ h' (take_granted window now hits ip h granted) between) lt
  where
    kept :
        (calls : List (String × ℕ)) (hits : Hits)
        → HasDistinctKeys hits
        → lookup ip hits ≡ some now
        → All (λ c. c.1 < now + window) calls
        → lookup ip (after window hits calls) ≡ some now
    kept [] hits h e _ = e
    kept ((caller, t) ∷ calls) hits h e (lt, between) =
        kept calls (take window hits caller t).1 (take-HasDistinctKeys window t hits caller h)
          (lookup-take window t now hits ip caller h e lt) between
