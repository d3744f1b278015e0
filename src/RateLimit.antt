-- ===== src/RateLimit.antt =====
-- packages/relayer/src/rateLimit.ts: one request per address and window, in memory.
-- Times are milliseconds; `now - prev < windowMs` is written `now < prev + window`.
pub mod Spacing
pub mod Pruning
use crisp_qes.Common.{
  ℕ, ◌+◌, ◌*◌, Bool, true, false, not, Option, none, some, List, [], ◌∷◌, String, ltb,
  if◌then◌else◌, length,
}
use crisp_qes.Common.Maps.{lookup, insert, keep_values}

-- `lastHit`
abbrev pub Hits : Type 0
Hits = List (String × ℕ)

abbrev pub max_entries : ℕ
max_entries = 10000

-- `prev !== undefined && now - prev < windowMs`
abbrev pub is_early : ℕ → Option ℕ → ℕ → Bool
is_early window none now = false
is_early window (some prev) now = ltb now (prev + window)

-- Not older than ten windows.
abbrev pub is_recent : ℕ → ℕ → ℕ → Bool
is_recent window now v = not (ltb (v + window * 10) now)

pub prune : ℕ → ℕ → Hits → Hits
prune window now hits =
    if ltb max_entries (length hits) then keep_values (is_recent window now) hits else hits

-- The decision, and the map after the call.
unfoldable pub take : ℕ → Hits → String → ℕ → Bool × Hits
unfolding prune
take window hits ip now =
    if is_early window (lookup ip hits) now
    then (false, hits)
    else (true, prune window now (insert ip now hits))
