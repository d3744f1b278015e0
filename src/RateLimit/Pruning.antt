-- ===== src/RateLimit/Pruning.antt =====
-- The limiter, pruning included, against the history of the requests that were let through.
use native.Mathlib.Nat.{le_refl}
use crisp_qes.Common.{
  ℕ, ◌+◌, ◌*◌, ◌≤◌, ◌<◌, ◌≡◌, refl, Bool, true, false, not, ◌&&◌, Option, none, some, List, [], ◌∷◌,
  String, ltb, if◌then◌else◌, length, arith, All, any, str_eq, ◌⊎◌, inl, inr, ap, sym, Bool-cases,
  ltb→lt,
}
use crisp_qes.Common.Maps.{
  lookup, insert, HasDistinctKeys, when, lookup-insert, insert-HasDistinctKeys, lookup-keep_values,
}
use crisp_qes.RateLimit.{Hits, is_early, is_recent, max_entries, prune, take}
use crisp_qes.RateLimit.Spacing.{prune-HasDistinctKeys}

-- A request is allowed if no earlier grant to its address is less than a window old.
allowed : ℕ → Hits → String → ℕ → Bool
allowed window grants ip now = not (any (λ g. str_eq g.0 ip && ltb now (g.1 + window)) grants)

-- The decisions of the limiter, and those by the history of grants, the newest first.
pub decisions : ℕ → Hits → List (String × ℕ) → List Bool
decisions window hits [] = []
decisions window hits ((ip, now) ∷ calls) =
    let (granted, hits') = take window hits ip now in granted ∷ decisions window hits' calls

pub allowed_decisions : ℕ → Hits → List (String × ℕ) → List Bool
unfolding allowed
allowed_decisions window grants [] = []
allowed_decisions window grants ((ip, now) ∷ calls) =
    let ok = allowed window grants ip now in
    ok ∷ allowed_decisions window (if ok then (ip, now) ∷ grants else grants) calls

abbrev pub IsNewestFirst : Hits → Type 0
IsNewestFirst [] = Unit
IsNewestFirst (g ∷ gs) = All (λ e. e.1 ≤ g.1) gs × IsNewestFirst gs

-- The clock does not go back, from `now` on.
abbrev pub IsMonotone : ℕ → List (String × ℕ) → Type 0
IsMonotone now [] = Unit
IsMonotone now (c ∷ calls) = (now ≤ c.1) × IsMonotone c.1 calls

none_early :
    (window now t : ℕ) (ip : String) (gs : Hits)
    → All (λ e. e.1 ≤ t) gs
    → ltb now (t + window) ≡ false
    → any (λ g. str_eq g.0 ip && ltb now (g.1 + window)) gs ≡ false
none_early window now t ip [] h e = refl
none_early window now t ip (g ∷ gs) (h, hs) e = ground (arith, none_early window now t ip gs hs e)

allowed-lookup :
    (window now : ℕ) (ip : String) (gs : Hits)
    → IsNewestFirst gs
    → allowed window gs ip now ≡ not (is_early window (lookup ip gs) now)
unfolding allowed lookup
allowed-lookup window now ip [] h = refl
allowed-lookup window now ip ((j, t) ∷ gs) (h, hs) =
    ground (arith, allowed-lookup window now ip gs hs, none_early window now t ip gs h)

-- An entry of the history is in the map, or it was pruned and is too old to matter.
abbrev Agrees : ℕ → ℕ → Option ℕ → Option ℕ → Type 0
Agrees window now hit grant =
    (hit ≡ grant) ⊎ ((v : ℕ) × (hit ≡ none) × (grant ≡ some v) × (v + window * 10 < now))

record Simulates (window now : ℕ) (hits grants : Hits) : Type 0 where
  distinct : HasDistinctKeys hits
  newest : IsNewestFirst grants
  bounded : All (λ g. g.1 ≤ now) grants
  agrees : (ip : String) → Agrees window now (lookup ip hits) (lookup ip grants)

same_decision :
    (window t now : ℕ) (hit grant : Option ℕ)
    → Agrees window t hit grant
    → t ≤ now
    → is_early window hit now ≡ is_early window grant now
same_decision window t now hit grant (inl e) le = rw e
same_decision window t now hit grant (inr (v, missing, found, old)) le =
    rw (missing, found) (ground arith)

Agrees-later :
    (window t now : ℕ) (hit grant : Option ℕ)
    → t ≤ now
    → Agrees window t hit grant
    → Agrees window now hit grant
Agrees-later window t now hit grant le (inl e) = inl e
Agrees-later window t now hit grant le (inr (v, missing, found, old)) =
    inr (v, missing, found, omega arith)

Agrees-when :
    (window now : ℕ) (hit grant : Option ℕ)
    → Agrees window now hit grant
    → Agrees window now (when (is_recent window now) hit) grant
Agrees-when window now none grant a = a
Agrees-when window now (some v) grant (inl e) = elim (Bool-cases (ltb (v + window * 10) now)) [
  | inl old ↦ rw old (inr (v, refl, sym e, ltb→lt _ _ old))
  | inr recent ↦ rw recent (inl e)
]
Agrees-when window now (some v) grant (inr (u, missing, _, _)) = cc

Agrees-prune :
    (window now : ℕ) (hits : Hits) (ip : String) (grant : Option ℕ)
    → HasDistinctKeys hits
    → Agrees window now (lookup ip hits) grant
    → Agrees window now (lookup ip (prune window now hits)) grant
unfolding prune
Agrees-prune window now hits ip grant h a = elim (Bool-cases (ltb max_entries (length hits))) [
  | inl full ↦
      rw (full, lookup-keep_values (is_recent window now) ip hits h)
        (Agrees-when window now (lookup ip hits) grant a)
  | inr small ↦ rw small a
]

All-le : (t now : ℕ) (gs : Hits) → t ≤ now → All (λ g. g.1 ≤ t) gs → All (λ g. g.1 ≤ now) gs
All-le t now [] le h = tt
All-le t now (g ∷ gs) le (h, hs) = (omega arith, All-le t now gs le hs)

Simulates-later :
    (window t now : ℕ) (hits grants : Hits)
    → t ≤ now
    → Simulates window t hits grants
    → Simulates window now hits grants
Simulates-later window t now hits grants le s = record {
  distinct = s.distinct;
  newest = s.newest;
  bounded = All-le t now grants le s.bounded;
  agrees = λ ip. Agrees-later window t now _ _ le (s.agrees ip);
}

Simulates-grant :
    (window now : ℕ) (hits grants : Hits) (ip : String)
    → Simulates window now hits grants
    → Simulates window now (prune window now (insert ip now hits)) ((ip, now) ∷ grants)
unfolding lookup
Simulates-grant window now hits grants ip s =
    let distinct = insert-HasDistinctKeys ip now hits s.distinct in
    record {
      distinct = prune-HasDistinctKeys window now (insert ip now hits) distinct;
      newest = (s.bounded, s.newest);
      bounded = (le_refl now, s.bounded);
      agrees = λ j.
          Agrees-prune window now (insert ip now hits) j _ distinct
            (rw (lookup-insert ip j now hits) (inserted j (str_eq ip j)));
    }
  where
    inserted :
        (j : String) (same : Bool)
        → Agrees window now
            (if same then some now else lookup j hits)
            (if same then some now else lookup j grants)
    inserted j true = inl refl
    inserted j false = s.agrees j

decisions-Simulates :
    (window t : ℕ) (hits grants : Hits) (calls : List (String × ℕ))
    → Simulates window t hits grants
    → IsMonotone t calls
    → decisions window hits calls ≡ allowed_decisions window grants calls
unfolding decisions allowed_decisions take
decisions-Simulates window t hits grants [] s m = refl
decisions-Simulates window t hits grants ((ip, now) ∷ calls) s (le, m) =
    let s' = Simulates-later window t now hits grants le s in
    let same = same_decision window t now (lookup ip hits) (lookup ip grants) (s.agrees ip) le in
    let spec = allowed-lookup window now ip grants s.newest in
    elim (Bool-cases (is_early window (lookup ip grants) now)) [
      | inl early ↦
          rw (same, spec, early)
            (ap (λ ds. false ∷ ds) (decisions-Simulates window now hits grants calls s' m))
      | inr free ↦
          rw (same, spec, free)
            (ap (λ ds. true ∷ ds)
              (decisions-Simulates window now _ _ calls
                (Simulates-grant window now hits grants ip s') m))
    ]

-- From the empty map, on a clock that does not go back, the limiter lets a request through exactly
-- if no request of its address that it let through is less than a window old: the pruning of old
-- entries changes no decision.
pub decisions-eq-allowed_decisions :
    (window : ℕ) (calls : List (String × ℕ))
    → IsMonotone 0 calls
    → decisions window [] calls ≡ allowed_decisions window [] calls
decisions-eq-allowed_decisions window calls m =
    decisions-Simulates window 0 [] [] calls
      (record { distinct = tt; newest = tt; bounded = tt; agrees = λ ip. inl refl }) m
