-- ===== src/Common/Maps.antt =====
-- A JavaScript `Map` with text keys, as its entries in insertion order.
use Prim.Native.String.{String}
use mathlib.Core.Path.{◌≡◌, refl}
use mathlib.Core.Bool.{Bool}
use mathlib.Core.Option.{Option, none, some}
use mathlib.Core.List.{List, [], ◌∷◌}
use native.Mathlib.Omega.{arith}
use text.Mathlib.TextEquality.{eq_iff}
use crisp_qes.Common.Tests.{str_eq, if◌then◌else◌}

module _ {ℓ} {V : Type ℓ} where
  unfoldable pub lookup : String → List (String × V) → Option V
  lookup wanted [] = none
  lookup wanted ((key, value) ∷ entries) =
      if str_eq key wanted then some value else lookup wanted entries

  unfoldable pub insert : String → V → List (String × V) → List (String × V)
  insert wanted value [] = (wanted, value) ∷ []
  insert wanted value ((key, old) ∷ entries) =
      if str_eq key wanted
      then (wanted, value) ∷ entries
      else (key, old) ∷ insert wanted value entries

  -- `for (const [k, v] of m) if (!p(v)) m.delete(k)`
  unfoldable pub keep_values : (V → Bool) → List (String × V) → List (String × V)
  keep_values p [] = []
  keep_values p ((key, old) ∷ entries) =
      let rest = keep_values p entries in if p old then (key, old) ∷ rest else rest

  abbrev pub HasDistinctKeys : List (String × V) → Type ℓ
  HasDistinctKeys [] = Unit
  HasDistinctKeys ((wanted, value) ∷ entries) =
      (lookup wanted entries ≡ none) × HasDistinctKeys entries

  abbrev pub when : (V → Bool) → Option V → Option V
  when p none = none
  when p (some value) = if p value then some value else none

  pub lookup-insert :
      (wanted key : String) (value : V) (entries : List (String × V))
      → lookup key (insert wanted value entries)
        ≡ (if str_eq wanted key then some value else lookup key entries)
  unfolding lookup insert
  lookup-insert wanted key value [] = refl
  lookup-insert wanted key value ((first, old) ∷ entries) = ground (
    arith,
    eq_iff wanted key,
    eq_iff first wanted,
    eq_iff first key,
    lookup-insert wanted key value entries,
  )

  pub insert-HasDistinctKeys :
      (wanted : String) (value : V) (entries : List (String × V))
      → HasDistinctKeys entries
      → HasDistinctKeys (insert wanted value entries)
  unfolding insert lookup
  insert-HasDistinctKeys wanted value [] h = (refl, tt)
  insert-HasDistinctKeys wanted value ((first, old) ∷ entries) (h, hs) = ground (
    arith,
    eq_iff first wanted,
    eq_iff wanted first,
    lookup-insert wanted first value entries,
    insert-HasDistinctKeys wanted value entries hs,
  )

  lookup-keep_values-none :
      (p : V → Bool) (wanted : String) (entries : List (String × V))
      → lookup wanted entries ≡ none
      → lookup wanted (keep_values p entries) ≡ none
  unfolding lookup keep_values
  lookup-keep_values-none p wanted [] h = refl
  lookup-keep_values-none p wanted ((key, old) ∷ entries) h =
      ground (arith, lookup-keep_values-none p wanted entries)

  pub lookup-keep_values :
      (p : V → Bool) (wanted : String) (entries : List (String × V))
      → HasDistinctKeys entries
      → lookup wanted (keep_values p entries) ≡ when p (lookup wanted entries)
  unfolding lookup keep_values
  lookup-keep_values p wanted [] h = refl
  lookup-keep_values p wanted ((key, old) ∷ entries) (h, hs) = ground (
    arith,
    eq_iff key wanted,
    lookup-keep_values p wanted entries hs,
    lookup-keep_values-none p key entries h,
  )

  pub keep_values-HasDistinctKeys :
      (p : V → Bool) (entries : List (String × V))
      → HasDistinctKeys entries
      → HasDistinctKeys (keep_values p entries)
  unfolding keep_values
  keep_values-HasDistinctKeys p [] h = tt
  keep_values-HasDistinctKeys p ((key, old) ∷ entries) (h, hs) =
      ground
        (arith, lookup-keep_values-none p key entries h, keep_values-HasDistinctKeys p entries hs)
