-- ===== src/Asn1.antt =====
-- packages/sdk/src/asn1.ts: the comparison and the search of bytes; the lengths are in Length.
pub mod Search
pub mod Length
use crisp_qes.Common.{
  ℕ, zero, suc, ◌+◌, ◌-◌, Bool, true, false, ◌&&◌, Option, none, some, List, [], ◌∷◌, ltb, length,
  get_elem?, if◌then◌else◌, ◌==◌,
}

-- `a[i] === byte`, where an index out of range gives undefined.
abbrev pub is_byte : Option ℕ → ℕ → Bool
is_byte none byte = false
is_byte (some x) byte = x == byte

-- The loop `a[aOff + i] !== b[i]`, over the bytes `b`.
unfoldable pub same_from : List ℕ → ℕ → List ℕ → Bool
same_from a off [] = true
same_from a off (byte ∷ b) = is_byte (get_elem? a off) byte && same_from a (suc off) b

unfoldable pub bytes_eq_at : List ℕ → ℕ → List ℕ → Bool
unfolding same_from
bytes_eq_at a a_off b = if ltb (length a) (a_off + length b) then false else same_from a a_off b

-- The loop over `n` positions from `i`.
unfoldable pub search_from : List ℕ → List ℕ → ℕ → ℕ → Option ℕ
unfolding same_from
search_from hay needle zero i = none
search_from hay needle (suc n) i =
    let rest = search_from hay needle n (suc i) in if same_from hay i needle then some i else rest

-- The positions 0 to `hay.length - needle.length`; -1 is `none`.
unfoldable pub index_of : List ℕ → List ℕ → Option ℕ
unfolding search_from
index_of hay [] = some 0
index_of hay (byte ∷ needle) =
    search_from hay (byte ∷ needle) (suc (length hay) - length (byte ∷ needle)) 0
