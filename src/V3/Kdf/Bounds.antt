-- ===== src/V3/Kdf/Bounds.antt =====
-- A derived scalar is the first draw that is a scalar other than 0.
use crisp_qes.Common.{
  ℕ, zero, suc, ◌+◌, ◌<◌, ◌≤◌, ◌≡◌, refl, subst, sym, true, false, Bool-cases, ◌⊎◌, inl, inr, List,
  String, Result, ok, fail, arith, ◌==◌, ==_iff,
}
use crisp_qes.V3.Kdf.{draw, accepted, sample, kdf_scalar, Seed, seed_to_bytes, seeded_rand}

module _ (sha256 : List ℕ → List ℕ) (order : ℕ) where
  -- A draw that the sampling rejects.
  abbrev pub IsRejected : List ℕ → (counter sub : ℕ) → Type 0
  IsRejected seed_bytes counter sub =
      (draw sha256 order seed_bytes counter sub ≡ 0)
      ⊎ (order ≤ draw sha256 order seed_bytes counter sub)

  -- What the rounds from `sub` on give.
  abbrev FirstFrom : (rounds : ℕ) → List ℕ → (counter sub : ℕ) → Result String ℕ → Type 0
  FirstFrom rounds seed_bytes counter sub (ok v) =
      (0 < v)
      × (v < order)
      × (k : ℕ) × (sub ≤ k)
      × (k < sub + rounds)
      × (draw sha256 order seed_bytes counter k ≡ v)
      × ((j : ℕ) → sub ≤ j → j < k → IsRejected seed_bytes counter j)
  FirstFrom rounds seed_bytes counter sub (fail e) =
      (j : ℕ) → sub ≤ j → j < sub + rounds → IsRejected seed_bytes counter j

  accepted_iff : (v : ℕ) → accepted sha256 order v ≡ true → (0 < v) × (v < order)
  accepted_iff v h = ground (arith, h)

  rejected : (v : ℕ) → accepted sha256 order v ≡ false → (v ≡ 0) ⊎ (order ≤ v)
  rejected v h = ground (arith, h)

  earlier :
      (rounds : ℕ) (seed_bytes : List ℕ) (counter sub : ℕ) (r : Result String ℕ)
      → IsRejected seed_bytes counter sub
      → FirstFrom rounds seed_bytes counter (suc sub) r
      → FirstFrom (suc rounds) seed_bytes counter sub r
  earlier rounds seed_bytes counter sub (ok v) bad (pos, lt, k, le, below, drawn, others) = (
    pos,
    lt,
    k,
    omega (arith, le),
    omega (arith, below),
    drawn,
    λ j j_le j_lt. elim (Bool-cases (j == sub)) [
      | inl same ↦ subst (IsRejected seed_bytes counter) (sym ((==_iff j sub).0 same)) bad
      | inr after ↦ others j (ground arith) j_lt
    ],
  )
  earlier rounds seed_bytes counter sub (fail e) bad others = λ j j_le j_lt.
      elim (Bool-cases (j == sub)) [
        | inl same ↦ subst (IsRejected seed_bytes counter) (sym ((==_iff j sub).0 same)) bad
        | inr after ↦ others j (ground arith) (omega (arith, j_lt))
      ]

  sample-FirstFrom :
      (rounds : ℕ) (seed_bytes : List ℕ) (counter sub : ℕ)
      → FirstFrom rounds seed_bytes counter sub (sample sha256 order rounds seed_bytes counter sub)
  unfolding sample
  sample-FirstFrom zero seed_bytes counter sub = λ j le lt. absurd (omega (arith, le, lt))
  sample-FirstFrom (suc rounds) seed_bytes counter sub =
      let v = draw sha256 order seed_bytes counter sub in
      elim (Bool-cases (accepted sha256 order v)) [
        | inl good ↦
            let (pos, lt) = accepted_iff v good in
            rw good (
              pos,
              lt,
              sub,
              omega arith,
              omega arith,
              refl,
              λ j le below. absurd (omega (arith, le, below)),
            )
        | inr bad ↦ rw bad (
            earlier rounds seed_bytes counter sub
              (sample sha256 order rounds seed_bytes counter (suc sub)) (rejected v bad)
              (sample-FirstFrom rounds seed_bytes counter (suc sub)))
      ]

  -- What a derivation gives.
  abbrev pub IsFirstDraw : List ℕ → (counter : ℕ) → Result String ℕ → Type 0
  IsFirstDraw seed_bytes counter (ok v) =
      (0 < v)
      × (v < order)
      × (k : ℕ) × (k < 256)
      × (draw sha256 order seed_bytes counter k ≡ v)
      × ((j : ℕ) → j < k → IsRejected seed_bytes counter j)
  IsFirstDraw seed_bytes counter (fail e) = (j : ℕ) → j < 256 → IsRejected seed_bytes counter j

  IsFirstDraw-of :
      (seed_bytes : List ℕ) (counter : ℕ) (r : Result String ℕ)
      → FirstFrom 256 seed_bytes counter 0 r
      → IsFirstDraw seed_bytes counter r
  IsFirstDraw-of seed_bytes counter (ok v) (pos, lt, k, le, below, drawn, others) =
      (pos, lt, k, omega (arith, below), drawn, λ j j_lt. others j (omega arith) j_lt)
  IsFirstDraw-of seed_bytes counter (fail e) all =
      λ j j_lt. all j (omega arith) (omega (arith, j_lt))

  -- A derived scalar is at least 1 and below the order, and it is the first of the 256 draws of its
  -- counter that is in those bounds; a derivation throws only if none of the 256 is.
  pub seeded_rand-IsFirstDraw :
      (seed : Seed) (counter : ℕ)
      → IsFirstDraw (seed_to_bytes seed) counter (seeded_rand sha256 order seed counter)
  unfolding seeded_rand kdf_scalar
  seeded_rand-IsFirstDraw seed counter =
      IsFirstDraw-of (seed_to_bytes seed) counter _
        (sample-FirstFrom 256 (seed_to_bytes seed) counter 0)
