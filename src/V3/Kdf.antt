-- ===== src/V3/Kdf.antt =====
-- packages/oprf/v3-grumpkin/threshold/threshold-oprf.mjs: the scalars that are derived from a seed.
-- SHA-256 is a parameter, and so is the order of the group.
pub mod Bounds
use crisp_qes.Common.{
  ℕ, zero, suc, ◌+◌, ◌/◌, ◌%◌, ◌^◌, Bool, not, ◌&&◌, List, [], ◌∷◌, ◌++◌, String, Result, ok, fail,
  ltb, ◌==◌, if◌then◌else◌,
}
use crisp_qes.Common.Text.{codes}
use crisp_qes.Pedersen.{be_bytes, be_value}

-- A seed is bytes or a number, of which the lowest 256 bits count.
pub data Seed : Type 0 where
  bytes : List ℕ → Seed
  bigint : ℕ → Seed

unfoldable pub seed_to_bytes : Seed → List ℕ
seed_to_bytes (Seed.bytes bs) = bs
seed_to_bytes (Seed.bigint v) = be_bytes 32 v []

abbrev pub kdf_domain : List ℕ
kdf_domain = codes "crisp-qes-v3-threshold-kdf"

unfoldable pub be4 : ℕ → List ℕ
be4 n = (n / 2 ^ 24 % 256) ∷ (n / 2 ^ 16 % 256) ∷ (n / 2 ^ 8 % 256) ∷ (n % 256) ∷ []

module _ (sha256 : List ℕ → List ℕ) (order : ℕ) where
  -- The number of a round.
  unfoldable pub draw : List ℕ → (counter sub : ℕ) → ℕ
  draw seed_bytes counter sub =
      be_value 0 (sha256 (seed_bytes ++ (kdf_domain ++ (be4 counter ++ be4 sub))))

  -- `v < N && v !== 0n`
  abbrev pub accepted : ℕ → Bool
  accepted v = ltb v order && not (v == 0)

  -- The rounds that are left.
  unfoldable pub sample : (rounds : ℕ) → List ℕ → (counter sub : ℕ) → Result String ℕ
  sample zero seed_bytes counter sub = fail "kdfScalar: rejection sampling exhausted (unreachable)"
  sample (suc rounds) seed_bytes counter sub =
      let rest = sample rounds seed_bytes counter (suc sub) in
      let v = draw seed_bytes counter sub in if accepted v then ok v else rest

  unfoldable pub kdf_scalar : List ℕ → (counter : ℕ) → Result String ℕ
  unfolding sample
  kdf_scalar seed_bytes counter = sample 256 seed_bytes counter 0

  -- The call with the number `counter` of the source that a seed makes.
  unfoldable pub seeded_rand : Seed → (counter : ℕ) → Result String ℕ
  unfolding kdf_scalar
  seeded_rand seed counter = kdf_scalar (seed_to_bytes seed) counter
