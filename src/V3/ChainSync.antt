-- ===== src/V3/ChainSync.antt =====
-- packages/oprf/v3-grumpkin/service/chain-sync.mjs: the tree from the registry's events.
-- What the RPC node answers is the parameter `chain`; a call of it may throw.
pub mod Windows
use crisp_qes.Common.{
  ℕ, zero, suc, ◌+◌, ◌-◌, Bool, true, false, Option, none, some, List, [], ◌∷◌, String, ◌==◌, leb,
  ltb, if◌then◌else◌, Result, ok, fail, ◌>>=◌, ◌>>◌, guard, bytes_eq,
}
use crisp_qes.Common.Text.{Text, hex_to_bigint, lower}
use crisp_qes.Common.Text.Hex.{bigint_to_hex32}
use crisp_qes.V3.Merkle.{MerkleIndex, from_leaves}

-- A `CommitmentInserted` event.
pub record Inserted : Type 0 where
  pub leaf_index : ℕ
  pub commitment : Text

pub record Chain : Type 0 where
  pub enrollment_root : Result String Text
  pub leaf_count : Result String ℕ
  pub block_number : Result String ℕ
  pub get_logs : (from_block to_block : ℕ) → Result String (List Inserted)

abbrev pub window : ℕ
window = 9000

-- The map `byIndex`, the last entry of an index first.
unfoldable pub by_index : ℕ → List Inserted → Option Text
by_index i [] = none
by_index i (l ∷ logs) = if l.leaf_index == i then some l.commitment else by_index i logs

unfoldable pub set_all : List Inserted → List Inserted → List Inserted
set_all [] entries = entries
set_all (l ∷ logs) entries = set_all logs (l ∷ entries)

-- The loop over the windows of blocks, for at most `rounds` of them.
unfoldable pub scan : Chain → ℕ → (start latest : ℕ) → List Inserted → Result String (List Inserted)
scan chain zero start latest entries = ok entries
scan chain (suc rounds) start latest entries =
    if leb start latest
    then (do
      logs ← chain.get_logs start (if ltb latest (start + window) then latest else start + window)
      scan chain rounds (start + (window + 1)) latest (set_all logs entries))
    else ok entries

-- The leaf in front of the rest, if its commitment was found.
abbrev pub leaf_before : Option Text → Result String (List ℕ) → Result String (List ℕ)
leaf_before none rest = fail "chain-sync: missing CommitmentInserted"
leaf_before (some cmt) rest = do leaves ← rest; ok (hex_to_bigint cmt ∷ leaves)

-- The leaves from `i` on, `n` of them.
unfoldable pub leaves_from : List Inserted → ℕ → ℕ → Result String (List ℕ)
leaves_from entries zero i = ok []
leaves_from entries (suc n) i = leaf_before (by_index i entries) (leaves_from entries n (suc i))

pub record Synced : Type 0 where
  pub index : MerkleIndex
  pub leaves : List ℕ
  pub onchain_root : Text

-- A round moves the start past the window, so `latest + 1` rounds end the loop.
unfoldable pub sync_merkle_from_chain :
    (bb : List (List ℕ) → ℕ → List ℕ) → Chain → (from_block : ℕ) → Result String Synced
unfolding lower
sync_merkle_from_chain bb chain from_block = do
  onchain_root ← chain.enrollment_root
  n ← chain.leaf_count
  latest ← chain.block_number
  entries ← scan chain (latest + 1) from_block latest []
  leaves ← leaves_from entries n 0
  index ← from_leaves bb leaves
  rebuilt_root ← bigint_to_hex32 index.root
  guard (bytes_eq (lower rebuilt_root) (lower onchain_root))
      "chain-sync: rebuilt root != on-chain root"
  ok (record { index = index; leaves = leaves; onchain_root = onchain_root })
