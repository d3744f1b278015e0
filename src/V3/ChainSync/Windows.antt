-- ===== src/V3/ChainSync/Windows.antt =====
-- The windows of blocks that are asked for cover the blocks up to the latest, and what is rebuilt is
-- what their events name.
use crisp_qes.Common.{
  ℕ, zero, suc, ◌+◌, ◌<◌, ◌≤◌, ◌≡◌, refl, sym, ap, ap₂, ◌∙◌, true, false, Bool-cases, inl, inr,
  some, List, [], ◌∷◌, ◌++◌, ok, guard-inv, >>=-eq-ok, ok-injective, length, get_elem?, arith, leb,
  ltb, Option-cases, bytes_eq, ltb→lt, ◌==◌, ==_iff,
}
use crisp_qes.Common.Text.{Text, hex_to_bigint, lower}
use crisp_qes.Common.Text.Hex.{bigint_to_hex32}
use crisp_qes.V3.Merkle.{MerkleIndex, from_leaves}
use crisp_qes.V3.ChainSync.{
  Inserted, Chain, window, by_index, set_all, scan, leaves_from, Synced, sync_merkle_from_chain,
}

-- The node answers a range of at most 9001 blocks with the events of those blocks, in order; what it
-- does with a longer one, which nodes refuse, is open.
pub record IsNode (chain : Chain) (events : (from_block to_block : ℕ) → List Inserted)
    : Type 0 where
  pub answers : (a b : ℕ) → b ≤ a + 9000 → chain.get_logs a b ≡ ok (events a b)
  pub splits : (a b c : ℕ) → a ≤ b → b < c → events a c ≡ events a b ++ events (b + 1) c

set_all-append :
    (xs ys entries : List Inserted) → set_all (xs ++ ys) entries ≡ set_all ys (set_all xs entries)
unfolding set_all
set_all-append [] ys entries = refl
set_all-append (x ∷ xs) ys entries = set_all-append xs ys (x ∷ entries)

module _ (chain : Chain) (events : (from_block to_block : ℕ) → List Inserted)
    (node : IsNode chain events) where
  scan_past :
      (rounds start latest : ℕ) (entries : List Inserted)
      → latest < start
      → scan chain rounds start latest entries ≡ ok entries
  unfolding scan
  scan_past zero start latest entries lt = refl
  scan_past (suc rounds) start latest entries lt =
      let past : leb start latest ≡ false = ground (arith, lt) in rw past refl

  -- After a window that ends before the latest block, or with it.
  later :
      (rounds start latest : ℕ) (entries : List Inserted)
      → start ≤ latest
      → start + window ≤ latest
      → latest < start + suc rounds
      → ((seen : List Inserted)
          → start + (window + 1) ≤ latest
          → latest < start + (window + 1) + rounds
          → scan chain rounds (start + (window + 1)) latest seen
            ≡ ok (set_all (events (start + (window + 1)) latest) seen))
      → scan chain rounds
          (start + (window + 1))
          latest
          (set_all (events start (start + window)) entries)
        ≡ ok (set_all (events start latest) entries)
  later rounds start latest entries le end lt next = elim (Bool-cases (start + window == latest)) [
    | inl exact ↦
        let e : start + window ≡ latest = (==_iff (start + window) latest).0 exact in
        scan_past rounds (start + (window + 1)) latest
          (set_all (events start (start + window)) entries) (omega (arith, e))
        ∙ ap (λ n. ok (set_all (events start n) entries)) e
    | inr before ↦
        let below : start + window < latest = ground (arith, end, before) in
        let same : start + window + 1 ≡ start + (window + 1) = omega arith in
        next (set_all (events start (start + window)) entries) (omega (arith, below))
          (omega (arith, lt))
        ∙ ap ok (
            sym (
              ap (λ es. set_all es entries)
                (node.splits start (start + window) latest (omega arith) below)
              ∙ set_all-append (events start (start + window)) (events (start + window + 1) latest)
                  entries
              ∙ ap
                  (λ n. set_all (events n latest) (set_all (events start (start + window)) entries))
                  same))
  ]

  -- Enough rounds read the events of every block from the start to the latest.
  scan-set_all :
      (rounds start latest : ℕ) (entries : List Inserted)
      → start ≤ latest
      → latest < start + rounds
      → scan chain rounds start latest entries ≡ ok (set_all (events start latest) entries)
  unfolding scan
  scan-set_all zero start latest entries le lt = absurd (omega (arith, le, lt))
  scan-set_all (suc rounds) start latest entries le lt =
      let inside : leb start latest ≡ true = ground (arith, le) in
      elim (Bool-cases (ltb latest (start + window))) [
        | inl last ↦
            rw
              (
                inside,
                last,
                node.answers start latest (omega (arith, ltb→lt latest (start + window) last)),
              )
              (scan_past rounds (start + (window + 1)) latest
                (set_all (events start latest) entries)
                (omega (arith, ltb→lt latest (start + window) last)))
        | inr more ↦
            rw (inside, more, node.answers start (start + window) (omega arith))
              (later rounds start latest entries le (ground arith) lt
                (scan-set_all rounds (start + (window + 1)) latest))
      ]

leaves_from_inv :
    (entries : List Inserted) (n i : ℕ) (leaves : List ℕ)
    → leaves_from entries n i ≡ ok leaves
    → (length leaves ≡ n)
      × ((k : ℕ)
          → k < n
          → (cmt : Text) × (by_index (i + k) entries ≡ some cmt)
            × (get_elem? leaves k ≡ some (hex_to_bigint cmt)))
unfolding leaves_from
leaves_from_inv entries zero i leaves h =
    let e : [] ≡ leaves = ok-injective h in rw (← e) (refl, λ k lt. absurd (omega (arith, lt)))
leaves_from_inv entries (suc n) i leaves h = elim (Option-cases (by_index i entries)) [
  | inl missing ↦ (let clash = rw missing at h in cc)
  | inr (cmt, found) ↦
      let (rest, later, same) = >>=-eq-ok (leaves_from entries n (suc i)) _ (rw found at h) in
      let (size, each) = leaves_from_inv entries n (suc i) rest later in
      let e : hex_to_bigint cmt ∷ rest ≡ leaves = ok-injective same in
      rw (← e) (ap suc size, at cmt rest found each)
]
  where
    at :
        (cmt : Text) (rest : List ℕ)
        → by_index i entries ≡ some cmt
        → ((k : ℕ)
            → k < n
            → (c : Text) × (by_index (suc i + k) entries ≡ some c)
              × (get_elem? rest k ≡ some (hex_to_bigint c)))
        → (k : ℕ) → k < suc n
        → (c : Text) × (by_index (i + k) entries ≡ some c)
          × (get_elem? (hex_to_bigint cmt ∷ rest) k ≡ some (hex_to_bigint c))
    at cmt rest found each zero lt = let e : i + 0 ≡ i = omega arith in (cmt, rw e found, refl)
    at cmt rest found each (suc k) lt =
        let (c, there, leaf) = each k (omega (arith, lt)) in
        let e : i + suc k ≡ suc i + k = omega arith in (c, rw e there, leaf)

-- With a node that answers ranges of up to 9001 blocks and may refuse longer ones, a synchronisation
-- that starts at or before the latest block has as many leaves as the registry
-- counts. Each is the commitment that an event of those blocks names last for its position, and the
-- root of the tree over them is, but for the case of letters, the text of the registry's root.
pub sync_merkle_from_chain_events :
    (bb : List (List ℕ) → ℕ → List ℕ) (chain : Chain) (events : ℕ → ℕ → List Inserted)
    (from_block n latest : ℕ) (live : Text) (s : Synced)
    → IsNode chain events
    → chain.enrollment_root ≡ ok live
    → chain.leaf_count ≡ ok n
    → chain.block_number ≡ ok latest
    → from_block ≤ latest
    → sync_merkle_from_chain bb chain from_block ≡ ok s
    → (length s.leaves ≡ n)
      × ((i : ℕ)
          → i < n
          → (cmt : Text) × (by_index i (set_all (events from_block latest) []) ≡ some cmt)
            × (get_elem? s.leaves i ≡ some (hex_to_bigint cmt)))
      × (from_leaves bb s.leaves ≡ ok s.index)
      × (t : Text) × (bigint_to_hex32 s.index.root ≡ ok t)
      × (bytes_eq (lower t) (lower live) ≡ true)
unfolding sync_merkle_from_chain
sync_merkle_from_chain_events bb chain events from_block n latest live s node read count block le
      h =
    let (live', read', h₁) = >>=-eq-ok chain.enrollment_root _ h in
    let (n', count', h₂) = >>=-eq-ok chain.leaf_count _ h₁ in
    let (latest', block', h₃) = >>=-eq-ok chain.block_number _ h₂ in
    let (entries, scanned, h₄) = >>=-eq-ok (scan chain (latest' + 1) from_block latest' []) _ h₃ in
    let (leaves, found, h₅) = >>=-eq-ok (leaves_from entries n' 0) _ h₄ in
    let (index, made, h₆) = >>=-eq-ok (from_leaves bb leaves) _ h₅ in
    let (root, spelled, h₇) = >>=-eq-ok (bigint_to_hex32 index.root) _ h₆ in
    let (agree, same) = guard-inv (bytes_eq (lower root) (lower live')) _ _ h₇ in
    let is_live : live' ≡ live = ok-injective (sym read' ∙ read) in
    let is_n : n' ≡ n = ok-injective (sym count' ∙ count) in
    let is_latest : latest' ≡ latest = ok-injective (sym block' ∙ block) in
    let all : set_all (events from_block latest') [] ≡ entries = ok-injective (
      sym (
        scan-set_all chain events node (latest' + 1) from_block latest' []
          (omega (arith, is_latest, le)) (omega arith))
      ∙ scanned) in
    let all' : entries ≡ set_all (events from_block latest) [] =
      sym all ∙ ap (λ k. set_all (events from_block k) []) is_latest in
    let e : record { index = index; leaves = leaves; onchain_root = live' } ≡ s =
      ok-injective same in
    let is_leaves : leaves ≡ s.leaves = ap (λ (x : Synced). x.leaves) e in
    let is_index : index ≡ s.index = ap (λ (x : Synced). x.index) e in
    let (size, each) = leaves_from_inv entries n' 0 leaves found in
    (
      ap length (sym is_leaves) ∙ size ∙ is_n,
      λ i lt.
          let (cmt, there, leaf) = each i (omega (arith, is_n, lt)) in
          let start : 0 + i ≡ i = omega arith in
          (
            cmt,
            ap₂ by_index (sym start) (sym all') ∙ there,
            ap (λ ls. get_elem? ls i) (sym is_leaves) ∙ leaf,
          ),
      ap (from_leaves bb) (sym is_leaves) ∙ made ∙ ap ok is_index,
      root,
      ap (λ (x : MerkleIndex). bigint_to_hex32 x.root) (sym is_index) ∙ spelled,
      ap (λ t. bytes_eq (lower root) (lower t)) (sym is_live) ∙ agree,
    )
