-- ===== src/V3/Words.antt =====
-- packages/oprf/v3-grumpkin/service/proof-gate.mjs: the proofs and the public input words of a
-- request, and what is read from the words.
pub mod Canonical
use crisp_qes.Common.{
  ℕ, suc, ◌+◌, ◌/◌, ◌%◌, ◌^◌, Bool, List, [], ◌∷◌, ◌++◌, map, String, ◌==◌, ◌||◌, ◌&&◌, all,
  if◌then◌else◌, Result, ok, fail, ◌>>=◌, ◌>>◌, guard, length, drop, zero,
}
use crisp_qes.Common.Text.{Text, codes, starts_with, is_hex, hex_value}
use crisp_qes.Common.Text.Hex.{digit_code, byte_pairs}
use crisp_qes.Pedersen.{be_bytes}

-- A word as it comes from JSON, or as another module gives it.
pub data Word : Type 0 where
  text : Text → Word
  bigint : ℕ → Word
  other : Word

-- A proof as it comes from JSON.
pub data ProofField : Type 0 where
  text : Text → ProofField
  bytes : List ℕ → ProofField
  other : ProofField

-- `h.startsWith("0x") || h.startsWith("0X") ? h.slice(2) : h`
abbrev pub strip_prefix : Text → Text
strip_prefix h = if starts_with h (codes "0x") || starts_with h (codes "0X") then drop 2 h else h

-- The value `v` of a word.
unfoldable pub word_value : Word → Result String ℕ
word_value (Word.text h) = do
  guard (all is_hex (strip_prefix h)) "public input word not hex"
  ok (hex_value 0 (strip_prefix h))
word_value (Word.bigint v) = ok v
word_value Word.other = fail "public input word must be hex string or bigint"

-- The loop leaves what does not fit in 32 bytes in `v`.
unfoldable pub word_to_be32 : Word → Result String (List ℕ)
unfolding word_value
word_to_be32 word = do
  v ← word_value word
  guard (v / 256 ^ 32 == 0) "public input word exceeds 32 bytes"
  ok (be_bytes 32 v [])

-- `b.toString("hex")`
unfoldable pub bytes_hex : List ℕ → Text
bytes_hex [] = []
bytes_hex (b ∷ bs) = digit_code (b / 16) ∷ digit_code (b % 16) ∷ bytes_hex bs

unfoldable pub normalize_public_inputs : List Word → Result String (List Text)
normalize_public_inputs [] = ok []
normalize_public_inputs (w ∷ words) = do
  b ← word_to_be32 w
  rest ← normalize_public_inputs words
  ok ((codes "0x" ++ bytes_hex b) ∷ rest)

-- `Uint8Array.from` reduces each number modulo 256.
unfoldable pub proof_to_bytes : ProofField → Result String (List ℕ)
proof_to_bytes (ProofField.text t) = do
  guard (all is_hex (strip_prefix t) && (length (strip_prefix t) % 2 == 0)) "proof hex malformed"
  ok (byte_pairs (strip_prefix t))
proof_to_bytes (ProofField.bytes bs) = ok (map (λ b. b % 256) bs)
proof_to_bytes ProofField.other = fail "proof must be 0x-hex string or byte array"

-- `words[i]`; undefined is no word.
abbrev pub word_at : List Word → ℕ → Word
word_at [] i = Word.other
word_at (w ∷ words) zero = w
word_at (w ∷ words) (suc i) = word_at words i

-- `toBig(words[i])`
unfoldable pub to_big : List Word → ℕ → Result String ℕ
unfolding bytes_hex
to_big words i = do b ← word_to_be32 (word_at words i); ok (hex_value 0 (bytes_hex b))

pub record Affine : Type 0 where
  pub x : ℕ
  pub y : ℕ

unfoldable pub affine_at : List Word → ℕ → Result String Affine
unfolding to_big
affine_at words i = do x ← to_big words i; y ← to_big words (i + 1); ok (record { x = x; y = y })

abbrev pub m_x_word_index : ℕ
m_x_word_index = 8

abbrev pub c_r_word_index : ℕ
c_r_word_index = 10

abbrev pub digest_hi_word_index : ℕ
digest_hi_word_index = 11

abbrev pub digest_lo_word_index : ℕ
digest_lo_word_index = 12

abbrev pub public_input_word_count : ℕ
public_input_word_count = 13

abbrev pub exactly : ℕ → List Word → Result String (Unit {0})
exactly n words = guard (length words == n) "publicInputs must have exactly 13 words"

unfoldable pub extract_m_from_public_inputs : List Word → Result String Affine
extract_m_from_public_inputs words = do
  exactly public_input_word_count words
  affine_at words m_x_word_index

-- The message digest as two halves of 16 bytes.
pub record Digest : Type 0 where
  pub hi : ℕ
  pub lo : ℕ

unfoldable pub extract_digest_from_public_inputs : List Word → Result String Digest
extract_digest_from_public_inputs words = do
  exactly public_input_word_count words
  hi ← to_big words digest_hi_word_index
  lo ← to_big words digest_lo_word_index
  ok (record { hi = hi; lo = lo })

unfoldable pub extract_cr_from_enroll : List Word → Result String ℕ
extract_cr_from_enroll words = do exactly public_input_word_count words; to_big words c_r_word_index

-- What a threshold proof of a nullifier publishes.
pub record NullifierPublics : Type 0 where
  pub m : Affine
  pub kpub1 : Affine
  pub kpub2 : Affine
  pub kpub3 : Affine
  pub idx1 : ℕ
  pub idx2 : ℕ
  pub epoch : ℕ
  pub cr : ℕ
  pub nullifier : ℕ

unfoldable pub extract_threshold_nullifier_publics : List Word → Result String NullifierPublics
extract_threshold_nullifier_publics words = do
  exactly 13 words
  m ← affine_at words 0
  kpub1 ← affine_at words 2
  kpub2 ← affine_at words 4
  kpub3 ← affine_at words 6
  idx1 ← to_big words 8
  idx2 ← to_big words 9
  epoch ← to_big words 10
  cr ← to_big words 11
  nullifier ← to_big words 12
  ok (record {
    m = m;
    kpub1 = kpub1;
    kpub2 = kpub2;
    kpub3 = kpub3;
    idx1 = idx1;
    idx2 = idx2;
    epoch = epoch;
    cr = cr;
    nullifier = nullifier;
  })
