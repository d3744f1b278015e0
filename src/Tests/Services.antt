-- ===== src/Tests/Services.antt =====
-- The threshold service at concrete inputs: a hash whose zero subtrees end at the genesis root, and a
-- tree over two leaves.
use crisp_qes.Common.{
  ℕ, ◌+◌, ◌<◌, ◌≤◌, ◌≡◌, refl, Bool, true, ◌&&◌, leb, if◌then◌else◌, Option, some, List, [], ◌∷◌,
  ◌++◌, String, ok, fail, replicate, arith, bytes_eq, Bool-cases, inl, inr, append-nil,
}
use crisp_qes.Common.Text.{Text, codes}
use crisp_qes.Pedersen.{be_bytes, be_value, bytes_be_to_bigint}
use crisp_qes.Tree.Total.{IsField}
use crisp_qes.V3.Words.{Word, ProofField, Affine}
use crisp_qes.V3.Merkle.{MerkleIndex, genesis_root}
use crisp_qes.V3.ChainSync.{Chain, Inserted}
use crisp_qes.V3.ChainSync.Windows.{IsNode}
use crisp_qes.V3.Server.{Json, RegisterRequest, RegisterBody, State, Config, Services}
use crisp_qes.Tests.Samples.{sample_hash, sample_hash-IsField}
use crisp_qes.Tests.Proofs.{gate}

abbrev pub same_halves : List (List ℕ) → Bool
same_halves (l ∷ r ∷ []) = bytes_eq l r
same_halves _ = true

abbrev pub genesis_hash : List (List ℕ) → ℕ → List ℕ
genesis_hash buffers i =
    if same_halves buffers then be_bytes 32 genesis_root [] else sample_hash buffers i

pub genesis_hash-IsField :
    (buffers : List (List ℕ)) (i : ℕ) → IsField (bytes_be_to_bigint (genesis_hash buffers i))
unfolding bytes_be_to_bigint be_value be_bytes
genesis_hash-IsField buffers i = elim (Bool-cases (same_halves buffers)) [
  | inl same ↦ rw same (omega arith)
  | inr apart ↦ rw apart (sample_hash-IsField buffers i)
]

abbrev pub point : ℕ → ℕ → Affine
point x y = record { x = x; y = y }

abbrev pub config : Option ℕ → Config
config from_block = record {
  enroll_epoch = codes "v3-2026";
  threshold_epoch = 20;
  published_kpub_set = point 12 13 ∷ point 14 15 ∷ point 16 17 ∷ [];
  from_block = from_block;
}

abbrev pub services : Services
services = record {
  bb = genesis_hash;
  sha256 = λ bytes. replicate 32 0;
  gate = some gate;
  nullifier_gate = some gate;
  from_affine = λ a. ok a;
  evaluate = λ m epoch. ok (m ∷ []);
}

abbrev pub hex_word : String → Word
hex_word s = Word.text (codes s)

abbrev pub enroll_words : List Word
enroll_words =
    hex_word "0x00"
    ∷ hex_word "0x00"
    ∷ hex_word "0x00"
    ∷ hex_word "0x00"
    ∷ hex_word "0x00"
    ∷ hex_word "0x00"
    ∷ hex_word "0x00"
    ∷ hex_word "0x00"
    ∷ hex_word "0x01"
    ∷ hex_word "0x02"
    ∷ hex_word "0x15"
    ∷ hex_word "0x00"
    ∷ hex_word "0x00"
    ∷ []

abbrev pub nullifier_words : List Word
nullifier_words =
    hex_word "0x01"
    ∷ hex_word "0x02"
    ∷ hex_word "0x0c"
    ∷ hex_word "0x0d"
    ∷ hex_word "0x0e"
    ∷ hex_word "0x0f"
    ∷ hex_word "0x10"
    ∷ hex_word "0x11"
    ∷ hex_word "0x01"
    ∷ hex_word "0x02"
    ∷ hex_word "0x14"
    ∷ hex_word "0x15"
    ∷ hex_word "0x16"
    ∷ []

abbrev pub commitment : Text
commitment = codes "0x" ++ (replicate 62 b'0' ++ codes "16")

abbrev pub body : RegisterBody
body = record {
  commitment = commitment;
  enroll_proof = ProofField.bytes (9 ∷ []);
  enroll_public_inputs = enroll_words;
  nullifier_proof = ProofField.bytes (9 ∷ []);
  nullifier_public_inputs = nullifier_words;
}

abbrev pub request : RegisterRequest
request = record {
  commitment = Json.text commitment;
  enroll_proof = Json.array (9 ∷ []) [];
  enroll_public_inputs = Json.array [] enroll_words;
  nullifier_proof = Json.array (9 ∷ []) [];
  nullifier_public_inputs = Json.array [] nullifier_words;
}

abbrev pub two_events : List Inserted
two_events =
    record { leaf_index = 0; commitment = codes "0x05" }
    ∷ record { leaf_index = 1; commitment = codes "0x07" }
    ∷ []

-- Both events are of the block 3.
abbrev pub events : ℕ → ℕ → List Inserted
events a b = if leb a 3 && leb 3 b then two_events else []

abbrev pub root_text : Text
root_text = codes "0x" ++ (replicate 62 b'0' ++ codes "4D")

-- A node that refuses ranges of more than 9001 blocks.
abbrev pub chain : Chain
chain = record {
  enrollment_root = ok root_text;
  leaf_count = ok 2;
  block_number = ok 12000;
  get_logs =
      λ a b. if leb b (a + 9000) then ok (events a b) else fail "query exceeds max block range";
}

in_range-split :
    (xs : List Inserted) (a b c : ℕ)
    → a ≤ b
    → b < c
    → (if leb a 3 && leb 3 c then xs else [])
      ≡ (if leb a 3 && leb 3 b then xs else []) ++ (if leb (b + 1) 3 && leb 3 c then xs else [])
in_range-split xs a b c le lt = ground (arith, append-nil xs)

events-split : (a b c : ℕ) → a ≤ b → b < c → events a c ≡ events a b ++ events (b + 1) c
events-split a b c le lt = in_range-split two_events a b c le lt

pub chain-IsNode : IsNode chain events
chain-IsNode = record { answers = answers; splits = events-split }
  where
    answers : (a b : ℕ) → b ≤ a + 9000 → chain.get_logs a b ≡ ok (events a b)
    answers a b le = let short : leb b (a + 9000) ≡ true = ground (arith, le) in rw short refl

abbrev pub tree : MerkleIndex
tree = record { leaves = 5 ∷ 7 ∷ []; zeros = 0 ∷ replicate 20 genesis_root; root = 77 }

abbrev pub hex_key : String → Text
hex_key s = codes "0x" ++ (replicate 62 b'0' ++ codes s)

abbrev pub start : State
start = record { merkle = tree; leaf_index_of = (hex_key "07", 1) ∷ (hex_key "05", 0) ∷ [] }
