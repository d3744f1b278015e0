-- ===== src/Pedersen.antt =====
-- packages/lotl-flattener/src/ca/pedersen.ts: field elements as bytes, and the Pedersen wrapper.
-- `api.pedersenHash` of bb.js is the parameter `bb`.
pub mod RoundTrip
use crisp_qes.Common.{
  ℕ, zero, suc, ◌+◌, ◌*◌, ◌/◌, ◌%◌, ◌^◌, Bool, List, [], ◌∷◌, map, String, Result, ok, fail, ◌>>=◌,
  ltb, all, if◌then◌else◌,
}

-- The loop `for (i = n - 1; i >= 0; i--) { out[i] = x & 0xff; x >>= 8 }`, in front of `out`.
unfoldable pub be_bytes : ℕ → ℕ → List ℕ → List ℕ
be_bytes zero x out = out
be_bytes (suc n) x out = be_bytes n (x / 256) ((x % 256) ∷ out)

-- The loop `acc = (acc << 8) | b` over the bytes.
unfoldable pub be_value : ℕ → List ℕ → ℕ
be_value acc [] = acc
be_value acc (b ∷ bs) = be_value (acc * 256 + b) bs

abbrev pub fr_max : ℕ
fr_max = 2 ^ 254

unfoldable pub bigint_to_be32 : ℕ → Result String (List ℕ)
unfolding be_bytes
bigint_to_be32 v =
    if ltb v fr_max then ok (be_bytes 32 v []) else fail "pedersen: input exceeds Fr range"

unfoldable pub bytes_be_to_bigint : List ℕ → ℕ
unfolding be_value
bytes_be_to_bigint b = be_value 0 b

-- `inputs.map(bigintToBE32)`: the first value out of range throws.
unfoldable pub to_buffers : List ℕ → Result String (List (List ℕ))
unfolding bigint_to_be32
to_buffers [] = ok []
to_buffers (v ∷ vs) = do b ← bigint_to_be32 v; bs ← to_buffers vs; ok (b ∷ bs)

module _ (bb : List (List ℕ) → ℕ → List ℕ) where
  unfoldable pub pedersen_hash_fields : List ℕ → ℕ → Result String ℕ
  unfolding to_buffers bytes_be_to_bigint
  pedersen_hash_fields inputs hash_index = do
    buffers ← to_buffers inputs
    ok (bytes_be_to_bigint (bb buffers hash_index))
