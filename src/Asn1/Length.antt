-- ===== src/Asn1/Length.antt =====
-- packages/sdk/src/asn1.ts: the length octets of DER. The messages leave out the numbers they print.
pub mod Decoding
use crisp_qes.Common.{
  ℕ, zero, suc, ◌+◌, ◌-◌, ◌*◌, ◌%◌, ◌^◌, Option, none, some, List, String, ltb, leb, get_elem?,
  if◌then◌else◌, ◌==◌, ◌&&◌, Result, ok, fail, ◌>>=◌, guard, ◌>>◌,
}

pub data ℤ : Type 0 where
  pos : ℕ → ℤ
  -- `negsuc n` is `- (n + 1)`.
  negsuc : ℕ → ℤ

-- A word of 32 bits read as a signed number.
abbrev pub to_int32 : ℕ → ℤ
to_int32 w = if ltb w (2 ^ 31) then pos w else negsuc (2 ^ 32 - 1 - w)

pub record DerLength : Type 0 where
  pub header_len : ℕ
  pub content_len : ℤ

-- `der[i]`, where undefined throws.
abbrev pub byte_or : String → Option ℕ → Result String ℕ
byte_or e none = fail e
byte_or e (some byte) = ok byte

-- The loop `len = (len << 8) | byte` over `n` bytes from `i`, with the word of `len`.
unfoldable pub length_bytes : List ℕ → ℕ → ℕ → ℕ → Result String ℕ
length_bytes der zero i len = ok len
length_bytes der (suc n) i len = do
  byte ← byte_or "asn1: truncated length bytes" (get_elem? der i)
  length_bytes der n (suc i) ((len * 256 + byte) % 2 ^ 32)

-- The form of the first byte: one byte, or the number of bytes that follow.
unfoldable pub read_form : List ℕ → ℕ → ℕ → Result String DerLength
unfolding length_bytes
read_form der off b0 =
    if ltb b0 128
    then ok (record { header_len = 1; content_len = pos b0 })
    else (let n = b0 % 128 in
        do
          guard (leb 1 n && leb n 4) "asn1: unsupported DER length form"
          len ← length_bytes der n (off + 1) 0
          ok (record { header_len = 1 + n; content_len = to_int32 len }))

unfoldable pub read_der_length : List ℕ → ℕ → Result String DerLength
unfolding read_form
read_der_length der off = do
  b0 ← byte_or "asn1: out-of-bounds length read" (get_elem? der off)
  read_form der off b0
