-- ===== src/Tests/Searches.antt =====
-- The search of bytes and the lengths of DER at concrete inputs.
use crisp_qes.Common.{ℕ, ◌≡◌, List, [], ◌∷◌, ◌++◌, ok, arith}
use crisp_qes.Asn1.Length.{to_int32, read_der_length}
use crisp_qes.Asn1.Length.Decoding.{der_length, read_der_length-der_length}

abbrev der : List ℕ
der = 48 ∷ 6 ∷ 3 ∷ 6 ∷ 3 ∷ 85 ∷ []

abbrev oid : List ℕ
oid = 6 ∷ 3 ∷ 85 ∷ []

-- A length of two bytes behind a tag.
read_der_length-der_length_example :
    read_der_length (48 ∷ der_length 300 ++ 5 ∷ []) 1
    ≡ ok (record { header_len = 3; content_len = to_int32 300 })
read_der_length-der_length_example = read_der_length-der_length (48 ∷ []) (5 ∷ []) 300 (omega arith)
