-- ===== src/Asn1/Length/Decoding.antt =====
-- The lengths of DER are read back.
use crisp_qes.Common.{
  ℕ, zero, suc, ◌+◌, ◌/◌, ◌%◌, ◌^◌, ◌<◌, ◌≡◌, refl, ap, ◌∙◌, List, [], ◌∷◌, ◌++◌, length, get_elem?,
  ltb, if◌then◌else◌, Result, ok, fail, ◌>>=◌, arith, lt→ltb, Bool-cases, inl, inr, String,
}
use crisp_qes.Asn1.Length.{to_int32, DerLength, byte_or, length_bytes, read_form, read_der_length}

-- The minimal length octets of DER, up to four bytes of content.
abbrev pub der_length : ℕ → List ℕ
der_length n =
    if ltb n 128
    then n ∷ []
    else if ltb n (2 ^ 8)
    then 129 ∷ n ∷ []
    else if ltb n (2 ^ 16)
    then 130 ∷ n / 2 ^ 8 ∷ n % 2 ^ 8 ∷ []
    else if ltb n (2 ^ 24)
    then 131 ∷ n / 2 ^ 16 ∷ (n / 2 ^ 8) % 2 ^ 8 ∷ n % 2 ^ 8 ∷ []
    else 132 ∷ n / 2 ^ 24 ∷ (n / 2 ^ 16) % 2 ^ 8 ∷ (n / 2 ^ 8) % 2 ^ 8 ∷ n % 2 ^ 8 ∷ []

get_elem?-append :
    (xs ys : List ℕ) (i j : ℕ) → j ≡ length xs + i → get_elem? (xs ++ ys) j ≡ get_elem? ys i
get_elem?-append [] ys i j e = rw e (ap (get_elem? ys) {x = 0 + i} {y = i} (omega arith))
get_elem?-append (x ∷ xs) ys i zero e = absurd (omega (arith, e))
get_elem?-append (x ∷ xs) ys i (suc j) e = get_elem?-append xs ys i j (omega (arith, e))

bind-agrees :
    {A B : Type 0} (m : Result String A) (f g : A → Result String B)
    → ((a : A) → f a ≡ g a)
    → (m >>= f) ≡ (m >>= g)
bind-agrees (ok a) f g h = h a
bind-agrees (fail e) f g h = refl

length_bytes-append :
    (xs ys : List ℕ) (n i j len : ℕ)
    → j ≡ length xs + i
    → length_bytes (xs ++ ys) n j len ≡ length_bytes ys n i len
unfolding length_bytes
length_bytes-append xs ys zero i j len e = refl
length_bytes-append xs ys (suc n) i j len e = rw (get_elem?-append xs ys i j e) (
    bind-agrees (byte_or "asn1: truncated length bytes" (get_elem? ys i)) _ _
      λ byte. length_bytes-append xs ys n (suc i) (suc j) _ (omega (arith, e)))

read_form-append :
    (xs ys : List ℕ) (b0 : ℕ) → read_form (xs ++ ys) (length xs) b0 ≡ read_form ys 0 b0
unfolding read_form
read_form-append xs ys b0 = rw (length_bytes-append xs ys (b0 % 128) 1 (length xs + 1) 0 refl) refl

read_der_length-append :
    (xs ys : List ℕ) → read_der_length (xs ++ ys) (length xs) ≡ read_der_length ys 0
unfolding read_der_length
read_der_length-append xs ys = rw (get_elem?-append xs ys 0 (length xs) (omega arith)) (
    bind-agrees (byte_or "asn1: out-of-bounds length read" (get_elem? ys 0)) _ _
      λ b0. read_form-append xs ys b0)

read_short :
    (n : ℕ) (after : List ℕ)
    → n < 128
    → read_der_length (n ∷ after) 0 ≡ ok (record { header_len = 1; content_len = to_int32 n })
unfolding read_der_length read_form
read_short n after lt = rw (lt→ltb n 128 lt, lt→ltb n (2 ^ 31) (omega (arith, lt))) refl

-- The result for a long form of `k` bytes whose word is `w`.
long_form :
    (k w n : ℕ)
    → w ≡ n
    → ◌≡◌ {A = Result String DerLength}
        (ok (record { header_len = k; content_len = to_int32 w }))
        (ok (record { header_len = k; content_len = to_int32 n }))
long_form k w n e = ap (λ v. ok (record { header_len = k; content_len = to_int32 v })) e

-- `readDerLength` at the length octets of a number below 2 ^ 32, wherever they stand, returns how many
-- they are and the number, except that a number from 2 ^ 31 on is read as a negative one.
pub read_der_length-der_length :
    (before after : List ℕ) (n : ℕ)
    → n < 2 ^ 32
    → read_der_length (before ++ (der_length n ++ after)) (length before)
      ≡ ok (record { header_len = length (der_length n); content_len = to_int32 n })
read_der_length-der_length before after n lt =
    read_der_length-append before (der_length n ++ after) ∙ elim (Bool-cases (ltb n 128)) [
      | inl short ↦ let small : n < 128 = ground arith in rw short (read_short n after small)
      | inr long ↦ elim (Bool-cases (ltb n (2 ^ 8))) [
        | inl one ↦
            unfold read_der_length read_form length_bytes in
            (rw (long, one) (long_form 2 _ n (omega (arith, lt))))
        | inr over1 ↦ elim (Bool-cases (ltb n (2 ^ 16))) [
          | inl two ↦
              let small : n < 2 ^ 16 = ground arith in
              unfold read_der_length read_form length_bytes in
              (rw (long, over1, two) (long_form 3 _ n (omega (arith, small))))
          | inr over2 ↦ elim (Bool-cases (ltb n (2 ^ 24))) [
            | inl three ↦
                let small : n < 2 ^ 24 = ground arith in
                unfold read_der_length read_form length_bytes in
                (rw (long, over1, over2, three) (long_form 4 _ n (omega (arith, small))))
            | inr over3 ↦
                unfold read_der_length read_form length_bytes in
                (rw (long, over1, over2, over3) (long_form 5 _ n (omega (arith, lt))))
          ]
        ]
      ]
    ]
