-- ===== src/V3/Challenge.antt =====
-- packages/oprf/v3-grumpkin/service/challenge.mjs: the challenge that the citizen signs, and the two
-- halves of its SHA-256. Node's hash is a parameter.
use crisp_qes.Common.{
  ℕ, Bool, not, ◌&&◌, ◌||◌, List, ◌++◌, String, Result, ok, ◌>>=◌, ◌>>◌, guard, length, take, drop,
  any, all, bytes_eq, ◌==◌,
}
use crisp_qes.Common.Text.{Text, codes, lower, is_lower_hex}
use crisp_qes.Pedersen.{be_value}
use crisp_qes.Oprf.Attestation.{is_quote_or_backslash}
use crisp_qes.V3.Words.{Digest}

abbrev pub enroll_v3_intent : Text
enroll_v3_intent = codes "crisp-qes-enroll-v3"

-- `/^0x[0-9a-f]{128}$/`
abbrev pub is_point_hex : Text → Bool
is_point_hex t =
    bytes_eq (take 2 t) (codes "0x") && ((length (drop 2 t) == 128) && all is_lower_hex (drop 2 t))

abbrev pub challenge_bytes : (m epoch : Text) → List ℕ
challenge_bytes m epoch =
    codes "{\"intent\":\""
    ++ (enroll_v3_intent
        ++ (codes "\",\"epoch\":\""
            ++ (epoch ++ (codes "\",\"blindedInput\":\"" ++ (m ++ codes "\"}")))))

unfoldable pub build_enroll_v3_challenge_bytes : (m_hex epoch : Text) → Result String (List ℕ)
unfolding lower
build_enroll_v3_challenge_bytes m_hex epoch = do
  guard (is_point_hex (lower m_hex))
      "buildEnrollV3ChallengeBytes: M must be 0x + 128 lowercase hex (x||y)"
  guard (not ((length epoch == 0) || any is_quote_or_backslash epoch))
      "buildEnrollV3ChallengeBytes: epoch non-empty, no quote/backslash"
  ok (challenge_bytes (lower m_hex) epoch)

unfoldable pub expected_digest_limbs :
    (sha256 : List ℕ → List ℕ) → (m_hex epoch : Text) → Result String Digest
expected_digest_limbs sha256 m_hex epoch = do
  bytes ← build_enroll_v3_challenge_bytes m_hex epoch
  let d = sha256 bytes
  ok (record { hi = be_value 0 (take 16 d); lo = be_value 0 (take 16 (drop 16 d)) })
