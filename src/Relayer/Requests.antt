-- ===== src/Relayer/Requests.antt =====
-- packages/relayer/src/app.ts: the bodies of the POST routes, as zod checks them.
-- A body is none if it is no JSON object; an item of an array is none if it is no string.
use crisp_qes.Common.{
  Bool, ◌&&◌, Option, none, some, List, [], ◌∷◌, String, leb, if◌then◌else◌, length, drop, all,
}
use crisp_qes.Common.Maps.{lookup}
use crisp_qes.Common.Text.{Text, codes, is_hex, is_digit, starts_with, hex_of_length}

pub data Field : Type 0 where
  string : Text → Field
  array : List (Option Text) → Field
  other : Field

abbrev pub Body : Type 0
Body = Option (List (String × Field))

abbrev pub hex32 : Text → Bool
hex32 = hex_of_length 64

-- `/^0x[0-9a-fA-F]+$/`
abbrev pub hex : Text → Bool
hex t = starts_with t (codes "0x") && (leb 1 (length (drop 2 t)) && all is_hex (drop 2 t))

abbrev pub sig65 : Text → Bool
sig65 = hex_of_length 130

-- `/^\d+$/`
abbrev pub decimal_uint : Text → Bool
decimal_uint t = leb 1 (length t) && all is_digit t

abbrev pub string_field : (Text → Bool) → Option Field → Option Text
string_field p (some (Field.string t)) = if p t then some t else none
string_field p _ = none

abbrev pub string_items : (Text → Bool) → List (Option Text) → Option (List Text)
string_items p [] = some []
string_items p (none ∷ items) = none
string_items p (some t ∷ items) = elim (string_items p items) [
  | some ts ↦ if p t then some (t ∷ ts) else none
  | none ↦ none
]

abbrev pub array_field : (Text → Bool) → Option Field → Option (List Text)
array_field p (some (Field.array items)) = string_items p items
array_field p _ = none

-- `SubmitBody` and `RevokeBody`; `publicInputs` has the three items that they require.
pub record SubmitBody : Type 0 where
  pub petition_id : Text
  pub nullifier : Text
  pub proof : Text
  pub petition_input : Text
  pub root_input : Text
  pub nullifier_input : Text

pub record EnrollBody : Type 0 where
  pub new_root : Text
  pub new_commitments : List Text
  pub signature : Text

abbrev pub submit_body :
    Option Text → Option Text → Option Text → Option (List Text) → Option SubmitBody
submit_body (some petition_id) (some nullifier) (some proof) (some (p ∷ r ∷ n ∷ [])) =
    some (record {
      petition_id = petition_id;
      nullifier = nullifier;
      proof = proof;
      petition_input = p;
      root_input = r;
      nullifier_input = n;
    })
submit_body _ _ _ _ = none

unfoldable pub parse_submit : Body → Option SubmitBody
parse_submit none = none
parse_submit (some fields) =
    submit_body (string_field decimal_uint (lookup "petitionId" fields))
      (string_field hex32 (lookup "nullifier" fields)) (string_field hex (lookup "proof" fields))
      (array_field hex32 (lookup "publicInputs" fields))

abbrev pub enroll_body : Option Text → Option (List Text) → Option Text → Option EnrollBody
enroll_body (some new_root) (some (c ∷ cs)) (some signature) =
    some (record { new_root = new_root; new_commitments = c ∷ cs; signature = signature })
enroll_body _ _ _ = none

unfoldable pub parse_enroll : Body → Option EnrollBody
parse_enroll none = none
parse_enroll (some fields) =
    enroll_body (string_field hex32 (lookup "newRoot" fields))
      (array_field hex32 (lookup "newCommitments" fields))
      (string_field sig65 (lookup "signature" fields))
