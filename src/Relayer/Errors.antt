-- ===== src/Relayer/Errors.antt =====
-- packages/relayer/src/errors.ts: what viem throws, as an HTTP status and an error name.
-- A thrown value is its chain of causes, outermost first; `toFunctionSelector` of viem, at
-- `error NAME()`, is the parameter `selector_of`.
pub mod Laws
pub mod Statuses
use crisp_qes.Common.{
  ℕ, Bool, true, false, not, ◌&&◌, ◌||◌, Option, none, some, List, [], ◌∷◌, ◌++◌, String, ltb, leb,
  ◌==◌, if◌then◌else◌, str_eq, length, take, any, all, bytes_eq, drop,
}
use crisp_qes.Common.Text.{Text, codes, lower, starts_with, includes, first_line, is_hex}

-- The `data` and `raw` of a `ContractFunctionRevertedError`.
pub record Reverted : Type 0 where
  pub error_name : Option String
  pub raw : Option Text

-- One value of the chain: `is_error` is `instanceof Error`, `base_data` the text `data` of a
-- `BaseError`.
pub record Cause : Type 0 where
  pub is_error : Bool
  pub name : String
  pub message : Text
  pub reverted : Option Reverted
  pub base_data : Option Text

abbrev pub Thrown : Type 0
Thrown = List Cause

abbrev pub signer_error_names : List String
signer_error_names =
    "UnknownPetition" ∷ "PetitionClosed" ∷ "NullifierAlreadyUsed" ∷ "NullifierNotUsed"
    ∷ "InvalidProof" ∷ "InvalidEnrollmentRoot" ∷ []

abbrev pub enroll_error_names : List String
enroll_error_names = "BadSignature" ∷ "EmptyBatch" ∷ []

unfoldable pub status_by_name : String → ℕ
status_by_name name =
    if str_eq name "NullifierAlreadyUsed"
    then 409
    else if str_eq name "NullifierNotUsed"
    then 409
    else if str_eq name "PetitionClosed"
    then 410
    else if str_eq name "UnknownPetition"
    then 404
    else 422

unfoldable pub enroll_status_by_name : String → ℕ
enroll_status_by_name name = if str_eq name "BadSignature" then 409 else 400

pub record RelayerErrorResponse : Type 0 where
  pub status : ℕ
  pub error : String
  pub selector : Option Text
  pub detail : Option Text

-- `names.includes(name)`
abbrev pub is_name : List String → String → Bool
is_name names name = any (λ n. str_eq n name) names

-- `/0x[0-9a-fA-F]{8}/` at the start of the text.
abbrev pub selector_here : Text → Bool
selector_here t =
    starts_with t (codes "0x") && ((length (take 10 t) == 10) && all is_hex (drop 2 (take 10 t)))

-- The first match of that expression in a message.
unfoldable pub scrape_selector : Text → Option Text
scrape_selector [] = none
scrape_selector (c ∷ t) =
    if selector_here (c ∷ t) then some (take 10 (c ∷ t)) else scrape_selector t

-- `Map.get` on a map of the names by selector: the last name with this selector.
unfoldable pub name_of : (String → Text) → List String → Text → Option String
name_of selector_of [] selector = none
name_of selector_of (n ∷ ns) selector = elim (name_of selector_of ns selector) [
  | some m ↦ some m
  | none ↦ if bytes_eq (selector_of n) selector then some n else none
]

-- `cursor.data.errorName`, if it is one of the petition registry's errors.
unfoldable pub decoded_selector : (String → Text) → Option String → Option Text
decoded_selector selector_of none = none
decoded_selector selector_of (some name) =
    if is_name signer_error_names name then some (selector_of name) else none

-- `raw && raw.length >= 10`
unfoldable pub raw_selector : Option Text → Option Text
raw_selector none = none
raw_selector (some raw) = if leb 10 (length raw) then some (take 10 raw) else none

unfoldable pub base_selector : Option Text → Option Text
base_selector none = none
base_selector (some d) = if starts_with d (codes "0x") then some (take 10 d) else none

infixr 30 ◌or_else◌
abbrev pub ◌or_else◌ {ℓ} : {A : Type ℓ} → Option A → Option A → Option A
none or_else o = o
some a or_else o = some a

-- What one round of the loop of `findRevertSelector` returns, if it returns.
unfoldable pub cause_selector : (String → Text) → Cause → Option Text
unfolding decoded_selector raw_selector base_selector
cause_selector selector_of c =
    elim c.reverted [
      | none ↦ none
      | some r ↦ decoded_selector selector_of r.error_name or_else raw_selector r.raw
    ]
    or_else base_selector c.base_data

unfoldable pub walk_selector : (String → Text) → Thrown → Option Text
walk_selector selector_of [] = none
walk_selector selector_of (c ∷ causes) =
    cause_selector selector_of c or_else walk_selector selector_of causes

unfoldable pub find_revert_selector : (String → Text) → Thrown → Option Text
unfolding walk_selector scrape_selector
find_revert_selector selector_of [] = none
find_revert_selector selector_of (err ∷ causes) =
    if err.is_error
    then walk_selector selector_of (err ∷ causes) or_else scrape_selector err.message
    else none

pub record TxError : Type 0 where
  pub error : String
  pub status : ℕ
  pub detail : Text

abbrev pub insufficient_funds : TxError
insufficient_funds = record {
  error = "InsufficientRelayerFunds";
  status = 503;
  detail = codes "relayer account has insufficient ETH to pay gas — fund the relayer key";
}

abbrev pub nonce_error : TxError
nonce_error = record {
  error = "RelayerNonceError";
  status = 503;
  detail = codes "relayer nonce conflict — transient, retry";
}

-- `/^Nonce(TooLow|TooHigh|MaxValue)Error$/`
abbrev pub is_nonce_name : String → Bool
is_nonce_name name =
    str_eq name "NonceTooLowError"
    || (str_eq name "NonceTooHighError" || str_eq name "NonceMaxValueError")

-- The loop of `classifyTxError` over the names: the first that is known decides.
unfoldable pub classify_names : Thrown → Option TxError
classify_names [] = none
classify_names (c ∷ causes) =
    if c.is_error && str_eq c.name "InsufficientFundsError"
    then some insufficient_funds
    else if c.is_error && is_nonce_name c.name
    then some nonce_error
    else classify_names causes

-- The non-empty messages of the errors of the chain.
unfoldable pub messages : Thrown → List Text
messages [] = []
messages (c ∷ causes) =
    let rest = messages causes in
    if c.is_error && not (length c.message == 0) then c.message ∷ rest else rest

-- `msgs.join(" | ")`
unfoldable pub join_bar : List Text → Text
join_bar [] = []
join_bar (m ∷ []) = m
join_bar (m ∷ n ∷ ms) = m ++ (codes " | " ++ join_bar (n ∷ ms))

unfoldable pub classify_message : Text → Option TxError
classify_message blob =
    if includes blob (codes "insufficient funds")
    then some insufficient_funds
    else if includes blob (codes "nonce too low")
        || (includes blob (codes "nonce too high")
            || includes blob (codes "replacement transaction underpriced"))
    then some nonce_error
    else none

unfoldable pub classify_tx_error : Thrown → Option TxError
unfolding classify_names messages join_bar classify_message
classify_tx_error err =
    classify_names err or_else classify_message (lower (join_bar (messages err)))

-- `err instanceof Error ? err.message.split("\n")[0] : undefined`
unfoldable pub detail_of : Thrown → Option Text
detail_of [] = none
detail_of (err ∷ _) = if err.is_error then some (first_line err.message) else none

abbrev pub known_name : (String → Text) → List String → Option Text → Option String
known_name selector_of names none = none
known_name selector_of names (some selector) = name_of selector_of names selector

abbrev pub of_tx_error : TxError → RelayerErrorResponse
of_tx_error tx = record {
  status = tx.status;
  error = tx.error;
  selector = none;
  detail = some tx.detail;
}

-- A failure that is no known revert: a gas or nonce condition, or anything else.
unfoldable pub other_failure : String → Thrown → Option Text → Option TxError → RelayerErrorResponse
other_failure error err selector (some tx) = of_tx_error tx
other_failure error err selector none = record {
  status = 500;
  error = error;
  selector = selector;
  detail = detail_of err;
}

-- The two answers of `mapContractError`: a known name, or another failure.
unfoldable pub contract_answer : Thrown → Option Text → Option String → RelayerErrorResponse
contract_answer err selector (some name) = record {
  status = status_by_name name;
  error = name;
  selector = selector;
  detail = detail_of err;
}
contract_answer err selector none =
    other_failure "RelayerSubmitFailed" err selector (classify_tx_error err)

unfoldable pub map_contract_error : (String → Text) → Thrown → RelayerErrorResponse
unfolding contract_answer
map_contract_error selector_of err =
    let selector = find_revert_selector selector_of err in
    contract_answer err selector (known_name selector_of signer_error_names selector)

abbrev pub bad_signature_help : Text
bad_signature_help =
    codes
      "the attester signature does not recover to the registered oprfAttester. Most common cause: the OPRF service's view of currentRoot has drifted from the on-chain enrollmentRoot (concurrent enrollment landed in between), or the same attesterSig was already used. Re-fetch a fresh sig from /oprf/register and retry."

-- `(detail ? detail + " — " : "") + help`
unfoldable pub expand_detail : Option Text → Text
expand_detail none = bad_signature_help
expand_detail (some []) = bad_signature_help
expand_detail (some (c ∷ d)) = (c ∷ d) ++ (codes " — " ++ bad_signature_help)

-- The two answers of `mapEnrollmentError`.
unfoldable pub enrollment_answer : Thrown → Option Text → Option String → RelayerErrorResponse
unfolding expand_detail
enrollment_answer err selector (some name) = record {
  status = enroll_status_by_name name;
  error = name;
  selector = selector;
  detail =
      (if str_eq name "BadSignature" then some (expand_detail (detail_of err)) else detail_of err);
}
enrollment_answer err selector none =
    other_failure "RelayerEnrollFailed" err selector (classify_tx_error err)

unfoldable pub map_enrollment_error : (String → Text) → Thrown → RelayerErrorResponse
unfolding enrollment_answer
map_enrollment_error selector_of err =
    let selector = find_revert_selector selector_of err in
    enrollment_answer err selector (known_name selector_of enroll_error_names selector)
