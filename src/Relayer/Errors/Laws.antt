-- ===== src/Relayer/Errors/Laws.antt =====
-- How wrapped reverts and failed transactions are answered.
use crisp_qes.Common.{
  ◌≡◌, refl, ap, ◌∙◌, Bool, true, false, ◌&&◌, Option, none, some, List, [], ◌∷◌, ◌++◌, String,
  arith, All, bytes_eq_refl, bytes_eq_sound, str_eq, eq_iff, inl, inr, Bool-cases, Option-cases,
  eq_refl,
}
use crisp_qes.Common.Text.{Text}
use crisp_qes.Relayer.Errors.{
  Cause, Reverted, Thrown, signer_error_names, enroll_error_names, is_name, name_of, cause_selector,
  walk_selector, find_revert_selector, status_by_name, known_name, map_contract_error,
  map_enrollment_error, classify_names, classify_tx_error, insufficient_funds, contract_answer,
  enrollment_answer, is_nonce_name, other_failure, of_tx_error, ◌or_else◌, scrape_selector,
}

-- The value thrown is an `Error`.
abbrev pub is_error_value : Thrown → Bool
is_error_value [] = false
is_error_value (c ∷ _) = c.is_error

-- No two of the names have one selector.
abbrev pub HaveDistinctSelectors : (String → Text) → List String → Type 0
HaveDistinctSelectors selector_of names =
    (n m : String)
    → is_name names n ≡ true
    → is_name names m ≡ true
    → selector_of n ≡ selector_of m
    → n ≡ m

name_of_sound :
    (selector_of : String → Text) (names : List String) (selector : Text) (m : String)
    → name_of selector_of names selector ≡ some m
    → (is_name names m ≡ true) × (selector_of m ≡ selector)
unfolding name_of
name_of_sound selector_of [] selector m h = cc
name_of_sound selector_of (n ∷ ns) selector m h =
    elim (Option-cases (name_of selector_of ns selector)) [
      | inl missing ↦
          (ground (arith, eq_refl n), ground (arith, bytes_eq_sound (selector_of n) selector))
      | inr (k, found) ↦
          let (member, same) = name_of_sound selector_of ns selector m (ground arith) in
          (ground arith, same)
    ]

name_of_complete :
    (selector_of : String → Text) (names : List String) (m : String)
    → is_name names m ≡ true
    → (k : String) × (name_of selector_of names (selector_of m) ≡ some k)
unfolding name_of
name_of_complete selector_of [] m h = cc
name_of_complete selector_of (n ∷ ns) m h =
    elim (Option-cases (name_of selector_of ns (selector_of m))) [
      | inr (k, found) ↦ (k, rw found refl)
      | inl missing ↦ elim (Bool-cases (str_eq n m)) [
        | inl same ↦
            let e : n ≡ m = (eq_iff n m).0 same in
            (n, rw missing (rw e (rw (bytes_eq_refl (selector_of m)) refl)))
        | inr other ↦ let (k, found) = name_of_complete selector_of ns m (ground arith) in cc
      ]
    ]

name_of-selector_of :
    (selector_of : String → Text) (names : List String) (m : String)
    → HaveDistinctSelectors selector_of names
    → is_name names m ≡ true
    → name_of selector_of names (selector_of m) ≡ some m
name_of-selector_of selector_of names m distinct h =
    let (k, found) = name_of_complete selector_of names m h in
    let (member, same) = name_of_sound selector_of names (selector_of m) k found in
    found ∙ ap some (distinct k m member h same)

walk_selector-skip :
    (selector_of : String → Text) (outer inner : Thrown)
    → All (λ c. cause_selector selector_of c ≡ none) outer
    → walk_selector selector_of (outer ++ inner) ≡ walk_selector selector_of inner
unfolding walk_selector
walk_selector-skip selector_of [] inner h = refl
walk_selector-skip selector_of (c ∷ outer) inner (h, hs) =
    rw h (walk_selector-skip selector_of outer inner hs)

find_revert_selector_walked :
    (selector_of : String → Text) (err : Thrown) (selector : Text)
    → is_error_value err ≡ true
    → walk_selector selector_of err ≡ some selector
    → find_revert_selector selector_of err ≡ some selector
unfolding find_revert_selector
find_revert_selector_walked selector_of [] selector h e = cc
find_revert_selector_walked selector_of (c ∷ causes) selector h e =
    simp h (ap (λ o. o or_else scrape_selector c.message) e)

-- A revert that viem decoded as an error of the petition registry is answered with that error's
-- status and name, however many causes without revert data are wrapped around it.
pub map_contract_error_decoded :
    (selector_of : String → Text) (outer inner : Thrown) (c : Cause) (r : Reverted) (name : String)
    → HaveDistinctSelectors selector_of signer_error_names
    → All (λ o. cause_selector selector_of o ≡ none) outer
    → c.reverted ≡ some r
    → r.error_name ≡ some name
    → is_name signer_error_names name ≡ true
    → is_error_value (outer ++ c ∷ inner) ≡ true
    → ((map_contract_error selector_of (outer ++ c ∷ inner)).status ≡ status_by_name name)
      × ((map_contract_error selector_of (outer ++ c ∷ inner)).error ≡ name)
unfolding map_contract_error
map_contract_error_decoded selector_of outer inner c r name distinct silent rev decoded known is =
    let here : cause_selector selector_of c ≡ some (selector_of name) =
      unfold cause_selector in (rw (rev, decoded, known) refl) in
    let walked : walk_selector selector_of (outer ++ c ∷ inner) ≡ some (selector_of name) =
      walk_selector-skip selector_of outer (c ∷ inner) silent
      ∙ (unfold walk_selector in rw here refl) in
    let found = find_revert_selector_walked selector_of (outer ++ c ∷ inner) _ is walked in
    rw (found, name_of-selector_of selector_of signer_error_names name distinct known) (refl, refl)

-- No error of the chain has a name that `classifyTxError` knows.
abbrev pub IsUnclassified : Cause → Type 0
IsUnclassified c =
    (c.is_error && str_eq c.name "InsufficientFundsError" ≡ false)
    × (c.is_error && is_nonce_name c.name ≡ false)

classify_names-skip :
    (outer inner : Thrown)
    → All IsUnclassified outer
    → classify_names (outer ++ inner) ≡ classify_names inner
unfolding classify_names
classify_names-skip [] inner h = refl
classify_names-skip (c ∷ outer) inner ((funds, nonce), hs) =
    rw (funds, nonce) (classify_names-skip outer inner hs)

classify_tx_error_funds :
    (outer inner : Thrown) (c : Cause)
    → All IsUnclassified outer
    → c.is_error ≡ true
    → c.name ≡ "InsufficientFundsError"
    → classify_tx_error (outer ++ c ∷ inner) ≡ some insufficient_funds
unfolding classify_tx_error
classify_tx_error_funds outer inner c h is named =
    let here : classify_names (c ∷ inner) ≡ some insufficient_funds =
      unfold classify_names in (rw (is, named) refl) in
    rw (classify_names-skip outer (c ∷ inner) h ∙ here) refl

contract_answer_funds :
    (err : Thrown) (selector : Option Text) (name : Option String)
    → name ≡ none
    → classify_tx_error err ≡ some insufficient_funds
    → contract_answer err selector name ≡ of_tx_error insufficient_funds
unfolding contract_answer other_failure
contract_answer_funds err selector none unknown funds = rw funds refl
contract_answer_funds err selector (some name) unknown funds = cc

enrollment_answer_funds :
    (err : Thrown) (selector : Option Text) (name : Option String)
    → name ≡ none
    → classify_tx_error err ≡ some insufficient_funds
    → enrollment_answer err selector name ≡ of_tx_error insufficient_funds
unfolding enrollment_answer other_failure
enrollment_answer_funds err selector none unknown funds = rw funds refl
enrollment_answer_funds err selector (some name) unknown funds = cc

-- The answer to a failure that carries no error name of the contract, when the relayer account
-- cannot pay the gas: 503 and InsufficientRelayerFunds, on the enrollment endpoint as on the
-- others, however many unclassified causes are wrapped around it.
pub insufficient_funds_answered :
    (selector_of : String → Text) (outer inner : Thrown) (c : Cause)
    → All IsUnclassified outer
    → c.is_error ≡ true
    → c.name ≡ "InsufficientFundsError"
    → known_name selector_of signer_error_names
        (find_revert_selector selector_of (outer ++ c ∷ inner))
      ≡ none
    → known_name selector_of enroll_error_names
        (find_revert_selector selector_of (outer ++ c ∷ inner))
      ≡ none
    → (map_contract_error selector_of (outer ++ c ∷ inner) ≡ of_tx_error insufficient_funds)
      × (map_enrollment_error selector_of (outer ++ c ∷ inner) ≡ of_tx_error insufficient_funds)
unfolding map_contract_error map_enrollment_error
insufficient_funds_answered selector_of outer inner c h is named unknown unlisted =
    let funds = classify_tx_error_funds outer inner c h is named in
    (contract_answer_funds _ _ _ unknown funds, enrollment_answer_funds _ _ _ unlisted funds)
