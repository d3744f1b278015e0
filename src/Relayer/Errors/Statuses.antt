-- ===== src/Relayer/Errors/Statuses.antt =====
-- Every failure is answered with an error status.
use crisp_qes.Common.{
  ◌≤◌, ◌≡◌, refl, ap, sym, ◌∙◌, Option, none, some, [], ◌∷◌, String, arith, inl, inr, Bool-cases,
  Option-cases, ◌&&◌, str_eq,
}
use crisp_qes.Common.Text.{Text}
use crisp_qes.Relayer.Errors.{
  Thrown, TxError, RelayerErrorResponse, status_by_name, enroll_status_by_name, classify_names,
  classify_message, classify_tx_error, insufficient_funds, nonce_error, is_nonce_name,
  other_failure, contract_answer, map_contract_error,
}

abbrev pub IsFailure : RelayerErrorResponse → Type 0
IsFailure r = (400 ≤ r.status) × (r.status ≤ 503)

status_by_name_bounds : (name : String) → (404 ≤ status_by_name name) × (status_by_name name ≤ 422)
unfolding status_by_name
status_by_name_bounds name = ground arith

pub enroll_status_by_name_bounds :
    (name : String) → (400 ≤ enroll_status_by_name name) × (enroll_status_by_name name ≤ 409)
unfolding enroll_status_by_name
enroll_status_by_name_bounds name = ground arith

classify_names_status : (err : Thrown) (t : TxError) → classify_names err ≡ some t → t.status ≡ 503
unfolding classify_names
classify_names_status [] t h = cc
classify_names_status (c ∷ causes) t h =
    elim (Bool-cases (c.is_error && str_eq c.name "InsufficientFundsError")) [
      | inl funds ↦ let e : insufficient_funds ≡ t = cc in rw (sym e) refl
      | inr unfunded ↦ elim (Bool-cases (c.is_error && is_nonce_name c.name)) [
        | inl nonce ↦ let e : nonce_error ≡ t = cc in rw (sym e) refl
        | inr other ↦ classify_names_status causes t (rw (unfunded, other) at h)
      ]
    ]

classify_message_status :
    (blob : Text) (t : TxError) → classify_message blob ≡ some t → t.status ≡ 503
unfolding classify_message
classify_message_status blob t h = ground arith

pub classify_tx_error_status :
    (err : Thrown) (t : TxError) → classify_tx_error err ≡ some t → t.status ≡ 503
unfolding classify_tx_error
classify_tx_error_status err t h = elim (Option-cases (classify_names err)) [
  | inl unnamed ↦ classify_message_status _ t (rw unnamed at h)
  | inr (s, named) ↦ let e : s ≡ t = cc in classify_names_status err t (named ∙ ap some e)
]

other_failure-IsFailure :
    (error : String) (err : Thrown) (selector : Option Text) (o : Option TxError)
    → classify_tx_error err ≡ o
    → IsFailure (other_failure error err selector o)
unfolding other_failure
other_failure-IsFailure error err selector none h = omega arith
other_failure-IsFailure error err selector (some t) h =
    ground (arith, classify_tx_error_status err t h)

pub map_contract_error-IsFailure :
    (selector_of : String → Text) (err : Thrown) → IsFailure (map_contract_error selector_of err)
unfolding map_contract_error contract_answer
map_contract_error-IsFailure selector_of err = answered _ _
  where
    answered :
        (selector : Option Text) (name : Option String)
        → IsFailure (contract_answer err selector name)
    answered selector (some name) = ground (arith, status_by_name_bounds name)
    answered selector none = other_failure-IsFailure _ err selector _ refl
