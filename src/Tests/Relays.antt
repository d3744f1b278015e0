-- ===== src/Tests/Relays.antt =====
-- The relayer and its limiter at concrete requests.
use Prim.Native.Char.{code}
use text.Mathlib.TextEquality.{Char-path}
use crisp_qes.Common.{
  ℕ, ◌≤◌, ◌≡◌, ◌↔◌, refl, ap₂, true, none, some, List, [], ◌∷◌, ◌++◌, String, Result, ok, fail,
  ok-injective, replicate, arith,
}
use crisp_qes.Common.Text.{Text, codes}
use crisp_qes.Common.Maps.{lookup}
use crisp_qes.RateLimit.{take}
use crisp_qes.RateLimit.Spacing.{after}
use crisp_qes.RateLimit.Pruning.{decisions, allowed_decisions, decisions-eq-allowed_decisions}
use crisp_qes.Relayer.Errors.{
  Cause, Thrown, status_by_name, map_contract_error, cause_selector, base_selector,
}
use crisp_qes.Relayer.Errors.Laws.{map_contract_error_decoded}
use crisp_qes.Relayer.Requests.{Field, Body, parse_enroll}
use crisp_qes.Relayer.Handlers.{
  RelayerConfig, Method, Call, Clients, Payload, reply_with, enroll, enroll_call, submit, revoke,
}
use crisp_qes.Relayer.Handlers.Laws.{Authorizes}
use crisp_qes.Relayer.Handlers.Sends.{submit_sends, submit_accepted, revoke_sends, submit_flood}
use crisp_qes.Relayer.Handlers.Enroll.{
  AuthorizesUpdate, enroll_sends, enroll-IsWriteFailure, IsWriteFailure,
}
use crisp_qes.Relayer.SendTx.{Wire, run_queue, run}
use crisp_qes.Relayer.SendTx.Laws.{accepted, IsIncreasing, run_queue-IsIncreasing}

-- `n` times a hex digit.
abbrev hex_text : ℕ → ℕ → Text
hex_text n d = codes "0x" ++ replicate n d

abbrev petition_input : Text
petition_input = codes "0x" ++ (replicate 63 b'0' ++ codes "7")

abbrev config : RelayerConfig
config = record {
  petition_registry = hex_text 40 b'1';
  enrollment_registry = hex_text 40 b'2';
  block_explorer_base = [];
  rate_limit_window_ms = 10000;
}

abbrev funds_error : Thrown
funds_error =
    record {
      is_error = true;
      name = "ContractFunctionExecutionError";
      message = codes "execution failed";
      reverted = none;
      base_data = none;
    }
    ∷ record {
      is_error = true;
      name = "InsufficientFundsError";
      message = codes "no gas";
      reverted = none;
      base_data = none;
    }
    ∷ []

abbrev clients : Clients
clients = record {
  read_root = ok (hex_text 64 b'a');
  simulate_contract = λ call. ok tt;
  send_tx = λ call. ok (hex_text 64 b'e');
}

abbrev poor_clients : Clients
poor_clients = record {
  read_root = ok (hex_text 64 b'a');
  simulate_contract = λ call. ok tt;
  send_tx = λ call. fail funds_error;
}

abbrev submit_request : Body
submit_request = some (
    ("petitionId", Field.string (codes "7"))
    ∷ ("nullifier", Field.string (hex_text 64 b'9'))
    ∷ ("proof", Field.string (codes "0x12"))
    ∷ (
      "publicInputs",
      Field.array (some petition_input ∷ some (hex_text 64 b'A') ∷ some (hex_text 64 b'9') ∷ []),
    )
    ∷ [])

abbrev sign_call : Call
sign_call = record {
  address = hex_text 40 b'1';
  method =
      Method.sign_petition 7 (hex_text 64 b'9') (codes "0x12")
        (petition_input ∷ hex_text 64 b'A' ∷ hex_text 64 b'9' ∷ []);
}

abbrev withdraw_call : Call
withdraw_call = record {
  address = hex_text 40 b'1';
  method =
      Method.revoke_vote 7 (hex_text 64 b'9') (codes "0x12")
        (petition_input ∷ hex_text 64 b'A' ∷ hex_text 64 b'9' ∷ []);
}

abbrev enroll_request : Body
enroll_request = some (
    ("newRoot", Field.string (hex_text 64 b'3'))
    ∷ ("newCommitments", Field.array (some (hex_text 64 b'4') ∷ []))
    ∷ ("signature", Field.string (hex_text 130 b'5'))
    ∷ [])

abbrev root_call : Call
root_call = record {
  address = hex_text 40 b'2';
  method = Method.update_root (hex_text 64 b'3') (hex_text 64 b'4' ∷ []) (hex_text 130 b'5');
}

-- A stand-in for the selectors: names of different lengths and first letters.
abbrev selector_of : String → Text
selector_of name = codes name

submit_sends_example :
    ((submit selector_of config clients [] "::1" 5 submit_request).sends ≡ sign_call ∷ []) ↔ (
      ((take 10000 [] "::1" 5).0 ≡ true)
      × Authorizes config clients Method.sign_petition submit_request sign_call)
submit_sends_example = submit_sends selector_of config clients [] "::1" 5 submit_request sign_call

submit_accepted_example :
    ((submit selector_of config clients [] "::1" 5 submit_request).reply.code ≡ 200) ↔ (
      (call : Call) × (tx_hash : Text) × ((submit selector_of config clients [] "::1" 5
          submit_request).sends
        ≡ call ∷ [])
      × (clients.send_tx call ≡ ok tx_hash))
submit_accepted_example = submit_accepted selector_of config clients [] "::1" 5 submit_request

revoke_sends_example :
    ((revoke selector_of config clients [] "::1" 5 submit_request).sends ≡ withdraw_call ∷ []) ↔ (
      ((take 10000 [] "::1" 5).0 ≡ true)
      × Authorizes config clients Method.revoke_vote submit_request withdraw_call)
revoke_sends_example =
    revoke_sends selector_of config clients [] "::1" 5 submit_request withdraw_call

submit_flood_example :
    submit selector_of config clients
      (after 10000
        (submit selector_of config clients [] "::1" 5 submit_request).hits
        (("::2", 8) ∷ []))
      "::1"
      10004
      submit_request
    ≡ record {
      reply = reply_with 429 (Payload.rate_limited 10000);
      hits =
          after 10000
            (submit selector_of config clients [] "::1" 5 submit_request).hits
            (("::2", 8) ∷ []);
      sends = [];
    }
unfolding take lookup
submit_flood_example =
    submit_flood selector_of config clients [] "::1" 5 10004 submit_request submit_request
      (("::2", 8) ∷ []) tt refl (omega arith, tt) (omega arith)

enroll_sends_example :
    ((enroll selector_of config clients [] "::1" 5 enroll_request).sends ≡ root_call ∷ []) ↔ (
      ((take 10000 [] "::1" 5).0 ≡ true) × AuthorizesUpdate config clients enroll_request root_call)
enroll_sends_example = enroll_sends selector_of config clients [] "::1" 5 enroll_request root_call

enroll-IsWriteFailure_example :
    IsWriteFailure selector_of config poor_clients funds_error
      (enroll selector_of config poor_clients [] "::1" 5 enroll_request).reply
unfolding enroll enroll_call parse_enroll take lookup
enroll-IsWriteFailure_example =
    enroll-IsWriteFailure selector_of config poor_clients [] "::1" 5 enroll_request root_call
      funds_error refl refl

abbrev wire : Wire
wire = record { transaction_count = ok 4; write_contract = λ call n. ok (hex_text 64 b'e') }

abbrev failing_wire : Wire
failing_wire = record { transaction_count = ok 5; write_contract = λ call n. fail funds_error }

abbrev later_wire : Wire
later_wire = record { transaction_count = ok 5; write_contract = λ call n. ok (hex_text 64 b'e') }

abbrev queue : List (Wire × Call)
queue = (wire, sign_call) ∷ (failing_wire, sign_call) ∷ (later_wire, sign_call) ∷ []

run_queue-IsIncreasing_example : IsIncreasing 0 (accepted (run_queue none queue))
unfolding run_queue run
run_queue-IsIncreasing_example =
    run_queue-IsIncreasing queue 0 none tt
      (λ n e. omega arith, (λ n e. five n e, (λ n e. five n e, tt)))
  where
    five : (n : ℕ) → ◌≡◌ {A = Result Thrown ℕ} (ok 5) (ok n) → 5 ≤ n
    five n e = let same : 5 ≡ n = ok-injective e in omega arith

decisions-eq-allowed_decisions_example :
    decisions 10000 [] (("::1", 5) ∷ ("::1", 9) ∷ ("::2", 9) ∷ [])
    ≡ allowed_decisions 10000 [] (("::1", 5) ∷ ("::1", 9) ∷ ("::2", 9) ∷ [])
decisions-eq-allowed_decisions_example =
    decisions-eq-allowed_decisions 10000 (("::1", 5) ∷ ("::1", 9) ∷ ("::2", 9) ∷ [])
      (omega arith, (omega arith, (omega arith, tt)))

selector_of-distinct : (n m : String) → selector_of n ≡ selector_of m → n ≡ m
selector_of-distinct String.[] String.[] e = refl
selector_of-distinct String.[] (String.◌∷◌ d m) e = cc
selector_of-distinct (String.◌∷◌ c n) String.[] e = cc
selector_of-distinct (String.◌∷◌ c n) (String.◌∷◌ d m) e =
    let first : code c ≡ code d = cc in
    ap₂ (λ a b. String.◌∷◌ a b) (Char-path c d first) (selector_of-distinct n m cc)

abbrev closed : Cause
closed = record {
  is_error = true;
  name = "ContractFunctionRevertedError";
  message = codes "reverted";
  reverted = some (record { error_name = some "PetitionClosed"; raw = none });
  base_data = none;
}

abbrev wrapper : Cause
wrapper = record {
  is_error = true;
  name = "ContractFunctionExecutionError";
  message = codes "execution failed";
  reverted = none;
  base_data = none;
}

map_contract_error_decoded_example :
    ((map_contract_error selector_of (wrapper ∷ closed ∷ [])).status
      ≡ status_by_name "PetitionClosed")
    × ((map_contract_error selector_of (wrapper ∷ closed ∷ [])).error ≡ "PetitionClosed")
unfolding cause_selector base_selector
map_contract_error_decoded_example =
    map_contract_error_decoded selector_of (wrapper ∷ []) [] closed
      (record { error_name = some "PetitionClosed"; raw = none }) "PetitionClosed"
      (λ n m _ _ e. selector_of-distinct n m e) (refl, tt) refl refl refl refl
