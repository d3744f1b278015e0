-- ===== src/Relayer/SendTx.antt =====
-- packages/relayer/src/chain.ts: the queue of writes with a managed nonce.
-- The queue runs the sends one at a time, so it is a list of them; what the chain answers to each is
-- the parameter.
pub mod Laws
use crisp_qes.Common.{ℕ, ◌+◌, Option, none, some, List, [], ◌∷◌, Result, ok, fail}
use crisp_qes.Common.Text.{Text}
use crisp_qes.Relayer.Errors.{Thrown}
use crisp_qes.Relayer.Handlers.{Call}

-- What `getTransactionCount` and `writeContract`, at a nonce, answer to one send.
pub record Wire : Type 0 where
  pub transaction_count : Result Thrown ℕ
  pub write_contract : Call → ℕ → Result Thrown Text

-- The result of a send, the nonce that was written with, and `nextNonce` afterwards.
pub record Run : Type 0 where
  pub result : Result Thrown Text
  pub nonce : Option ℕ
  pub next_nonce : Option ℕ

-- The state after a write that was answered.
abbrev pub written : ℕ → Result Thrown Text → Run
written n (ok hash) = record { result = ok hash; nonce = some n; next_nonce = some (n + 1) }
written n (fail err) = record { result = fail err; nonce = some n; next_nonce = none }

abbrev pub write_counted : Wire → Call → Result Thrown ℕ → Run
write_counted w call (ok n) = written n (w.write_contract call n)
write_counted w call (fail err) = record { result = fail err; nonce = none; next_nonce = none }

-- `run`
unfoldable pub run : Option ℕ → Wire → Call → Run
run (some n) w call = written n (w.write_contract call n)
run none w call = write_counted w call w.transaction_count

-- `sendTx` of several calls: the queue goes on whatever a run's result.
unfoldable pub run_queue : Option ℕ → List (Wire × Call) → List Run
run_queue next [] = []
run_queue next ((w, call) ∷ queue) = let r = run next w call in r ∷ run_queue r.next_nonce queue
