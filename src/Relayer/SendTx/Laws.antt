-- ===== src/Relayer/SendTx/Laws.antt =====
-- The nonces of the writes that the chain accepts.
use crisp_qes.Common.{
  ℕ, zero, suc, ◌+◌, ◌≤◌, ◌≡◌, refl, ap, Option, none, some, List, [], ◌∷◌, Result, ok, fail, arith,
  length, All,
}
use crisp_qes.Common.Text.{Text}
use crisp_qes.Relayer.Errors.{Thrown}
use crisp_qes.Relayer.Handlers.{Call}
use crisp_qes.Relayer.SendTx.{Wire, Run, written, write_counted, run, run_queue}

-- The nonce of a write that was accepted.
abbrev pub accepted_nonce : Result Thrown Text → Option ℕ → Option ℕ
accepted_nonce (ok hash) n = n
accepted_nonce (fail err) n = none

abbrev pub cons_some : Option ℕ → List ℕ → List ℕ
cons_some none ns = ns
cons_some (some n) ns = n ∷ ns

abbrev pub accepted : List Run → List ℕ
accepted [] = []
accepted (r ∷ rs) = cons_some (accepted_nonce r.result r.nonce) (accepted rs)

-- Strictly increasing from `floor` on.
abbrev pub IsIncreasing : ℕ → List ℕ → Type 0
IsIncreasing floor [] = Unit
IsIncreasing floor (n ∷ ns) = (floor ≤ n) × IsIncreasing (suc n) ns

abbrev pub above : ℕ → Option ℕ → ℕ
above floor none = floor
above floor (some n) = suc n

-- The pending transaction count that a send reads is past the nonces of the writes accepted before.
abbrev pub CountsPending : ℕ → List (Wire × Call) → List Run → Type 0
CountsPending floor ((w, call) ∷ queue) (r ∷ rs) =
    ((n : ℕ) → w.transaction_count ≡ ok n → floor ≤ n)
    × CountsPending (above floor (accepted_nonce r.result r.nonce)) queue rs
CountsPending floor _ _ = Unit

-- The managed nonce is not below the nonces accepted so far.
abbrev pub IsAbove : ℕ → Option ℕ → Type 0
IsAbove floor none = Unit
IsAbove floor (some n) = floor ≤ n

-- One run: nothing is accepted and the floor stays, or a nonce above it is.
record Steps (floor : ℕ) (r : Run) : Type 0 where
  next : IsAbove (above floor (accepted_nonce r.result r.nonce)) r.next_nonce
  fresh : IsAbove floor (accepted_nonce r.result r.nonce)

written-Steps :
    (floor n : ℕ) (answer : Result Thrown Text) → floor ≤ n → Steps floor (written n answer)
written-Steps floor n (ok hash) le = record { next = omega arith; fresh = le }
written-Steps floor n (fail err) le = record { next = tt; fresh = tt }

write_counted-Steps :
    (floor : ℕ) (w : Wire) (call : Call) (count : Result Thrown ℕ)
    → ((n : ℕ) → count ≡ ok n → floor ≤ n)
    → Steps floor (write_counted w call count)
write_counted-Steps floor w call (ok n) counts = written-Steps floor n _ (counts n refl)
write_counted-Steps floor w call (fail err) counts = record { next = tt; fresh = tt }

run-Steps :
    (floor : ℕ) (next : Option ℕ) (w : Wire) (call : Call)
    → IsAbove floor next
    → ((n : ℕ) → w.transaction_count ≡ ok n → floor ≤ n)
    → Steps floor (run next w call)
unfolding run
run-Steps floor (some n) w call le counts = written-Steps floor n _ le
run-Steps floor none w call le counts = write_counted-Steps floor w call w.transaction_count counts

IsIncreasing-cons_some :
    (floor : ℕ) (o : Option ℕ) (ns : List ℕ)
    → IsAbove floor o
    → IsIncreasing (above floor o) ns
    → IsIncreasing floor (cons_some o ns)
IsIncreasing-cons_some floor none ns fresh rest = rest
IsIncreasing-cons_some floor (some n) ns fresh rest = (fresh, rest)

-- If each pending transaction count that a send reads is past the nonces accepted before it, then
-- no two accepted writes of the queue have one nonce: their nonces increase strictly, whatever
-- sends between them fail.
pub run_queue-IsIncreasing :
    (queue : List (Wire × Call)) (floor : ℕ) (next : Option ℕ)
    → IsAbove floor next
    → CountsPending floor queue (run_queue next queue)
    → IsIncreasing floor (accepted (run_queue next queue))
unfolding run_queue
run_queue-IsIncreasing [] floor next le counts = tt
run_queue-IsIncreasing ((w, call) ∷ queue) floor next le (count, counts) =
    let r = run next w call in
    let s = run-Steps floor next w call le count in
    IsIncreasing-cons_some floor (accepted_nonce r.result r.nonce)
      (accepted (run_queue r.next_nonce queue)) s.fresh
      (run_queue-IsIncreasing queue _ r.next_nonce s.next counts)

abbrev pub range : ℕ → ℕ → List ℕ
range n zero = []
range n (suc k) = n ∷ range (n + 1) k

-- The chain accepts the write, at any nonce.
abbrev pub Accepts : Wire × Call → Type 0
Accepts (w, call) = (n : ℕ) → (hash : Text) × (w.write_contract call n ≡ ok hash)

run_queue_gapless_from :
    (queue : List (Wire × Call)) (n : ℕ)
    → All Accepts queue
    → accepted (run_queue (some n) queue) ≡ range n (length queue)
unfolding run_queue run
run_queue_gapless_from [] n h = refl
run_queue_gapless_from ((w, call) ∷ queue) n (accepts, h) =
    let (hash, e) = accepts n in rw e (ap (λ ns. n ∷ ns) (run_queue_gapless_from queue (n + 1) h))

-- While the chain accepts the writes, the transaction count is read once, by the first send, and
-- the nonces of the queue are consecutive from it.
pub run_queue_gapless :
    (n : ℕ) (w : Wire) (call : Call) (queue : List (Wire × Call))
    → w.transaction_count ≡ ok n
    → All Accepts ((w, call) ∷ queue)
    → accepted (run_queue none ((w, call) ∷ queue)) ≡ range n (suc (length queue))
unfolding run_queue run
run_queue_gapless n w call queue count (accepts, h) =
    let (hash, e) = accepts n in
    simp (count, e) (ap (λ ns. n ∷ ns) (run_queue_gapless_from queue (n + 1) h))
