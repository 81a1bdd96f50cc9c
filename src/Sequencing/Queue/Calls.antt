-- ===== src/Sequencing/Queue/Calls.antt =====
-- The caller's side of `SubmitWithReceipt`: its two `select` statements, and what a receipt that it
-- returns is worth.
use mathlib.Core.Option.{some-injective}
use secureorder.Prelude.{
  append-nil, map-append, ℕ, ◌<◌, List, [], ◌∷◌, ◌++◌, map, Option, none, some, ◌≡◌, refl, ◌∙◌,
  arith, append_assoc, All, All-append, All-append-left, All-imp, of_some, of_guard, of_none, ◌==◌,
  if◌then◌else◌, Bool-cases, inl, inr, ==_iff,
}
use secureorder.Prelude.{Result, ok, err}
use secureorder.Error.{Bytes, GoError, queue_closed}
use secureorder.Sequencing.Transaction.{EncryptedTransaction}
use secureorder.Sequencing.Queue.Steps.{of_parked}
use secureorder.Sequencing.Queue.Receipts.{
  requests, held, receipts, add_receipt, add_receipt-append, IsFaithful, IsAccounted,
  step-IsAccounted,
}
use secureorder.Sequencing.Queue.Sent.{Carries, IsNumbered, run-IsNumbered, Owns, run-Owns}
use secureorder.Sequencing.Queue.Runs.{run-IsAccounted, new-IsAccounted}
use secureorder.Sequencing.Queue.{
  TxQueue, Event, submit, submit_direct, step, run, history, new_tx_queue, SubmitResponse,
  submit_request, submit_parked,
}

-- A call of SubmitWithReceipt with a payload: before its first `select`, waiting for the answer to
-- its request at the second, or returned.
pub data Call : Type 0 where
  entering : Bytes → Call
  awaiting : ℕ → Call
  returned : Result GoError EncryptedTransaction → Call

pub data CallEvent : Type 0 where
  send : CallEvent
  send_parked : CallEvent
  get_answer : CallEvent
  saw_done : CallEvent
  saw_expired : GoError → CallEvent

-- The content of the `resp` channel of a call.
pub answer_to : ℕ → List SubmitResponse → Option (Result GoError EncryptedTransaction)
answer_to t [] = none
answer_to t (r ∷ rs) = if r.request.ticket == t then some r.answer else answer_to t rs

pub and_call : Call → Option TxQueue → Option (Call × TxQueue)
and_call c none = none
and_call c (some q) = some (c, q)

pub and_queue : TxQueue → Option (Result GoError EncryptedTransaction) → Option (Call × TxQueue)
and_queue q none = none
and_queue q (some a) = some (returned a, q)

unfoldable pub call_step : Call → CallEvent → TxQueue → Option (Call × TxQueue)
unfolding answer_to and_call and_queue submit_request submit_parked
call_step (entering ct) send q = and_call (awaiting q.calls) (submit_request ct q)
call_step (entering ct) send_parked q = and_call (awaiting q.calls) (submit_parked q.loop ct q)
call_step (entering ct) saw_done q = if q.done then some (returned (err queue_closed), q) else none
call_step (entering ct) (saw_expired e) q = some (returned (err e), q)
call_step (awaiting t) get_answer q = and_queue q (answer_to t q.responses)
call_step (awaiting t) saw_done q = if q.done then some (returned (err queue_closed), q) else none
call_step (awaiting t) (saw_expired e) q = some (returned (err e), q)
call_step _ _ q = none

-- `Submit` keeps only the error of SubmitWithReceipt.
unfoldable pub submit_error : Result GoError EncryptedTransaction → Option GoError
submit_error (ok tx) = none
submit_error (err e) = some e

-- The request that a call sends carries its payload, and no other request has its ticket.
of_submit :
    (q q' : TxQueue) (ct : Bytes)
    → IsNumbered q
    → submit_request ct q ≡ some q'
    → Owns q.calls ct q'
unfolding submit_request
of_submit q q' ct n s = of_guard (Owns q.calls ct) s λ d. record {
  carried =
      rw (← append_assoc (held q.loop), ← append_assoc (map (λ r. r.request) q.responses))
        (All-append (Carries q.calls ct) (requests q.loop q) _
          (All-imp _ (Carries q.calls ct) (requests q.loop q) (λ r lt same. absurd (omega arith)) n)
          ((λ same. refl), tt));
  past = omega arith;
}

of_submit_parked :
    (q q' : TxQueue) (ct : Bytes)
    → IsNumbered q
    → submit_parked q.loop ct q ≡ some q'
    → Owns q.calls ct q'
unfolding step
of_submit_parked q q' ct n s =
    let past_ones =
      All-append (Carries q.calls ct) (map (λ r. r.request) q.responses)
        (record { ticket = q.calls; ciphertext = ct } ∷ [])
        (All-imp _ (Carries q.calls ct) (map (λ r. r.request) q.responses)
          (λ r lt same. absurd (omega arith))
          (All-append-left (λ r. r.ticket < q.calls) (map (λ r. r.request) q.responses) _ n))
        ((λ same. refl), tt) in
    of_parked (Owns q.calls ct) q q.loop ct s
      (λ e nil. record { carried = rw nil past_ones; past = omega arith })
      (λ e nil. record { carried = rw (nil, append-nil, map-append) past_ones; past = omega arith })

abbrev OwnsAwaiting : Bytes → Call × TxQueue → Type 0
OwnsAwaiting ct (awaiting t, q) = Owns t ct q × IsAccounted q
OwnsAwaiting ct (_, q) = Unit

of_and_call :
    (c : Call) (m : Option TxQueue) (cq : Call × TxQueue) (ct : Bytes)
    → and_call c m ≡ some cq
    → ((q : TxQueue) → m ≡ some q → OwnsAwaiting ct (c, q))
    → OwnsAwaiting ct cq
unfolding and_call
of_and_call c none cq ct e k = of_none (OwnsAwaiting ct) e
of_and_call c (some q) cq ct e k = of_some (OwnsAwaiting ct) e (k q refl)

entering-Owns :
    (ct : Bytes) (ev : CallEvent) (q : TxQueue) (cq : Call × TxQueue)
    → IsNumbered q
    → IsAccounted q
    → call_step (entering ct) ev q ≡ some cq
    → OwnsAwaiting ct cq
unfolding call_step step
entering-Owns ct send q cq n a s =
    of_and_call _ _ cq ct s (λ p e. (of_submit q p ct n e, step-IsAccounted q p (submit ct) e a))
entering-Owns ct send_parked q cq n a s =
    of_and_call _ _ cq ct s
      (λ p e. (of_submit_parked q p ct n e, step-IsAccounted q p (submit_direct ct) e a))
entering-Owns ct saw_done q cq n a s = of_guard (OwnsAwaiting ct) s (λ d. tt)
entering-Owns ct (saw_expired e) q cq n a s = of_some (OwnsAwaiting ct) s tt
entering-Owns ct _ q cq n a s = of_none (OwnsAwaiting ct) s

-- The transaction carries the payload and is among the given ones.
abbrev pub Receipt : Bytes → EncryptedTransaction → List EncryptedTransaction → Type 0
Receipt ct tx txs =
    (tx.ciphertext ≡ ct)
    × (before : List EncryptedTransaction) × (after : List EncryptedTransaction) × (txs
        ≡ before ++ tx ∷ after)

answer_sound :
    (t : ℕ) (ct : Bytes) (tx : EncryptedTransaction) (rs : List SubmitResponse)
    → All IsFaithful rs
    → All (Carries t ct) (map (λ r. r.request) rs)
    → answer_to t rs ≡ some (ok tx)
    → Receipt ct tx (receipts rs)
unfolding answer_to
answer_sound t ct tx [] f c a = of_none (λ _. Receipt ct tx []) a
answer_sound t ct tx (r ∷ rs) f c a = elim (Bool-cases (r.request.ticket == t)) [
  | inl same ↦
      let e : r.answer ≡ ok tx = some-injective _ _ (rw same at a) in
      (f.0 tx e ∙ c.0 ((==_iff _ t).0 same), [], receipts rs, rw e)
  | inr other ↦
      let (p, before, after, e) = answer_sound t ct tx rs f.1 c.1 (rw other at a) in
      (
        p,
        add_receipt r.answer before,
        after,
        rw e (add_receipt-append r.answer before (tx ∷ after)),
      )
]

of_and_queue :
    (q : TxQueue) (m : Option (Result GoError EncryptedTransaction)) (tx : EncryptedTransaction)
    (q' : TxQueue)
    → and_queue q m ≡ some (returned (ok tx), q')
    → m ≡ some (ok tx)
unfolding and_queue
of_and_queue q none tx q' e = cc
of_and_queue q (some a) tx q' e = cc

-- A receipt that SubmitWithReceipt returns is worth its name: whatever the other goroutines do
-- between the call's two `select` statements, the transaction carries the payload of this call and
-- stands in the committed history.
pub Receipt-sound :
    (capacity : ℕ) (es es' : List Event) (q₀ q₁ q₂ q₃ : TxQueue) (ct : Bytes) (ev : CallEvent)
    (t : ℕ) (tx : EncryptedTransaction)
    → run (new_tx_queue capacity) es ≡ some q₀
    → call_step (entering ct) ev q₀ ≡ some (awaiting t, q₁)
    → run q₁ es' ≡ some q₂
    → call_step (awaiting t) get_answer q₂ ≡ some (returned (ok tx), q₃)
    → Receipt ct tx (history q₂)
unfolding call_step new_tx_queue
Receipt-sound capacity es es' q₀ q₁ q₂ q₃ ct ev t tx r₀ s r₁ got =
    let a₀ = run-IsAccounted _ q₀ es r₀ (new-IsAccounted capacity) in
    let (o₁, a₁) =
      entering-Owns ct ev q₀ (awaiting t, q₁) (run-IsNumbered (new_tx_queue capacity) q₀ es r₀ tt)
        a₀ s in
    let a₂ = run-IsAccounted q₁ q₂ es' r₁ a₁ in
    let o₂ = run-Owns t ct q₁ q₂ es' r₁ o₁ in
    rw (← a₂.exact) (
      answer_sound t ct tx q₂.responses a₂.faithful
        (All-append-left (Carries t ct) (map (λ r. r.request) q₂.responses) _ o₂.carried)
        (of_and_queue q₂ (answer_to t q₂.responses) tx q₃ got))
