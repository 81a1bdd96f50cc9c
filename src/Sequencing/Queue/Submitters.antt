-- ===== src/Sequencing/Queue/Submitters.antt =====
-- The moves of the callers of SubmitWithReceipt as steps of `TxQueue`.
use secureorder.Prelude.{
  List, [], ◌∷◌, some, ◌≡◌, refl, ◌∙◌, All, of_some, of_guard, of_none, Option-cases, inl, inr, ◌≤◌,
  length, arith,
}
use secureorder.Error.{Bytes}
use secureorder.Sequencing.Queue.Steps.{run-cons, of_run-step}
use secureorder.Sequencing.Queue.Sent.{Brings}
use secureorder.Sequencing.Queue.Waits.{IsOthers, step-taken}
use secureorder.Sequencing.Queue.WaitSteps.{IsReached}
use secureorder.Sequencing.Queue.Calls.{
  Call, CallEvent, entering, awaiting, send, send_parked, get_answer, saw_done, saw_expired,
  call_step, answer_to,
}
use secureorder.Sequencing.Queue.{
  TxQueue, Event, submit, submit_direct, step, run, submit_request, submit_parked,
}

-- The steps of the queue that a move of a caller takes.
abbrev pub call_moves : Call → CallEvent → List Event
call_moves (entering ct) send = submit ct ∷ []
call_moves (entering ct) send_parked = submit_direct ct ∷ []
call_moves _ _ = []

one_step : (q q' : TxQueue) (e : Event) → step q e ≡ some q' → run q (e ∷ []) ≡ some q'
one_step q q' e s = run-cons q q' q' e [] s (unfold run in refl)

pub run-call_moves :
    (c : Call) (e : CallEvent) (q : TxQueue) (r : Call × TxQueue)
    → call_step c e q ≡ some r
    → run q (call_moves c e) ≡ some r.1
unfolding call_step run
run-call_moves (entering ct) send q r s = elim (Option-cases (submit_request ct q)) [
  | inl n ↦ of_none (λ x. run q (submit ct ∷ []) ≡ some x.1) (rw (n, call_step) at s)
  | inr (q', e) ↦
      of_some (λ x. run q (submit ct ∷ []) ≡ some x.1) (rw (e, call_step) at s)
        (one_step q q' (submit ct) (unfold step in e))
]
run-call_moves (entering ct) send_parked q r s = elim (Option-cases (submit_parked q.loop ct q)) [
  | inl n ↦ of_none (λ x. run q (submit_direct ct ∷ []) ≡ some x.1) (rw (n, call_step) at s)
  | inr (q', e) ↦
      of_some (λ x. run q (submit_direct ct ∷ []) ≡ some x.1) (rw (e, call_step) at s)
        (one_step q q' (submit_direct ct) (unfold step in e))
]
run-call_moves (entering ct) saw_done q r s = of_guard (λ x. some q ≡ some x.1) s λ d. refl
run-call_moves (entering ct) (saw_expired e) q r s = of_some (λ x. some q ≡ some x.1) s refl
run-call_moves (awaiting t) get_answer q r s = elim (Option-cases (answer_to t q.responses)) [
  | inl n ↦ of_none (λ x. some q ≡ some x.1) (rw (n, call_step) at s)
  | inr (a, e) ↦ of_some (λ x. some q ≡ some x.1) (rw (e, call_step) at s) refl
]
run-call_moves (awaiting t) saw_done q r s = of_guard (λ x. some q ≡ some x.1) s λ d. refl
run-call_moves (awaiting t) (saw_expired e) q r s = of_some (λ x. some q ≡ some x.1) s refl
run-call_moves _ _ q r s = of_none (λ x. some q ≡ some x.1) s

-- The payload of a call that has not returned.
abbrev pub IsMadeCall {κ} : (Bytes → Type κ) → Call → Type κ
IsMadeCall P (entering ct) = P ct
IsMadeCall P _ = Unit

pub call_moves-Brings {κ} :
    (P : Bytes → Type κ) (c : Call) (e : CallEvent)
    → IsMadeCall P c
    → All (Brings P) (call_moves c e)
call_moves-Brings P (entering ct) send h = (h, tt)
call_moves-Brings P (entering ct) send_parked h = (h, tt)
call_moves-Brings P _ _ h = tt

-- Once its request is sent, a call has no payload to send any more.
pub call_step-IsMadeCall {κ} :
    (P : Bytes → Type κ) (c : Call) (e : CallEvent) (q : TxQueue) (r : Call × TxQueue)
    → call_step c e q ≡ some r
    → IsMadeCall P r.0
unfolding call_step
call_step-IsMadeCall P (entering ct) send q r s = elim (Option-cases (submit_request ct q)) [
  | inl n ↦ of_none (λ x. IsMadeCall P x.0) (rw (n, call_step) at s)
  | inr (q', e) ↦ of_some (λ x. IsMadeCall P x.0) (rw (e, call_step) at s) tt
]
call_step-IsMadeCall P (entering ct) send_parked q r s =
    elim (Option-cases (submit_parked q.loop ct q)) [
      | inl n ↦ of_none (λ x. IsMadeCall P x.0) (rw (n, call_step) at s)
      | inr (q', e) ↦ of_some (λ x. IsMadeCall P x.0) (rw (e, call_step) at s) tt
    ]
call_step-IsMadeCall P (entering ct) saw_done q r s = of_guard (λ x. IsMadeCall P x.0) s λ d. tt
call_step-IsMadeCall P (entering ct) (saw_expired e) q r s = of_some (λ x. IsMadeCall P x.0) s tt
call_step-IsMadeCall P (awaiting t) get_answer q r s =
    elim (Option-cases (answer_to t q.responses)) [
      | inl n ↦ of_none (λ x. IsMadeCall P x.0) (rw (n, call_step) at s)
      | inr (a, e) ↦ of_some (λ x. IsMadeCall P x.0) (rw (e, call_step) at s) tt
    ]
call_step-IsMadeCall P (awaiting t) saw_done q r s = of_guard (λ x. IsMadeCall P x.0) s λ d. tt
call_step-IsMadeCall P (awaiting t) (saw_expired e) q r s = of_some (λ x. IsMadeCall P x.0) s tt
call_step-IsMadeCall P _ _ q r s = of_none (λ x. IsMadeCall P x.0) s

-- Callers receive nothing from the channel.
pub call_moves-IsOthers : (c : Call) (e : CallEvent) → All IsOthers (call_moves c e)
call_moves-IsOthers (entering ct) send = (tt, tt)
call_moves-IsOthers (entering ct) send_parked = (tt, tt)
call_moves-IsOthers _ _ = tt

pub run-taken :
    (q q' : TxQueue) (es : List Event) → All IsOthers es → run q es ≡ some q' → q'.taken ≡ q.taken
run-taken q q' [] o r =
    let e : some q ≡ some q' = (unfold run in r) in of_some (λ p. p.taken ≡ q.taken) e refl
run-taken q q' (e ∷ es) o r =
    let (p, s, rest) = of_run-step q q' e es r in
    run-taken p q' es o.1 rest ∙ step-taken q p e o.0 s

-- What a move of a caller does to the queue.
pub record IsCallMove {κ} (P : Bytes → Type κ) (q : TxQueue) (r : Call × TxQueue) : Type κ where
  pub reached : IsReached P 1 q r.1
  pub untaken : r.1.taken ≡ q.taken
  pub made : IsMadeCall P r.0

call_moves-short : (c : Call) (e : CallEvent) → length (call_moves c e) ≤ 1
call_moves-short (entering ct) send = omega arith
call_moves-short (entering ct) send_parked = omega arith
call_moves-short _ _ = omega arith

pub call_step-IsCallMove {κ} :
    (P : Bytes → Type κ) (c : Call) (e : CallEvent) (q : TxQueue) (r : Call × TxQueue)
    → IsMadeCall P c
    → call_step c e q ≡ some r
    → IsCallMove P q r
call_step-IsCallMove P c e q r h s = record {
  reached = record {
    events = call_moves c e;
    short = call_moves-short c e;
    possible = run-call_moves c e q r s;
    made = call_moves-Brings P c e h;
  };
  untaken = run-taken q r.1 (call_moves c e) (call_moves-IsOthers c e) (run-call_moves c e q r s);
  made = call_step-IsMadeCall P c e q r s;
}
