-- ===== src/Process/Shutdown/Hangs.antt =====
-- When main does not get past GracefulStop.
use secureorder.Prelude.{
  ℕ, zero, suc, ◌≤◌, List, [], ◌∷◌, false, none, some, ◌≡◌, refl, arith, length, get_elem?, set,
  All, of_some, of_none, of_guard, Option-cases, Bool-cases, inl, inr, ltb, ◌==◌, ==_iff, is_empty,
}
use secureorder.Error.{Bytes}
use secureorder.Sequencing.Transaction.{EncryptedTransaction}
use secureorder.Sequencing.Queue.{
  TxQueue, admission, step, sending, SubmitRequest, LoopEvent, check_expired, commit, hand_over,
  send_expired, send_done, loop_step, submit_request, submit_parked,
}
use secureorder.Sequencing.Queue.Calls.{
  Call, CallEvent, entering, awaiting, returned, call_step, send, send_parked, get_answer, saw_done,
  saw_expired, answer_to,
}
use secureorder.Process.Shutdown.{
  server_closed, Shutdown, ShutdownEvent, main_moves, arrives, handles, admits, collects,
  ingress_ends, all_returned, with_queue, main_step, arrive, handle, end_ingress, shutdown_step,
  run_shutdown,
}

-- No caller's context expires.
abbrev pub IsPatient : ShutdownEvent → Type 0
IsPatient (handles i (saw_expired e)) = ⊥
IsPatient (admits (check_expired e)) = ⊥
IsPatient (admits (send_expired e)) = ⊥
IsPatient _ = Unit

-- The admission goroutine has a transaction that the full channel cannot take.
pub record IsBlocked (t : ℕ) (q : TxQueue) : Type 0 where
  pub request : SubmitRequest
  pub stamped : EncryptedTransaction
  pub at_send : q.loop ≡ sending request stamped
  pub no_room : q.capacity ≤ length q.ch
  pub some_buffered : is_empty q.ch ≡ false
  pub still_open : q.done ≡ false
  pub unanswered : answer_to t q.responses ≡ none

-- main is in GracefulStop, the ingress collector has ended, and the handler `i` waits for an answer.
pub record IsHung (i t : ℕ) (s : Shutdown) : Type 0 where
  pub stopping : s.phase ≡ server_closed
  pub no_ingress : s.ingress ≡ false
  pub waits : get_elem? s.handlers i ≡ some (awaiting t)
  pub blocked : IsBlocked t s.queue

waits_not_returned :
    (cs : List Call) (i t : ℕ) → get_elem? cs i ≡ some (awaiting t) → all_returned cs ≡ false
unfolding shutdown_step all_returned
waits_not_returned [] i t h = cc
waits_not_returned (entering ct ∷ cs) i t h = refl
waits_not_returned (awaiting u ∷ cs) i t h = refl
waits_not_returned (returned r ∷ cs) zero t h = cc
waits_not_returned (returned r ∷ cs) (suc i) t h = waits_not_returned cs i t h

no_room-ltb : (n k : ℕ) → k ≤ n → ltb n k ≡ false
no_room-ltb n k h = ground arith

-- The admission goroutine cannot move.
admission_stuck :
    (t : ℕ) (q : TxQueue) (e : LoopEvent)
    → IsPatient (admits e)
    → IsBlocked t q
    → step q (admission e) ≡ none
unfolding step
admission_stuck t q commit p b =
    rw (b.at_send, no_room-ltb (length q.ch) q.capacity b.no_room, loop_step) refl
admission_stuck t q hand_over p b = rw (b.at_send, b.some_buffered, loop_step) refl
admission_stuck t q send_done p b = rw (b.at_send, b.still_open, loop_step) refl
admission_stuck t q (send_expired e) p b = absurd p
admission_stuck t q (check_expired e) p b = absurd p
admission_stuck t q e p b = rw (b.at_send, loop_step) refl

submit_request-IsBlocked :
    (t : ℕ) (ct : Bytes) (q q' : TxQueue)
    → submit_request ct q ≡ some q'
    → IsBlocked t q
    → IsBlocked t q'
unfolding step
submit_request-IsBlocked t ct q q' st b = of_guard (IsBlocked t) st λ d. record {
  request = b.request;
  stamped = b.stamped;
  at_send = b.at_send;
  no_room = b.no_room;
  some_buffered = b.some_buffered;
  still_open = b.still_open;
  unanswered = b.unanswered;
}

-- A handler's move leaves the queue blocked, and is not that of the handler that waits.
call_step-IsBlocked :
    (t i : ℕ) (c : Call) (e : CallEvent) (q : TxQueue) (r : Call × TxQueue)
    → IsPatient (handles i e)
    → IsBlocked t q
    → call_step c e q ≡ some r
    → IsBlocked t r.1
unfolding call_step
call_step-IsBlocked t i (entering ct) send q r p b st = elim (Option-cases (submit_request ct q)) [
  | inl full ↦ cc (rw (full, call_step) at st)
  | inr (q', sent) ↦
      of_some (λ x. IsBlocked t x.1) (rw (sent, call_step) at st)
        (submit_request-IsBlocked t ct q q' sent b)
]
call_step-IsBlocked t i (entering ct) send_parked q r p b st =
    cc (rw (b.at_send, call_step, submit_parked) at st)
call_step-IsBlocked t i (entering ct) saw_done q r p b st =
    of_guard (λ x. IsBlocked t x.1) st λ d. b
call_step-IsBlocked t i (awaiting u) get_answer q r p b st =
    elim (Option-cases (answer_to u q.responses)) [
      | inl none_yet ↦ cc (rw (none_yet, call_step) at st)
      | inr (a, got) ↦ of_some (λ x. IsBlocked t x.1) (rw (got, call_step) at st) b
    ]
call_step-IsBlocked t i (awaiting u) saw_done q r p b st = of_guard (λ x. IsBlocked t x.1) st λ d. b
call_step-IsBlocked t i _ (saw_expired e) q r p b st = absurd p
call_step-IsBlocked t i _ _ q r p b st = of_none (λ x. IsBlocked t x.1) st

waiter_stuck :
    (t i : ℕ) (e : CallEvent) (q : TxQueue)
    → IsPatient (handles i e)
    → IsBlocked t q
    → call_step (awaiting t) e q ≡ none
unfolding call_step
waiter_stuck t i get_answer q p b = rw (b.unanswered, call_step) refl
waiter_stuck t i saw_done q p b = rw (b.still_open, call_step) refl
waiter_stuck t i (saw_expired e) q p b = absurd p
waiter_stuck t i send q p b = refl
waiter_stuck t i send_parked q p b = refl

get_elem?-set_ne :
    (cs : List Call) (i j : ℕ) (c d : Call)
    → (j == i) ≡ false
    → get_elem? cs i ≡ some d
    → get_elem? (set cs j c) i ≡ some d
get_elem?-set_ne [] i j c d ne h = h
get_elem?-set_ne (x ∷ cs) zero zero c d ne h = ground arith
get_elem?-set_ne (x ∷ cs) zero (suc j) c d ne h = h
get_elem?-set_ne (x ∷ cs) (suc i) zero c d ne h = h
get_elem?-set_ne (x ∷ cs) (suc i) (suc j) c d ne h = get_elem?-set_ne cs i j c d (ground arith) h

handle-IsHung :
    (i t j : ℕ) (e : CallEvent) (s s' : Shutdown)
    → IsPatient (handles j e)
    → IsHung i t s
    → shutdown_step (handles j e) s ≡ some s'
    → IsHung i t s'
unfolding shutdown_step
handle-IsHung i t j e s s' p h st = elim (Bool-cases (j == i)) [
  | inl same ↦
      let at_i : get_elem? s.handlers j ≡ some (awaiting t) = rw ((==_iff j i).0 same) h.waits in
      cc (rw (at_i, handle, waiter_stuck t j e s.queue p h.blocked) at st)
  | inr ne ↦ elim (Option-cases (get_elem? s.handlers j)) [
    | inl nobody ↦ cc (rw (nobody, handle) at st)
    | inr (c, there) ↦ elim (Option-cases (call_step c e s.queue)) [
      | inl stuck ↦ cc (rw (there, handle, stuck) at st)
      | inr ((c', q'), moved) ↦ of_some (IsHung i t) (rw (there, handle, moved) at st) (record {
        stopping = h.stopping;
        no_ingress = h.no_ingress;
        waits = get_elem?-set_ne s.handlers i j c' (awaiting t) ne h.waits;
        blocked = call_step-IsBlocked t j c e s.queue (c', q') p h.blocked moved;
      })
    ]
  ]
]

shutdown_step-IsHung :
    (i t : ℕ) (e : ShutdownEvent) (s s' : Shutdown)
    → IsPatient e
    → IsHung i t s
    → shutdown_step e s ≡ some s'
    → IsHung i t s'
unfolding shutdown_step
shutdown_step-IsHung i t main_moves s s' p h st =
    cc (rw (h.stopping, main_step, waits_not_returned s.handlers i t h.waits) at st)
shutdown_step-IsHung i t (arrives ct) s s' p h st = cc (rw (h.stopping, arrive) at st)
shutdown_step-IsHung i t (handles j e) s s' p h st = handle-IsHung i t j e s s' p h st
shutdown_step-IsHung i t (admits e) s s' p h st =
    cc (rw (admission_stuck t s.queue e p h.blocked, with_queue) at st)
shutdown_step-IsHung i t collects s s' p h st = cc (rw h.no_ingress at st)
shutdown_step-IsHung i t ingress_ends s s' p h st =
    of_some (IsHung i t) (rw (h.stopping, end_ingress) at st)
      (record { stopping = refl; no_ingress = refl; waits = h.waits; blocked = h.blocked })

-- If main waits in GracefulStop with the ingress collector ended, while the admission goroutine holds
-- a transaction for a full channel and a handler waits for the answer to its request, then, as
-- long as no caller's context expires, nothing ever changes that: over every schedule the handler
-- goes on waiting, and main neither returns from GracefulStop nor closes the log.
pub run_shutdown-IsHung :
    (i t : ℕ) (es : List ShutdownEvent) (s s' : Shutdown)
    → All IsPatient es
    → IsHung i t s
    → run_shutdown es s ≡ some s'
    → IsHung i t s'
unfolding run_shutdown
run_shutdown-IsHung i t [] s s' p h run = of_some (IsHung i t) run h
run_shutdown-IsHung i t (e ∷ es) s s' p h run = elim (Option-cases (shutdown_step e s)) [
  | inl stuck ↦ cc (rw (stuck, run_shutdown) at run)
  | inr (s1, st) ↦
      run_shutdown-IsHung i t es s1 s' p.1 (shutdown_step-IsHung i t e s s1 p.0 h st)
        (rw (st, run_shutdown) at run)
]
