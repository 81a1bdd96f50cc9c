-- ===== src/Process/Shutdown/Graceful.antt =====
-- What main has waited for when it closes the log.
use secureorder.Prelude.{
  List, [], ◌∷◌, Bool, true, false, Option, none, some, ◌≡◌, refl, of_some, of_none, of_guard,
  of_guard_not, Option-cases, inl, inr, get_elem?, set, ◌∙◌, ℕ, zero, suc, if◌then◌else◌,
}
use secureorder.Error.{Bytes}
use secureorder.Sequencing.Queue.Steps.{of_receive, of_reject, of_take, of_parked}
use secureorder.Sequencing.Queue.{
  TxQueue, Loop, waiting, checking, sending, rejecting, LoopEvent, see_done, receive, check_expired,
  check_done, check_passed, commit, hand_over, send_expired, send_done, reject_next, reject_end,
  take_one, loop_step, step, admission, new_tx_queue, submit_request, submit_parked,
}
use secureorder.Sequencing.Queue.Calls.{
  Call, CallEvent, entering, awaiting, returned, call_step, send, send_parked, get_answer, saw_done,
  saw_expired, answer_to,
}
use secureorder.Process.Shutdown.{
  Phase, serving, cancelled, server_closed, gracefully_stopped, log_closed, Shutdown, ShutdownEvent,
  main_moves, arrives, handles, admits, collects, ingress_ends, all_returned, with_queue, main_step,
  serving_process, arrive, handle, end_ingress, shutdown_step, run_shutdown,
}

-- The admission goroutine does not close `done`.
loop_step-done :
    (q q' : TxQueue) (l : Loop) (e : LoopEvent) → loop_step l e q ≡ some q' → q'.done ≡ q.done
unfolding step
loop_step-done q q' waiting see_done s = of_guard (λ p. p.done ≡ q.done) s λ d. refl
loop_step-done q q' waiting receive s =
    of_receive (λ p. p.done ≡ q.done) q q.submit_ch s λ req rest e. refl
loop_step-done q q' (checking req) (check_expired e) s = of_some (λ p. p.done ≡ q.done) s refl
loop_step-done q q' (checking req) check_done s = of_guard (λ p. p.done ≡ q.done) s λ d. refl
loop_step-done q q' (checking req) (check_passed now) s =
    of_guard_not (λ p. p.done ≡ q.done) s λ d. refl
loop_step-done q q' (sending req tx) commit s = of_guard (λ p. p.done ≡ q.done) s λ d. refl
loop_step-done q q' (sending req tx) hand_over s = of_guard (λ p. p.done ≡ q.done) s λ d. refl
loop_step-done q q' (sending req tx) (send_expired e) s = of_some (λ p. p.done ≡ q.done) s refl
loop_step-done q q' (sending req tx) send_done s = of_guard (λ p. p.done ≡ q.done) s λ d. refl
loop_step-done q q' rejecting reject_next s =
    of_reject (λ p. p.done ≡ q.done) q q.submit_ch s λ req rest e. refl
loop_step-done q q' rejecting reject_end s = of_guard (λ p. p.done ≡ q.done) s λ d. refl
loop_step-done q q' _ _ s = of_none (λ p. p.done ≡ q.done) s

take_one-done : (q q' : TxQueue) → step q take_one ≡ some q' → q'.done ≡ q.done
unfolding step
take_one-done q q' s = of_take (λ p. p.done ≡ q.done) q q.ch s λ tx rest e. refl

-- A handler does not close `done` either.
call_step-done :
    (c : Call) (e : CallEvent) (q : TxQueue) (r : Call × TxQueue)
    → call_step c e q ≡ some r
    → r.1.done ≡ q.done
unfolding call_step step
call_step-done (entering ct) send q r s = elim (Option-cases (submit_request ct q)) [
  | inl n ↦ of_none (λ x. x.1.done ≡ q.done) (rw (n, call_step) at s)
  | inr (q', e) ↦
      of_some (λ x. x.1.done ≡ q.done) (rw (e, call_step) at s)
        (of_guard (λ p. p.done ≡ q.done) e λ d. refl)
]
call_step-done (entering ct) send_parked q r s = elim (Option-cases (submit_parked q.loop ct q)) [
  | inl n ↦ of_none (λ x. x.1.done ≡ q.done) (rw (n, call_step) at s)
  | inr (q', e) ↦
      of_some (λ x. x.1.done ≡ q.done) (rw (e, call_step) at s)
        (of_parked (λ p. p.done ≡ q.done) q q.loop ct e (λ l nil. refl) (λ l nil. refl))
]
call_step-done (entering ct) saw_done q r s = of_guard (λ x. x.1.done ≡ q.done) s λ d. refl
call_step-done (entering ct) (saw_expired e) q r s = of_some (λ x. x.1.done ≡ q.done) s refl
call_step-done (awaiting t) get_answer q r s = elim (Option-cases (answer_to t q.responses)) [
  | inl n ↦ of_none (λ x. x.1.done ≡ q.done) (rw (n, call_step) at s)
  | inr (a, e) ↦ of_some (λ x. x.1.done ≡ q.done) (rw (e, call_step) at s) refl
]
call_step-done (awaiting t) saw_done q r s = of_guard (λ x. x.1.done ≡ q.done) s λ d. refl
call_step-done (awaiting t) (saw_expired e) q r s = of_some (λ x. x.1.done ≡ q.done) s refl
call_step-done _ _ q r s = of_none (λ x. x.1.done ≡ q.done) s

-- Until main is past GracefulStop the log is open; from there on no call is in flight.
abbrev IsPhase : Phase → Shutdown → Type 0
IsPhase gracefully_stopped s = all_returned s.handlers ≡ true
IsPhase log_closed s = all_returned s.handlers ≡ true
IsPhase _ s = s.queue.done ≡ false

abbrev IsGraceful : Shutdown → Type 0
IsGraceful s = IsPhase s.phase s

IsPhase-kept :
    (p : Phase) (s s' : Shutdown)
    → s'.queue.done ≡ s.queue.done
    → (all_returned s.handlers ≡ true → all_returned s'.handlers ≡ true)
    → IsPhase p s
    → IsPhase p s'
IsPhase-kept serving s s' d k h = d ∙ h
IsPhase-kept cancelled s s' d k h = d ∙ h
IsPhase-kept server_closed s s' d k h = d ∙ h
IsPhase-kept gracefully_stopped s s' d k h = k h
IsPhase-kept log_closed s s' d k h = k h

-- A call that has returned does not move, so a handler's move needs one that has not.
all_returned-set :
    (cs : List Call) (i : ℕ) (c c' : Call) (e : CallEvent) (q q' : TxQueue)
    → get_elem? cs i ≡ some c
    → call_step c e q ≡ some (c', q')
    → all_returned cs ≡ true
    → all_returned (set cs i c') ≡ true
unfolding call_step all_returned
all_returned-set [] i c c' e q q' g s h = h
all_returned-set (entering ct ∷ cs) i c c' e q q' g s h = cc
all_returned-set (awaiting t ∷ cs) i c c' e q q' g s h = cc
all_returned-set (returned r ∷ cs) zero c c' e q q' g s h =
    of_some (λ x. call_step x e q ≡ some (c', q') → all_returned (c' ∷ cs) ≡ true) g (λ m. cc) s
all_returned-set (returned r ∷ cs) (suc i) c c' e q q' g s h =
    all_returned-set cs i c c' e q q' g s h

main_step-IsGraceful :
    (p : Phase) (s s' : Shutdown) → IsPhase p s → main_step p s ≡ some s' → IsGraceful s'
unfolding shutdown_step step
main_step-IsGraceful serving s s' h st = of_some IsGraceful st h
main_step-IsGraceful cancelled s s' h st = of_some IsGraceful st h
main_step-IsGraceful server_closed s s' h st = of_guard IsGraceful st λ all. all
main_step-IsGraceful gracefully_stopped s s' h st = of_some IsGraceful st h
main_step-IsGraceful log_closed s s' h st = of_none IsGraceful st

arrive-IsGraceful :
    (p : Phase) (ct : Bytes) (s s' : Shutdown)
    → s.phase ≡ p
    → IsPhase p s
    → arrive p ct s ≡ some s'
    → IsGraceful s'
unfolding shutdown_step
arrive-IsGraceful serving ct s s' e h st = of_some IsGraceful st (rw e h)
arrive-IsGraceful cancelled ct s s' e h st = of_some IsGraceful st (rw e h)
arrive-IsGraceful _ ct s s' e h st = of_none IsGraceful st

end_ingress-IsGraceful :
    (p : Phase) (s s' : Shutdown) → IsGraceful s → end_ingress p s ≡ some s' → IsGraceful s'
unfolding shutdown_step
end_ingress-IsGraceful serving s s' h st = of_none IsGraceful st
end_ingress-IsGraceful _ s s' h st =
    of_some IsGraceful st (IsPhase-kept s.phase s (record s { ingress = false }) refl (λ x. x) h)

-- A move of the queue that keeps `done`.
with_queue-IsGraceful :
    (m : Option TxQueue) (s s' : Shutdown)
    → ((q : TxQueue) → m ≡ some q → q.done ≡ s.queue.done)
    → IsGraceful s
    → with_queue m s ≡ some s'
    → IsGraceful s'
unfolding with_queue
with_queue-IsGraceful none s s' k h st = of_none IsGraceful st
with_queue-IsGraceful (some q) s s' k h st =
    of_some IsGraceful st (IsPhase-kept s.phase s (record s { queue = q }) (k q refl) (λ x. x) h)

collects-IsGraceful :
    (b : Bool) (s s' : Shutdown)
    → IsGraceful s
    → (if b then with_queue (step s.queue take_one) s else none) ≡ some s'
    → IsGraceful s'
collects-IsGraceful true s s' h st =
    with_queue-IsGraceful (step s.queue take_one) s s' (λ q m. take_one-done s.queue q m) h st
collects-IsGraceful false s s' h st = of_none IsGraceful st

handle-IsGraceful :
    (i : ℕ) (e : CallEvent) (s s' : Shutdown)
    → IsGraceful s
    → handle i e (get_elem? s.handlers i) s ≡ some s'
    → IsGraceful s'
unfolding shutdown_step
handle-IsGraceful i e s s' h st = elim (Option-cases (get_elem? s.handlers i)) [
  | inl nobody ↦ cc (rw (nobody, handle) at st)
  | inr (c, there) ↦ elim (Option-cases (call_step c e s.queue)) [
    | inl stuck ↦ cc (rw (there, handle, stuck) at st)
    | inr ((c', q'), moved) ↦ of_some IsGraceful (rw (there, handle, moved) at st) (
        IsPhase-kept s.phase s (record s { queue = q'; handlers = set s.handlers i c' })
          (call_step-done c e s.queue (c', q') moved)
          (all_returned-set s.handlers i c c' e s.queue q' there moved) h)
  ]
]

shutdown_step-IsGraceful :
    (e : ShutdownEvent) (s s' : Shutdown)
    → IsGraceful s
    → shutdown_step e s ≡ some s'
    → IsGraceful s'
unfolding shutdown_step
shutdown_step-IsGraceful main_moves s s' h st = main_step-IsGraceful s.phase s s' h st
shutdown_step-IsGraceful (arrives ct) s s' h st = arrive-IsGraceful s.phase ct s s' refl h st
shutdown_step-IsGraceful (handles i e) s s' h st = handle-IsGraceful i e s s' h st
shutdown_step-IsGraceful (admits e) s s' h st =
    with_queue-IsGraceful (step s.queue (admission e)) s s'
      (λ q m. loop_step-done s.queue q s.queue.loop e (unfold step in m)) h st
shutdown_step-IsGraceful collects s s' h st = collects-IsGraceful s.ingress s s' h st
shutdown_step-IsGraceful ingress_ends s s' h st = end_ingress-IsGraceful s.phase s s' h st

run_shutdown-IsGraceful :
    (es : List ShutdownEvent) (s s' : Shutdown)
    → IsGraceful s
    → run_shutdown es s ≡ some s'
    → IsGraceful s'
unfolding run_shutdown
run_shutdown-IsGraceful [] s s' h run = of_some IsGraceful run h
run_shutdown-IsGraceful (e ∷ es) s s' h run = elim (Option-cases (shutdown_step e s)) [
  | inl stuck ↦ cc (rw (stuck, run_shutdown) at run)
  | inr (s1, st) ↦
      run_shutdown-IsGraceful es s1 s' (shutdown_step-IsGraceful e s s1 h st)
        (rw (st, run_shutdown) at run)
]

closed-all_returned :
    (p : Phase) (s : Shutdown) → IsPhase p s → s.queue.done ≡ true → all_returned s.handlers ≡ true
closed-all_returned gracefully_stopped s h d = h
closed-all_returned log_closed s h d = h
closed-all_returned serving s h d = cc
closed-all_returned cancelled s h d = cc
closed-all_returned server_closed s h d = cc

-- Over every schedule of main, the handlers, the admission goroutine and the ingress collector, from
-- a serving process with a new queue on: when the log is closed, every handler of SubmitTx has
-- returned, so the shutdown itself makes no call fail with a closed queue.
pub run_shutdown-all_returned :
    (capacity : ℕ) (es : List ShutdownEvent) (s : Shutdown)
    → run_shutdown es (serving_process capacity) ≡ some s
    → s.queue.done ≡ true
    → all_returned s.handlers ≡ true
unfolding serving_process new_tx_queue
run_shutdown-all_returned capacity es s run closed =
    closed-all_returned s.phase s (run_shutdown-IsGraceful es (serving_process capacity) s refl run)
      closed
