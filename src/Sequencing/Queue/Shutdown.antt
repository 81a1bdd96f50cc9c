-- ===== src/Sequencing/Queue/Shutdown.antt =====
-- Shutdown of `TxQueue`: after Close the admission goroutine cannot be stuck, what it can still do is
-- bounded by the requests it gets, and when it returns every request is answered.
use secureorder.Prelude.{
  ℕ, ◌+◌, ◌*◌, ◌≤◌, ◌<◌, List, [], ◌∷◌, some, ◌≡◌, ◌≢◌, refl, arith, append-nil, of_some, of_guard,
  of_none, length, length-append, map, true,
}
use secureorder.Prelude.{err}
use secureorder.Error.{Bytes, queue_closed}
use secureorder.Sequencing.Transaction.{EncryptedTransaction}
use secureorder.Sequencing.Queue.Steps.{of_receive, of_reject, of_run-step, run-cons}
use secureorder.Sequencing.Queue.Receipts.{IsAccounted, tickets, upto}
use secureorder.Sequencing.Queue.Runs.{run-IsAccounted, new-IsAccounted}
use secureorder.Sequencing.Queue.{
  TxQueue, Loop, waiting, checking, sending, rejecting, stopped, LoopEvent, see_done, receive,
  check_expired, check_done, check_passed, commit, hand_over, send_expired, send_done, reject_next,
  reject_end, Event, admission, submit, submit_direct, take_one, close, submit_parked, take_from,
  loop_step, step, run, new_tx_queue, SubmitRequest, respond,
}

-- How many more steps the goroutine can make once `done` is closed, with `n` requests waiting.
abbrev pub steps_left : Loop → ℕ → ℕ
steps_left waiting n = 3 * n + 2
steps_left (checking req) n = 3 * n + 4
steps_left (sending req tx) n = 3 * n + 3
steps_left rejecting n = n + 1
steps_left stopped n = 0

abbrev pub work_left : TxQueue → ℕ
work_left q = steps_left q.loop (length q.submit_ch)

record IsDescent (n : ℕ) (q' : TxQueue) : Type 0 where
  closing : q'.done ≡ true
  fewer : work_left q' < n

loop_step-IsDescent :
    (q q' : TxQueue) (l : Loop) (e : LoopEvent)
    → q.done ≡ true
    → loop_step l e q ≡ some q'
    → IsDescent (steps_left l (length q.submit_ch)) q'
unfolding step
loop_step-IsDescent q q' waiting see_done c s =
    of_guard (IsDescent _) s λ d. record { closing = c; fewer = omega arith }
loop_step-IsDescent q q' waiting receive c s =
    of_receive (IsDescent _) q q.submit_ch s
      λ req rest e. record { closing = c; fewer = rw e (omega arith) }
loop_step-IsDescent q q' (checking req) (check_expired e) c s =
    of_some (IsDescent _) s (record { closing = c; fewer = omega arith })
loop_step-IsDescent q q' (checking req) check_done c s =
    of_guard (IsDescent _) s λ d. record { closing = c; fewer = omega arith }
loop_step-IsDescent q q' (checking req) (check_passed now) c s = of_none (IsDescent _) (rw c at s)
loop_step-IsDescent q q' (sending req tx) commit c s =
    of_guard (IsDescent _) s λ d. record { closing = c; fewer = omega arith }
loop_step-IsDescent q q' (sending req tx) hand_over c s =
    of_guard (IsDescent _) s λ d. record { closing = c; fewer = omega arith }
loop_step-IsDescent q q' (sending req tx) (send_expired e) c s =
    of_some (IsDescent _) s (record { closing = c; fewer = omega arith })
loop_step-IsDescent q q' (sending req tx) send_done c s =
    of_guard (IsDescent _) s λ d. record { closing = c; fewer = omega arith }
loop_step-IsDescent q q' rejecting reject_next c s =
    of_reject (IsDescent _) q q.submit_ch s
      λ req rest e. record { closing = c; fewer = rw e (omega arith) }
loop_step-IsDescent q q' rejecting reject_end c s =
    of_guard (IsDescent _) s λ d. record { closing = c; fewer = omega arith }
loop_step-IsDescent q q' _ _ c s = of_none (IsDescent _) s

-- The steps of the admission goroutine in a schedule of all goroutines.
abbrev pub admission_steps : List Event → ℕ
admission_steps [] = 0
admission_steps (admission e ∷ es) = 1 + admission_steps es
admission_steps (_ ∷ es) = admission_steps es

-- The requests that are sent to it during the schedule.
abbrev pub submissions : List Event → ℕ
submissions [] = 0
submissions (submit ct ∷ es) = 1 + submissions es
submissions (submit_direct ct ∷ es) = 1 + submissions es
submissions (_ ∷ es) = submissions es

-- A step of another goroutine gives the admission goroutine at most `extra` more to do.
record IsLoad (n extra : ℕ) (q' : TxQueue) : Type 0 where
  still_closing : q'.done ≡ true
  at_most : work_left q' ≤ n + extra

steps_left-snoc : (l : Loop) (n : ℕ) → steps_left l (n + 1) ≤ steps_left l n + 3
steps_left-snoc waiting n = omega arith
steps_left-snoc (checking req) n = omega arith
steps_left-snoc (sending req tx) n = omega arith
steps_left-snoc rejecting n = omega arith
steps_left-snoc stopped n = omega arith

submit-IsLoad :
    (q q' : TxQueue) (ct : Bytes)
    → q.done ≡ true
    → step q (submit ct) ≡ some q'
    → IsLoad (work_left q) 3 q'
unfolding step
submit-IsLoad q q' ct c s = of_guard (IsLoad (work_left q) 3) s λ d. record {
  still_closing = c;
  at_most =
      rw (length-append q.submit_ch (record { ticket = q.calls; ciphertext = ct } ∷ []))
        (steps_left-snoc q.loop (length q.submit_ch));
}

submit_parked-IsLoad :
    (l : Loop) (q q' : TxQueue) (ct : Bytes)
    → q.done ≡ true
    → submit_parked l ct q ≡ some q'
    → IsLoad (steps_left l (length q.submit_ch)) 3 q'
unfolding step
submit_parked-IsLoad waiting q q' ct c s =
    of_guard (IsLoad (steps_left waiting (length q.submit_ch)) 3) s
      λ d. record { still_closing = c; at_most = omega arith }
submit_parked-IsLoad (checking req) q q' ct c s = of_none (IsLoad _ 3) s
submit_parked-IsLoad (sending req tx) q q' ct c s = of_none (IsLoad _ 3) s
submit_parked-IsLoad rejecting q q' ct c s =
    of_guard (IsLoad (steps_left rejecting (length q.submit_ch)) 3) s
      λ d. record { still_closing = c; at_most = omega arith }
submit_parked-IsLoad stopped q q' ct c s = of_none (IsLoad _ 3) s

take_from-IsLoad :
    (ch : List EncryptedTransaction) (q q' : TxQueue)
    → q.done ≡ true
    → take_from ch q ≡ some q'
    → IsLoad (work_left q) 0 q'
unfolding step
take_from-IsLoad [] q q' c s = of_none (IsLoad _ 0) s
take_from-IsLoad (tx ∷ rest) q q' c s =
    of_some (IsLoad (work_left q) 0) s (record { still_closing = c; at_most = omega arith })

close-IsLoad : (q q' : TxQueue) → q.done ≡ true → step q close ≡ some q' → IsLoad (work_left q) 0 q'
unfolding step
close-IsLoad q q' c s =
    of_some (IsLoad (work_left q) 0) s (record { still_closing = refl; at_most = omega arith })

-- Once `done` is closed, whatever the other goroutines do and whatever cases the `select` statements
-- take, the admission goroutine makes at most `work_left` steps and three more for each request
-- that is sent to it meanwhile.
pub shutdown_terminates :
    (q q' : TxQueue) (es : List Event)
    → q.done ≡ true
    → run q es ≡ some q'
    → admission_steps es + work_left q' ≤ work_left q + 3 * submissions es
unfolding run
shutdown_terminates q q' [] c r =
    of_some (λ p. 0 + work_left p ≤ work_left q + 3 * 0) r (omega arith)
shutdown_terminates q q' (admission e ∷ es) c r =
    let (p, st, rest) = of_run-step q q' (admission e) es r in
    let d = loop_step-IsDescent q p q.loop e c (unfold step in st) in
    omega (arith, d.fewer, shutdown_terminates p q' es d.closing rest)
shutdown_terminates q q' (submit ct ∷ es) c r =
    let (p, st, rest) = of_run-step q q' (submit ct) es r in
    let d = submit-IsLoad q p ct c st in
    omega (arith, d.at_most, shutdown_terminates p q' es d.still_closing rest)
shutdown_terminates q q' (submit_direct ct ∷ es) c r =
    let (p, st, rest) = of_run-step q q' (submit_direct ct) es r in
    let d = submit_parked-IsLoad q.loop q p ct c (unfold step in st) in
    omega (arith, d.at_most, shutdown_terminates p q' es d.still_closing rest)
shutdown_terminates q q' (take_one ∷ es) c r =
    let (p, st, rest) = of_run-step q q' take_one es r in
    let d = take_from-IsLoad q.ch q p c (unfold step in st) in
    omega (arith, d.at_most, shutdown_terminates p q' es d.still_closing rest)
shutdown_terminates q q' (close ∷ es) c r =
    let (p, st, rest) = of_run-step q q' close es r in
    let d = close-IsLoad q p c st in
    omega (arith, d.at_most, shutdown_terminates p q' es d.still_closing rest)

all_answered :
    (q : TxQueue)
    → q.loop ≡ stopped
    → q.submit_ch ≡ []
    → IsAccounted q
    → tickets (map (λ r. r.request) q.responses) ≡ upto q.calls
all_answered q l w a = rw (l, w, append-nil) at a.in_turn

-- A run of the goroutine alone that ends it, with no request left over.
record IsEnd (q q' : TxQueue) (es : List LoopEvent) : Type 0 where
  possible : run q (map admission es) ≡ some q'
  over : q'.loop ≡ stopped
  closed : q'.ch_closed ≡ true
  none_waits : q'.submit_ch ≡ []

-- The requests that wait are refused one by one, then the channel is closed.
refusals : List SubmitRequest → List LoopEvent
refusals [] = reject_end ∷ []
refusals (req ∷ reqs) = reject_next ∷ refusals reqs

reject_all :
    (reqs : List SubmitRequest) (q : TxQueue)
    → q.loop ≡ rejecting
    → q.submit_ch ≡ reqs
    → (q' : TxQueue) × IsEnd q q' (refusals reqs)
unfolding step refusals
reject_all [] q l w = (
  record q { ch_closed = true; loop = stopped },
  record {
    possible =
        run-cons q (record q { ch_closed = true; loop = stopped }) _ (admission reject_end) []
          (rw (l, loop_step, w)) (unfold run in refl);
    over = refl;
    closed = refl;
    none_waits = w;
  },
)
reject_all (req ∷ reqs) q l w =
    let p : TxQueue =
      respond req (err queue_closed) (record q { submit_ch = reqs; loop = rejecting }) in
    let (q', e) = reject_all reqs p refl refl in
    (
      q',
      record {
        possible = run-cons q p q' (admission reject_next) _ (rw (l, loop_step, w)) e.possible;
        over = e.over;
        closed = e.closed;
        none_waits = e.none_waits;
      },
    )

-- One step brings the closed queue's goroutine to `rejectPendingSubmissions`.
module _ (q p : TxQueue) (e : LoopEvent) where
  then_reject :
      step q (admission e) ≡ some p
      → p.loop ≡ rejecting
      → (es : List LoopEvent) × (q' : TxQueue) × IsEnd q q' es
  then_reject s l =
      let (q', end) = reject_all p.submit_ch p l refl in
      (
        e ∷ refusals p.submit_ch,
        q',
        record {
          possible = run-cons q p q' (admission e) _ s end.possible;
          over = end.over;
          closed = end.closed;
          none_waits = end.none_waits;
        },
      )

shutdown_from :
    (l : Loop) (q : TxQueue)
    → q.loop ≡ l
    → q.done ≡ true
    → l ≢ stopped
    → (es : List LoopEvent) × (q' : TxQueue) × IsEnd q q' es
unfolding step
shutdown_from waiting q e c h =
    then_reject q (record q { loop = rejecting }) see_done (rw (e, loop_step, c)) refl
shutdown_from (checking req) q e c h =
    then_reject q (respond req (err queue_closed) (record q { loop = rejecting })) check_done
      (rw (e, loop_step, c)) refl
shutdown_from (sending req tx) q e c h =
    then_reject q (respond req (err queue_closed) (record q { loop = rejecting })) send_done
      (rw (e, loop_step, c)) refl
shutdown_from rejecting q e c h =
    let (q', end) = reject_all q.submit_ch q e refl in (refusals q.submit_ch, q', end)
shutdown_from stopped q e c h = absurd (h refl)

-- From every reachable state in which `done` is closed and the admission goroutine has not returned,
-- the goroutine alone can run to its end: it returns with `q.ch` closed, and then every call
-- that sent a request has been sent exactly one answer, in the order of the calls.
pub shutdown_answers_all :
    (capacity : ℕ) (es : List Event) (q : TxQueue)
    → run (new_tx_queue capacity) es ≡ some q
    → q.done ≡ true
    → q.loop ≢ stopped
    → (ls : List LoopEvent) × (q' : TxQueue) × (run q (map admission ls) ≡ some q')
      × (q'.loop ≡ stopped)
      × (q'.ch_closed ≡ true)
      × (tickets (map (λ r. r.request) q'.responses) ≡ upto q'.calls)
shutdown_answers_all capacity es q r c h =
    let (ls, q', end) = shutdown_from q.loop q refl c h in
    (
      ls,
      q',
      end.possible,
      end.over,
      end.closed,
      all_answered q' end.over end.none_waits (
          run-IsAccounted q q' _ end.possible
            (run-IsAccounted _ q es r (new-IsAccounted capacity))),
    )
