-- ===== src/Sequencing/Queue/Runs.antt =====
-- `TxQueue` over whole schedules of its goroutines, from `NewTxQueue` on.
use mathlib.Core.List.{map-append}
use secureorder.Prelude.{
  ℕ, ◌+◌, ◌^◌, ◌≤◌, ◌<◌, List, [], ◌∷◌, ◌++◌, some, ◌≡◌, refl, sym, ◌∙◌, arith, append_assoc,
  append-nil, append_snoc, of_some, of_guard, of_guard_not, of_none, length, map, All,
}
use secureorder.Sequencing.Transaction.{EncryptedTransaction, Between, Between-weaken}
use secureorder.Sequencing.Queue.Steps.{
  of_receive, of_reject, of_take, of_parked, nil_of_is_empty, of_run-step,
}
use secureorder.Sequencing.Queue.Order.{IsOrdered, step-IsOrdered, bound}
use secureorder.Sequencing.Queue.Receipts.{
  IsAccounted, step-IsAccounted, receipts, tickets, upto, held, IsFaithful,
}
use secureorder.Sequencing.Queue.{
  TxQueue, Loop, waiting, checking, sending, rejecting, stopped, LoopEvent, see_done, receive,
  check_expired, check_done, check_passed, commit, hand_over, send_expired, send_done, reject_next,
  reject_end, Event, admission, submit, submit_direct, take_one, close, loop_step, step, run,
  history, new_tx_queue, SubmitRequest, stamp,
}

-- What a step does to the counters and to the history.
pub record IsGrown (q q' : TxQueue) : Type 0 where
  counted : q'.next_id ≤ q.next_id + 1
  fixed : q'.capacity ≡ q.capacity
  pub later : List EncryptedTransaction
  pub kept : history q' ≡ history q ++ later

abbrev unchanged :
    (q q' : TxQueue)
    → q'.next_id ≤ q.next_id + 1
    → q'.capacity ≡ q.capacity
    → history q' ≡ history q
    → IsGrown q q'
unchanged q q' n c h = record {
  counted = n;
  fixed = c;
  later = [];
  kept = h ∙ sym (append-nil (history q));
}

stamp-IsGrown : (q : TxQueue) (req : SubmitRequest) (now : _) → IsGrown q (stamp now req q)
unfolding stamp
stamp-IsGrown q req now = unchanged q _ (omega arith) refl refl

loop_step-IsGrown :
    (q q' : TxQueue) (l : Loop) (e : LoopEvent) → loop_step l e q ≡ some q' → IsGrown q q'
unfolding step
loop_step-IsGrown q q' waiting see_done s =
    of_guard (IsGrown q) s λ d. unchanged q _ (omega arith) refl refl
loop_step-IsGrown q q' waiting receive s =
    of_receive (IsGrown q) q q.submit_ch s λ req rest e. unchanged q _ (omega arith) refl refl
loop_step-IsGrown q q' (checking req) (check_expired e) s =
    of_some (IsGrown q) s (unchanged q _ (omega arith) refl refl)
loop_step-IsGrown q q' (checking req) check_done s =
    of_guard (IsGrown q) s λ d. unchanged q _ (omega arith) refl refl
loop_step-IsGrown q q' (checking req) (check_passed now) s =
    of_guard_not (IsGrown q) s λ d. stamp-IsGrown q req now
loop_step-IsGrown q q' (sending req tx) commit s = of_guard (IsGrown q) s λ d. record {
  counted = omega arith;
  fixed = refl;
  later = tx ∷ [];
  kept = sym (append_assoc q.taken q.ch (tx ∷ []));
}
loop_step-IsGrown q q' (sending req tx) hand_over s = of_guard (IsGrown q) s λ d. record {
  counted = omega arith;
  fixed = refl;
  later = tx ∷ [];
  kept = simp (nil_of_is_empty q.ch d, append-nil);
}
loop_step-IsGrown q q' (sending req tx) (send_expired e) s =
    of_some (IsGrown q) s (unchanged q _ (omega arith) refl refl)
loop_step-IsGrown q q' (sending req tx) send_done s =
    of_guard (IsGrown q) s λ d. unchanged q _ (omega arith) refl refl
loop_step-IsGrown q q' rejecting reject_next s =
    of_reject (IsGrown q) q q.submit_ch s λ req rest e. unchanged q _ (omega arith) refl refl
loop_step-IsGrown q q' rejecting reject_end s =
    of_guard (IsGrown q) s λ d. unchanged q _ (omega arith) refl refl
loop_step-IsGrown q q' _ _ s = of_none (IsGrown q) s

pub step-IsGrown : (q q' : TxQueue) (e : Event) → step q e ≡ some q' → IsGrown q q'
unfolding step
step-IsGrown q q' (admission e) s = loop_step-IsGrown q q' q.loop e s
step-IsGrown q q' (submit ct) s = of_guard (IsGrown q) s λ d. unchanged q _ (omega arith) refl refl
step-IsGrown q q' (submit_direct ct) s =
    of_parked (IsGrown q) q q.loop ct s (λ e nil. unchanged q _ (omega arith) refl refl)
      (λ e nil. unchanged q _ (omega arith) refl refl)
step-IsGrown q q' take_one s =
    of_take (IsGrown q) q q.ch s λ tx rest e. unchanged q _ (omega arith) refl (rw (append_snoc, e))
step-IsGrown q q' close s = of_some (IsGrown q) s (unchanged q _ (omega arith) refl refl)

run-IsOrdered :
    (q q' : TxQueue) (es : List Event)
    → q.next_id + length es < 2 ^ 64
    → run q es ≡ some q'
    → IsOrdered q
    → IsOrdered q'
unfolding run
run-IsOrdered q q' [] fits r h = of_some IsOrdered r h
run-IsOrdered q q' (e ∷ es) fits r h =
    let (p, st, rest) = of_run-step q q' e es r in
    run-IsOrdered p q' es (omega (arith, (step-IsGrown q p e st).counted)) rest
      (step-IsOrdered q p e (omega arith) st h)

pub run-IsAccounted :
    (q q' : TxQueue) (es : List Event) → run q es ≡ some q' → IsAccounted q → IsAccounted q'
unfolding run
run-IsAccounted q q' [] r h = of_some IsAccounted r h
run-IsAccounted q q' (e ∷ es) r h =
    let (p, st, rest) = of_run-step q q' e es r in
    run-IsAccounted p q' es rest (step-IsAccounted q p e st h)

-- Over every schedule of fewer than 2^64 steps, the transactions that consumers received followed by
-- those still buffered carry strictly growing sequence IDs, none above the counter.
pub run-Between :
    (capacity : ℕ) (es : List Event) (q : TxQueue)
    → length es < 2 ^ 64
    → run (new_tx_queue capacity) es ≡ some q
    → Between 0 q.next_id (history q)
unfolding new_tx_queue
run-Between capacity es q fits r = below q.loop o.ordered
  where
    o : IsOrdered q
    o =
        run-IsOrdered (new_tx_queue capacity) q es (omega arith) r
          (record { ordered = omega arith; stamped = tt })

    below : (l : Loop) → Between 0 (bound l q.next_id) (history q) → Between 0 q.next_id (history q)
    below waiting h = h
    below (checking req) h = h
    below (sending req tx) h = Between-weaken 0 _ _ (history q) (omega arith) h
    below rejecting h = h
    below stopped h = h

pub new-IsAccounted : (capacity : ℕ) → IsAccounted (new_tx_queue capacity)
unfolding new_tx_queue
new-IsAccounted capacity = record { exact = refl; in_turn = refl; faithful = tt; copied = tt }

-- Over every schedule, the receipts that submitters were sent are the committed transactions, each
-- once and in the order of commitment, and each receipt carries the payload of its own request.
pub run-receipts :
    (capacity : ℕ) (es : List Event) (q : TxQueue)
    → run (new_tx_queue capacity) es ≡ some q
    → (receipts q.responses ≡ history q) × All IsFaithful q.responses
run-receipts capacity es q r =
    let a = run-IsAccounted _ q es r (new-IsAccounted capacity) in (a.exact, a.faithful)

-- Over every schedule, the requests answered, the one in hand and those waiting are, in this order,
-- the calls in the order in which they sent their requests: none is lost, answered twice or
-- overtaken.
pub run-in_turn :
    (capacity : ℕ) (es : List Event) (q : TxQueue)
    → run (new_tx_queue capacity) es ≡ some q
    → tickets (map (λ r. r.request) q.responses) ++ tickets (held q.loop ++ q.submit_ch)
      ≡ upto q.calls
run-in_turn capacity es q r =
    rw (← map-append) (run-IsAccounted _ q es r (new-IsAccounted capacity)).in_turn

-- The log is append-only: what is received or buffered at some point of a schedule stays, in its
-- place, at every later point.
pub history-run :
    (q q' : TxQueue) (es : List Event)
    → run q es ≡ some q'
    → (later : List EncryptedTransaction) × (history q' ≡ history q ++ later)
unfolding run
history-run q q' [] r =
    ([], of_some (λ p. history p ≡ history q ++ []) r (sym (append-nil (history q))))
history-run q q' (e ∷ es) r =
    let (p, st, rest) = of_run-step q q' e es r in
    let g = step-IsGrown q p e st in
    let (more, eq) = history-run p q' es rest in (g.later ++ more, rw (eq, g.kept, append_assoc))
