-- ===== src/Sequencing/Queue/Tests.antt =====
-- Schedules of `TxQueue` on concrete inputs.
use secureorder.Prelude.{
  ◌+◌, ◌≤◌, ◌*◌, List, [], ◌∷◌, ◌++◌, map, true, false, none, some, ◌≡◌, refl, arith, All,
}
use secureorder.Prelude.{ok}
use secureorder.Prelude.Int.{ℤ, pos, negsuc}
use secureorder.Text.{codes}
use secureorder.Error.{canceled}
use secureorder.Sequencing.Transaction.{EncryptedTransaction, Between}
use secureorder.Sequencing.Queue.Receipts.{receipts, tickets, held, upto, IsFaithful}
use secureorder.Sequencing.Queue.Runs.{run-Between, run-receipts, run-in_turn}
use secureorder.Sequencing.Queue.Shutdown.{
  work_left, admission_steps, submissions, shutdown_terminates, shutdown_answers_all,
}
use secureorder.Sequencing.Queue.Calls.{
  entering, awaiting, returned, send, get_answer, call_step, Receipt, Receipt-sound,
}
use secureorder.Sequencing.Queue.Drain.{Wake, other, receive_ch, drain, drain_wait}
use secureorder.Sequencing.Queue.{
  TxQueue, SubmitRequest, Event, admission, submit, take_one, close, LoopEvent, receive,
  check_passed, commit, send_expired, see_done, waiting, sending, rejecting, stopped, new_tx_queue,
  step, run, history,
}

abbrev req_a : SubmitRequest
req_a = record { ticket = 0; ciphertext = codes "a" }

abbrev req_b : SubmitRequest
req_b = record { ticket = 1; ciphertext = codes "b" }

abbrev tx_a : EncryptedTransaction
tx_a = record { seq = 1; ciphertext = codes "a"; arrived_at = pos 5 }

abbrev tx_b : EncryptedTransaction
tx_b = record { seq = 2; ciphertext = codes "b"; arrived_at = pos 6 }

abbrev both_sent : List Event
both_sent = submit (codes "a") ∷ submit (codes "b") ∷ []

abbrev admit : ℤ → List Event
admit now = admission receive ∷ admission (check_passed now) ∷ admission commit ∷ []

abbrev two_admitted : List Event
two_admitted = both_sent ++ (admit (pos 5) ++ admit (pos 6))

abbrev after_two : TxQueue
after_two = record {
  capacity = 4;
  ch = tx_a ∷ tx_b ∷ [];
  ch_closed = false;
  submit_ch = [];
  done = false;
  next_id = 2;
  loop = waiting;
  calls = 2;
  taken = [];
  responses =
      record { request = req_a; answer = ok tx_a }
      ∷ record { request = req_b; answer = ok tx_b }
      ∷ [];
}

two_admitted-run : run (new_tx_queue 4) two_admitted ≡ some after_two
unfolding run step new_tx_queue
two_admitted-run = refl

run-Between_example : Between 0 2 (tx_a ∷ tx_b ∷ [])
run-Between_example = run-Between 4 two_admitted after_two (omega arith) two_admitted-run

run-receipts_example :
    (receipts after_two.responses ≡ history after_two) × All IsFaithful after_two.responses
run-receipts_example = run-receipts 4 two_admitted after_two two_admitted-run

run-in_turn_example :
    tickets (map (λ r. r.request) after_two.responses)
      ++ tickets (held after_two.loop ++ after_two.submit_ch)
    ≡ upto after_two.calls
run-in_turn_example = run-in_turn 4 two_admitted after_two two_admitted-run

-- A request whose context expires after the stamp: its ID is used up, and the sequence has a gap.
abbrev with_gap : List Event
with_gap =
    both_sent
    ++ (admission receive
        ∷ admission (check_passed (pos 5))
        ∷ admission (send_expired canceled)
        ∷ admit (pos 6))

gap_history : (q : TxQueue) × (run (new_tx_queue 4) with_gap ≡ some q) × (history q ≡ tx_b ∷ [])
unfolding run step new_tx_queue
gap_history = (_, refl, refl)

abbrev tx_taken : TxQueue
tx_taken = record after_two { ch = tx_b ∷ []; taken = tx_a ∷ [] }

taken_run : run after_two (take_one ∷ []) ≡ some tx_taken
unfolding run step
taken_run = refl

-- Closed while one request is stamped and another waits.
abbrev before_close : List Event
before_close = both_sent ++ (admission receive ∷ admission (check_passed (pos 5)) ∷ close ∷ [])

abbrev closing_queue : TxQueue
closing_queue = record {
  capacity = 4;
  ch = [];
  ch_closed = false;
  submit_ch = req_b ∷ [];
  done = true;
  next_id = 1;
  loop = sending req_a tx_a;
  calls = 2;
  taken = [];
  responses = [];
}

closing_run : run (new_tx_queue 4) before_close ≡ some closing_queue
unfolding run step new_tx_queue
closing_run = refl

abbrev committed_late : TxQueue
committed_late = record closing_queue {
  submit_ch = req_b ∷ record { ticket = 2; ciphertext = codes "c" } ∷ [];
  calls = 3;
  taken = tx_a ∷ [];
  loop = rejecting;
  responses = record { request = req_a; answer = ok tx_a } ∷ [];
}

-- A third request is sent after Close, and Close is called again.
abbrev late_events : List Event
late_events = close ∷ submit (codes "c") ∷ admission commit ∷ admission see_done ∷ take_one ∷ []

late_run : run closing_queue late_events ≡ some committed_late
unfolding run step
late_run = refl

shutdown_terminates_example :
    admission_steps late_events + work_left committed_late
    ≤ work_left closing_queue + 3 * submissions late_events
shutdown_terminates_example =
    shutdown_terminates closing_queue committed_late late_events refl late_run

shutdown_answers_all_example :
    (ls : List LoopEvent) × (q' : TxQueue) × (run closing_queue (map admission ls) ≡ some q')
    × (q'.loop ≡ stopped)
    × (q'.ch_closed ≡ true)
    × (tickets (map (λ r. r.request) q'.responses) ≡ upto q'.calls)
shutdown_answers_all_example =
    shutdown_answers_all 4 before_close closing_queue closing_run refl (λ e. cc)

abbrev a_sent : TxQueue
a_sent = record {
  capacity = 4;
  ch = [];
  ch_closed = false;
  submit_ch = req_a ∷ [];
  done = false;
  next_id = 0;
  loop = waiting;
  calls = 1;
  taken = [];
  responses = [];
}

a_sends : call_step (entering (codes "a")) send (new_tx_queue 4) ≡ some (awaiting 0, a_sent)
unfolding call_step new_tx_queue
a_sends = refl

abbrev a_rest : List Event
a_rest = submit (codes "b") ∷ (admit (pos 5) ++ admit (pos 6))

a_rest-run : run a_sent a_rest ≡ some after_two
unfolding run step
a_rest-run = refl

a_returns : call_step (awaiting 0) get_answer after_two ≡ some (returned (ok tx_a), after_two)
unfolding call_step
a_returns = refl

nothing_run : run (new_tx_queue 4) [] ≡ some (new_tx_queue 4)
unfolding run
nothing_run = refl

Receipt-sound_example : Receipt (codes "a") tx_a (history after_two)
Receipt-sound_example =
    Receipt-sound 4 [] a_rest (new_tx_queue 4) a_sent after_two after_two (codes "a") send 0 tx_a
      nothing_run a_sends a_rest-run a_returns

drain_negative : drain (negsuc 0) [] after_two ≡ none
unfolding drain
drain_negative = refl

-- A consumer that waits for two while they are submitted and admitted.
abbrev wakes : List Wake
wakes =
    map other (both_sent ++ admit (pos 5))
    ++ (receive_ch ∷ (map other (admit (pos 6)) ++ receive_ch ∷ []))

wakes_run :
    drain_wait (pos 2) wakes (new_tx_queue 4)
    ≡ some (
        some (
          record { batch = tx_a ∷ tx_b ∷ []; error = none },
          record after_two { ch = []; taken = tx_a ∷ tx_b ∷ [] },
        ))
unfolding drain_wait step new_tx_queue
wakes_run = refl
