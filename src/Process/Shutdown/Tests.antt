-- ===== src/Process/Shutdown/Tests.antt =====
-- The end of main on a queue of capacity 1.
use Prim.{tt}
use secureorder.Prelude.{ℕ, List, [], ◌∷◌, true, false, some, none, ◌≡◌, refl, arith}
use secureorder.Prelude.Int.{pos}
use secureorder.Prelude.{ok}
use secureorder.Sequencing.Transaction.{EncryptedTransaction}
use secureorder.Sequencing.Queue.{
  SubmitRequest, sending, waiting, receive, check_passed, commit, new_tx_queue, step,
}
use secureorder.Sequencing.Queue.Calls.{entering, awaiting, returned, send, get_answer, call_step}
use secureorder.Process.Shutdown.{
  server_closed, log_closed, Shutdown, serving_process, all_returned, ShutdownEvent, main_moves,
  arrives, handles, admits, ingress_ends, run_shutdown,
}
use secureorder.Process.Shutdown.Hangs.{IsHung, run_shutdown-IsHung}
use secureorder.Process.Shutdown.Graceful.{run_shutdown-all_returned}

-- The first transaction is committed and answered, the second one is held back by the full
-- channel, and a third caller has not sent its request when the signal comes.
abbrev until_stop : List ShutdownEvent
until_stop =
    arrives (7 ∷ [])
    ∷ handles 0 send
    ∷ admits receive
    ∷ admits (check_passed (pos 5))
    ∷ admits commit
    ∷ handles 0 get_answer
    ∷ arrives (8 ∷ [])
    ∷ handles 1 send
    ∷ admits receive
    ∷ admits (check_passed (pos 6))
    ∷ arrives (9 ∷ [])
    ∷ main_moves
    ∷ ingress_ends
    ∷ main_moves
    ∷ []

abbrev first : EncryptedTransaction
first = record { seq = 1; ciphertext = 7 ∷ []; arrived_at = pos 5 }

abbrev second : EncryptedTransaction
second = record { seq = 2; ciphertext = 8 ∷ []; arrived_at = pos 6 }

abbrev asked : ℕ → ℕ → SubmitRequest
asked n b = record { ticket = n; ciphertext = b ∷ [] }

abbrev stuck : Shutdown
stuck = record {
  phase = server_closed;
  queue = record {
    capacity = 1;
    ch = first ∷ [];
    ch_closed = false;
    submit_ch = [];
    done = false;
    next_id = 2;
    loop = sending (asked 1 8) second;
    calls = 2;
    taken = [];
    responses = record { request = asked 0 7; answer = ok first } ∷ [];
  };
  handlers = returned (ok first) ∷ awaiting 1 ∷ entering (9 ∷ []) ∷ [];
  ingress = false;
}

reaches_stuck : run_shutdown until_stop (serving_process 1) ≡ some stuck
unfolding run_shutdown step call_step new_tx_queue serving_process
reaches_stuck = refl

stuck-IsHung : IsHung 1 1 stuck
unfolding call_step
stuck-IsHung = record {
  stopping = refl;
  no_ingress = refl;
  waits = refl;
  blocked = record {
    request = asked 1 8;
    stamped = second;
    at_send = refl;
    no_room = omega arith;
    some_buffered = refl;
    still_open = refl;
    unanswered = refl;
  };
}

abbrev stuck_later : Shutdown
stuck_later = record stuck {
  queue = record stuck.queue { submit_ch = asked 2 9 ∷ []; calls = 3 };
  handlers = returned (ok first) ∷ awaiting 1 ∷ awaiting 2 ∷ [];
}

run_shutdown-IsHung_example : IsHung 1 1 stuck_later
unfolding run_shutdown step call_step
run_shutdown-IsHung_example =
    run_shutdown-IsHung 1 1 (handles 2 send ∷ ingress_ends ∷ []) stuck stuck_later (tt, (tt, tt))
      stuck-IsHung refl

-- A call in flight when the signal comes is answered before the log closes.
abbrev until_closed : List ShutdownEvent
until_closed =
    arrives (7 ∷ [])
    ∷ handles 0 send
    ∷ main_moves
    ∷ main_moves
    ∷ admits receive
    ∷ admits (check_passed (pos 5))
    ∷ admits commit
    ∷ handles 0 get_answer
    ∷ main_moves
    ∷ main_moves
    ∷ []

abbrev stopped_process : Shutdown
stopped_process = record {
  phase = log_closed;
  queue = record {
    capacity = 1;
    ch = first ∷ [];
    ch_closed = false;
    submit_ch = [];
    done = true;
    next_id = 1;
    loop = waiting;
    calls = 1;
    taken = [];
    responses = record { request = asked 0 7; answer = ok first } ∷ [];
  };
  handlers = returned (ok first) ∷ [];
  ingress = true;
}

stops : run_shutdown until_closed (serving_process 1) ≡ some stopped_process
unfolding run_shutdown step call_step new_tx_queue serving_process
stops = refl

run_shutdown-all_returned_example : all_returned (returned (ok first) ∷ []) ≡ true
run_shutdown-all_returned_example =
    run_shutdown-all_returned 1 until_closed stopped_process stops refl

-- A handler that has not got its answer keeps the process from closing the log.
too_early :
    run_shutdown
      (arrives (7 ∷ []) ∷ handles 0 send ∷ main_moves ∷ main_moves ∷ main_moves ∷ [])
      (serving_process 1)
    ≡ none
unfolding run_shutdown step call_step new_tx_queue serving_process
too_early = refl
