-- ===== src/Process/Shutdown.antt =====
-- The end of main in cmd/sequencer/main.go with the local queue: cancel, Server.Close, GracefulStop and
-- OrderedLog.Close, beside the handlers of SubmitTx, the admission goroutine and the ingress collector.
pub mod Hangs
pub mod Graceful
mod Tests
use secureorder.Prelude.{
  ℕ, List, [], ◌∷◌, ◌++◌, Bool, true, false, Option, none, some, get_elem?, set, if◌then◌else◌,
}
use secureorder.Error.{Bytes}
use secureorder.Sequencing.Queue.{
  TxQueue, Event, LoopEvent, new_tx_queue, admission, take_one, close, step,
}
use secureorder.Sequencing.Queue.Calls.{Call, CallEvent, entering, awaiting, returned, call_step}

-- What main has done since the signal: nothing yet, cancelled the context, closed the RPC server's
-- connections to other nodes, returned from GracefulStop, closed the log.
pub data Phase : Type 0 where
  serving : Phase
  cancelled : Phase
  server_closed : Phase
  gracefully_stopped : Phase
  log_closed : Phase

-- `handlers` are the calls of SubmitWithReceipt by the handlers of SubmitTx; `ingress` tells whether
-- the ingress collector still runs.
pub record Shutdown : Type 0 where
  pub phase : Phase
  pub queue : TxQueue
  pub handlers : List Call
  pub ingress : Bool

-- The process once its goroutines run.
unfoldable pub serving_process : ℕ → Shutdown
serving_process capacity = record {
  phase = serving;
  queue = new_tx_queue capacity;
  handlers = [];
  ingress = true;
}

-- One move of main; a handler starts or moves on; the admission goroutine moves; the ingress collector receives a
-- transaction, or sees the cancelled context and ends.
pub data ShutdownEvent : Type 0 where
  main_moves : ShutdownEvent
  arrives : Bytes → ShutdownEvent
  handles : ℕ → CallEvent → ShutdownEvent
  admits : LoopEvent → ShutdownEvent
  collects : ShutdownEvent
  ingress_ends : ShutdownEvent

-- What GracefulStop waits for.
pub all_returned : List Call → Bool
all_returned [] = true
all_returned (returned r ∷ cs) = all_returned cs
all_returned (_ ∷ cs) = false

pub with_queue : Option TxQueue → Shutdown → Option Shutdown
with_queue none s = none
with_queue (some q) s = some (record s { queue = q })

pub with_handler : ℕ → Option (Call × TxQueue) → Shutdown → Option Shutdown
with_handler i none s = none
with_handler i (some (c, q)) s = some (record s { queue = q; handlers = set s.handlers i c })

pub main_step : Phase → Shutdown → Option Shutdown
unfolding all_returned with_queue
main_step serving s = some (record s { phase = cancelled })
main_step cancelled s = some (record s { phase = server_closed })
main_step server_closed s =
    if all_returned s.handlers then some (record s { phase = gracefully_stopped }) else none
main_step gracefully_stopped s = with_queue (step s.queue close) (record s { phase = log_closed })
main_step log_closed s = none

-- GracefulStop has the server refuse new calls.
pub arrive : Phase → Bytes → Shutdown → Option Shutdown
arrive serving ct s = some (record s { handlers = s.handlers ++ entering ct ∷ [] })
arrive cancelled ct s = some (record s { handlers = s.handlers ++ entering ct ∷ [] })
arrive _ ct s = none

pub handle : ℕ → CallEvent → Option Call → Shutdown → Option Shutdown
unfolding with_handler
handle i e none s = none
handle i e (some c) s = with_handler i (call_step c e s.queue) s

pub end_ingress : Phase → Shutdown → Option Shutdown
end_ingress serving s = none
end_ingress _ s = some (record s { ingress = false })

unfoldable pub shutdown_step : ShutdownEvent → Shutdown → Option Shutdown
unfolding main_step arrive handle end_ingress with_queue
shutdown_step main_moves s = main_step s.phase s
shutdown_step (arrives ct) s = arrive s.phase ct s
shutdown_step (handles i e) s = handle i e (get_elem? s.handlers i) s
shutdown_step (admits e) s = with_queue (step s.queue (admission e)) s
shutdown_step collects s = if s.ingress then with_queue (step s.queue take_one) s else none
shutdown_step ingress_ends s = end_ingress s.phase s

unfoldable pub run_shutdown : List ShutdownEvent → Shutdown → Option Shutdown
unfolding shutdown_step
run_shutdown [] s = some s
run_shutdown (e ∷ es) s = elim (shutdown_step e s) [ none ↦ none | some s' ↦ run_shutdown es s' ]
