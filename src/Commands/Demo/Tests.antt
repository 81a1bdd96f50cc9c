-- ===== src/Commands/Demo/Tests.antt =====
-- The demo with a toy libsodium: each client is admitted before the next one submits, in an order
-- of their own.
use Prim.{tt}
use secureorder.Prelude.{
  ℕ, List, [], ◌∷◌, ◌++◌, Option, none, some, ◌≡◌, refl, arith, replicate, All, All-append, true,
  false,
}
use secureorder.Prelude.Int.{pos}
use secureorder.Text.{codes}
use secureorder.Error.{Bytes}
use secureorder.Encoding.Decimal.{format_nat, format_int}
use secureorder.Privacy.Toy.{toy, toy_documented}
use secureorder.Privacy.Memory.{CMemory, malloc, free}
use secureorder.Privacy.Native.{
  init_privacy_layer, generate_sequencer_keys, seal_transaction, decrypt_single_tx,
}
use secureorder.Privacy.Keys.{init, new_sequencer_keys}
use secureorder.Privacy.Decrypt.{seal, decrypt_single, key_error}
use secureorder.Sequencing.Queue.{receive, check_passed, commit, step, new_tx_queue}
use secureorder.Sequencing.Queue.Calls.{send, get_answer, call_step}
use secureorder.Sequencing.Queue.Drain.{Wake, receive_ch, drain_wait, drain_wait_loop}
use secureorder.Commands.Demo.Runs.{HasTime}
use secureorder.Commands.Demo.Rows.{IsClientRow, demo_main-reported}
use secureorder.Commands.Demo.{
  DemoEvent, seals, calls, admits, Outcome, reported, DemoReport, Row, demo_main, run_demo, rows_of,
  payload, start, client_ids, num_clients,
}

-- The goroutine of the client `i`, from its payload to the answer of the queue.
abbrev whole_client : ℕ → List DemoEvent
whole_client i =
    seals i (pos 1700)
    ∷ calls i send
    ∷ admits receive
    ∷ admits (check_passed (pos 9))
    ∷ admits commit
    ∷ calls i get_answer
    ∷ []

abbrev all_clients : List ℕ → List DemoEvent
all_clients [] = []
all_clients (i ∷ is) = whole_client i ++ all_clients is

abbrev schedule : List DemoEvent
schedule = all_clients (3 ∷ 0 ∷ 1 ∷ 2 ∷ 9 ∷ 8 ∷ 4 ∷ 5 ∷ 6 ∷ 7 ∷ [])

abbrev drain_at_once : List Wake
drain_at_once = replicate 10 receive_ch

abbrev no_memory : CMemory
no_memory = record { next = 0; mallocs = []; frees = [] }

abbrev nothing_shown : DemoReport
nothing_shown = record { queue_length = 0; drain_error = none; rows = []; fifo = false }

abbrev report_in : Option Outcome → DemoReport
report_in (some (reported r)) = r
report_in _ = nothing_shown

abbrev report : DemoReport
report = report_in (demo_main toy schedule drain_at_once 7 no_memory)

reports : demo_main toy schedule drain_at_once 7 no_memory ≡ some (reported report)
unfolding demo_main run_demo start init new_sequencer_keys init_privacy_layer
    generate_sequencer_keys seal seal_transaction step call_step new_tx_queue drain_wait
    drain_wait_loop client_ids num_clients payload
reports = refl

first_row : (rs : List Row) → Bytes
first_row [] = []
first_row (r ∷ rs) = r.plaintext

-- The client that was admitted first, with number 4, comes first.
fourth_first : first_row report.rows ≡ codes "TRADE|04|BUY|ETH/USDC|4.000000|3004.000000|1700"
unfolding demo_main run_demo start init new_sequencer_keys init_privacy_layer
    generate_sequencer_keys seal seal_transaction step call_step new_tx_queue drain_wait
    drain_wait_loop client_ids num_clients rows_of decrypt_single decrypt_single_tx key_error malloc
    free payload format_nat format_int first_row
fourth_first = refl

all_clients-HasTime : (is : List ℕ) → All HasTime (all_clients is)
all_clients-HasTime [] = tt
all_clients-HasTime (i ∷ is) =
    All-append HasTime (whole_client i) (all_clients is)
      (omega arith, (tt, (tt, (tt, (tt, (tt, tt)))))) (all_clients-HasTime is)

demo_main-reported_example : (report.fifo ≡ true) × All IsClientRow report.rows
demo_main-reported_example =
    demo_main-reported toy toy_documented schedule drain_at_once 7 no_memory report (omega arith)
      (all_clients-HasTime (3 ∷ 0 ∷ 1 ∷ 2 ∷ 9 ∷ 8 ∷ 4 ∷ 5 ∷ 6 ∷ 7 ∷ [])) reports
