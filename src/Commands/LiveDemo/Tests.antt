-- ===== src/Commands/LiveDemo/Tests.antt =====
-- The live demo with a toy libsodium: five submissions before each tick.
use secureorder.Prelude.{
  ℕ, zero, suc, List, [], ◌∷◌, ◌++◌, Option, none, some, ◌≡◌, refl, replicate,
}
use secureorder.Prelude.Int.{pos}
use secureorder.Encoding.Decimal.{format_nat, format_int}
use secureorder.Privacy.Toy.{toy}
use secureorder.Privacy.Memory.{CMemory, malloc, free}
use secureorder.Privacy.Native.{seal_transaction, decrypt_single_tx}
use secureorder.Privacy.Decrypt.{seal, decrypt_single, key_error}
use secureorder.Sequencing.Queue.{receive, check_passed, commit, step, new_tx_queue}
use secureorder.Sequencing.Queue.Calls.{send, get_answer, call_step}
use secureorder.Commands.Background.{two_digits, admits_alone, calls_alone}
use secureorder.Commands.LiveDemo.Ending.{run_live-stopped}
use secureorder.Commands.LiveDemo.Trades.{Draws, payload, tx_info, push_recent}
use secureorder.Commands.LiveDemo.{
  LiveEvent, seals, calls, records, admits, ticks, receives, ends_tick, Live, stopped, new_live,
  run_live,
}

abbrev draws : Draws
draws = record { client = 3; trade = 1; pair = 2; amount = 9; price = 500 }

abbrev submission : List LiveEvent
submission =
    seals draws (pos 5)
    ∷ calls send
    ∷ admits receive
    ∷ admits (check_passed (pos 6))
    ∷ admits commit
    ∷ calls get_answer
    ∷ records
    ∷ []

abbrev repeat : ℕ → List LiveEvent → List LiveEvent
repeat zero es = []
repeat (suc n) es = es ++ repeat n es

abbrev whole_tick : List LiveEvent
whole_tick = repeat 5 submission ++ ticks ∷ replicate 5 receives ++ ends_tick ∷ []

abbrev no_memory : CMemory
no_memory = record { next = 0; mallocs = []; frees = [] }

abbrev live_in : Option (Live toy) → Live toy
live_in (some s) = s
live_in none = new_live toy 0 no_memory

abbrev after : ℕ → Live toy
after n = live_in (
    run_live toy (replicate 32 7) (replicate 32 8) (repeat n whole_tick) (new_live toy 7 no_memory))

fifty :
    run_live toy (replicate 32 7) (replicate 32 8) (repeat 10 whole_tick) (new_live toy 7 no_memory)
    ≡ some (after 10)
unfolding run_live new_live new_tx_queue step call_step admits_alone calls_alone seal
    seal_transaction decrypt_single decrypt_single_tx key_error malloc free payload tx_info
    push_recent two_digits format_nat format_int
fifty = refl

fifty_stop : (after 10).display ≡ stopped
unfolding run_live new_live new_tx_queue step call_step admits_alone calls_alone seal
    seal_transaction decrypt_single decrypt_single_tx key_error malloc free payload tx_info
    push_recent two_digits format_nat format_int
fifty_stop = refl

run_live-stopped_example :
    ((after 10).processed ≡ 50) × ((after 10).seal_errors ≡ []) × ((after 10).queue.ch ≡ [])
run_live-stopped_example =
    run_live-stopped toy (replicate 32 7) (replicate 32 8) (repeat 10 whole_tick) 7 no_memory
      (after 10) fifty fifty_stop
