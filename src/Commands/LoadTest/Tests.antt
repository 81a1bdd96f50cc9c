-- ===== src/Commands/LoadTest/Tests.antt =====
-- The load test on concrete inputs, with a toy libsodium.
use secureorder.Prelude.{List, [], ◌∷◌, ◌++◌, true, false, some, ◌≡◌, refl, arith, replicate}
use secureorder.Prelude.{ok}
use secureorder.Prelude.Int.{pos}
use secureorder.Text.{codes}
use secureorder.Encoding.Decimal.{format_nat, format_int}
use secureorder.Privacy.Toy.{toy, zeros}
use secureorder.Privacy.Native.{init_privacy_layer, seal_transaction}
use secureorder.Privacy.Keys.{Files, readable, init, load_key_from_file, load_key, read_file}
use secureorder.Privacy.Decrypt.{seal}
use secureorder.Commands.LoadTest.Summaries.{IsAccount, load_main-IsAccount}
use secureorder.Commands.LoadTest.{
  LoadEvent, dials, seals, replies, Outcome, with_failures, total_is_zero, load_main, run_load,
  new_load, dialing, waiting, LoadTest,
}

abbrev key_file : Files
key_file = record { content = (codes "k", replicate 32 7) ∷ []; reads = λ path. readable }

-- Two clients of two requests: the first one cannot connect, the second has one request accepted and
-- one not.
abbrev schedule : List LoadEvent
schedule =
    dials 1 true
    ∷ seals 1 (pos 8)
    ∷ dials 0 false
    ∷ replies 1 (ok true)
    ∷ seals 1 (pos 9)
    ∷ replies 1 (ok false)
    ∷ []

abbrev mixed : Outcome
mixed = with_failures (record { total = 4; successful = 1; failed = 3 })

mixed_run : load_main toy key_file (codes "k") 2 2 schedule 5 ≡ some mixed
unfolding load_main run_load new_load init init_privacy_layer load_key_from_file load_key read_file
    seal seal_transaction format_nat format_int
mixed_run = refl

load_main-IsAccount_example : IsAccount toy 2 2 mixed
load_main-IsAccount_example =
    load_main-IsAccount toy 2 2 (omega arith) (omega arith) (omega arith) key_file (codes "k")
      schedule 5 mixed mixed_run

-- After the first two events one request of the second client is in flight.
abbrev in_flight : LoadTest toy
in_flight = record {
  rng = 6;
  success = 0;
  failed = 0;
  clients = dialing ∷ waiting 0 (zeros ++ codes "loadtest-client-1-req-0-8") ∷ [];
}

in_flight_run :
    run_load toy (replicate 32 7) 2 (dials 1 true ∷ seals 1 (pos 8) ∷ []) (new_load toy 2 5)
    ≡ some in_flight
unfolding run_load new_load seal seal_transaction format_nat format_int
in_flight_run = refl

-- No client, no summary.
no_requests : load_main toy key_file (codes "k") 0 2 [] 5 ≡ some total_is_zero
unfolding load_main run_load new_load init init_privacy_layer load_key_from_file load_key read_file
no_requests = refl
