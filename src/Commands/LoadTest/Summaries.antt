-- ===== src/Commands/LoadTest/Summaries.antt =====
-- The outcome of the load test.
use secureorder.Prelude.{
  ℕ, zero, suc, ◌+◌, ◌*◌, ◌^◌, ◌<◌, List, [], ◌∷◌, true, false, some, ◌≡◌, refl, arith, leb, ◌==◌,
  of_some, of_guard, Option-cases, Result-cases, Bool-cases, inl, inr,
}
use secureorder.Prelude.Int.{pos}
use secureorder.Error.{Bytes}
use secureorder.Privacy.Sodium.{Sodium}
use secureorder.Privacy.Keys.{Files, init, load_key_from_file}
use secureorder.Commands.LoadTest.{
  is_neg64, mul64, Client, dialing, requesting, waiting, finished, LoadEvent, Outcome, init_failed,
  key_not_loaded, negative_wait_group, total_is_zero, passed, with_failures, all_finished,
  dialing_clients, LoadTest, run_load, new_load, conclude, wait_and_conclude, load_test, load_main,
}
use secureorder.Commands.LoadTest.Left.{all_left, AreGoing}
use secureorder.Commands.LoadTest.Counts.{run_load-IsCounted}

all_left-dialing_clients :
    (clients requests : ℕ) → all_left requests (dialing_clients clients) ≡ clients * requests
unfolding new_load
all_left-dialing_clients zero requests = omega arith
all_left-dialing_clients (suc n) requests = grind (arith, all_left-dialing_clients n requests)

AreGoing-dialing_clients : (clients requests : ℕ) → AreGoing requests (dialing_clients clients)
unfolding new_load
AreGoing-dialing_clients zero requests = tt
AreGoing-dialing_clients (suc n) requests = (tt, AreGoing-dialing_clients n requests)

all_finished-left :
    (requests : ℕ) (cs : List Client) → all_finished cs ≡ true → all_left requests cs ≡ 0
unfolding load_main
all_finished-left requests [] h = refl
all_finished-left requests (finished ∷ cs) h = omega (arith, all_finished-left requests cs h)
all_finished-left requests (dialing ∷ cs) h = cc
all_finished-left requests (requesting j ∷ cs) h = cc
all_finished-left requests (waiting j ct ∷ cs) h = cc

module _ (sodium : Sodium) (clients requests : ℕ) where
  open sodium use {Rng}

  -- What an outcome says of the requests.
  abbrev pub IsAccount : Outcome → Type 0
  IsAccount (init_failed e) = Unit
  IsAccount (key_not_loaded e) = Unit
  IsAccount negative_wait_group = ⊥
  IsAccount total_is_zero = clients * requests ≡ 0
  IsAccount (passed s) =
      (s.total ≡ clients * requests) × (s.successful ≡ clients * requests) × (s.failed ≡ 0)
  IsAccount (with_failures s) =
      (s.total ≡ clients * requests)
      × (s.successful + s.failed ≡ clients * requests)
      × (0 < s.failed)

  module _ (small : clients * requests < 2 ^ 63) (few : clients < 2 ^ 63)
      (fits : requests < 2 ^ 63) where
    -- Over every schedule of the clients, whatever the network answers, each of the
    -- `clients * requests` requests is at every moment counted as accepted, counted as failed, or
    -- left to count; neither counter nor the total overflows as long as this product lies below 2^63.
    pub run_load-sum :
        (pk : Bytes) (es : List LoadEvent) (g : Rng) (s : LoadTest sodium)
        → run_load sodium pk requests es (new_load sodium clients g) ≡ some s
        → (s.success + s.failed + all_left requests s.clients ≡ clients * requests)
          × (s.success + s.failed < 2 ^ 63)
    unfolding new_load
    run_load-sum pk es g s run =
        let h =
          run_load-IsCounted sodium (clients * requests) requests small fits pk es
            (new_load sodium clients g) s
            (record {
              sum = omega (arith, all_left-dialing_clients clients requests);
              going = AreGoing-dialing_clients clients requests;
            })
            run in
        (h.sum, omega (arith, h.sum))

    conclude-IsAccount :
        (s : LoadTest sodium)
        → s.success + s.failed ≡ clients * requests
        → IsAccount (conclude sodium clients requests s)
    unfolding load_main
    conclude-IsAccount s h =
        let whole : mul64 clients requests ≡ clients * requests = omega arith in
        let positive : leb (2 ^ 63) s.failed ≡ false = ground arith in
        elim (Bool-cases (mul64 clients requests == 0)) [
          | inl zero_total ↦ rw zero_total (ground arith)
          | inr some_total ↦ elim (Bool-cases (s.failed == 0)) [
            | inl none_failed ↦
                rw (some_total, positive, none_failed) (whole, ground arith, ground arith)
            | inr some_failed ↦ rw (some_total, positive, some_failed) (whole, h, ground arith)
          ]
        ]

    wait_and_conclude-IsAccount :
        (pk : Bytes) (es : List LoadEvent) (g : Rng) (out : Outcome)
        → wait_and_conclude sodium clients requests
            (run_load sodium pk requests es (new_load sodium clients g))
          ≡ some out
        → IsAccount out
    unfolding load_main
    wait_and_conclude-IsAccount pk es g out h =
        elim (Option-cases (run_load sodium pk requests es (new_load sodium clients g))) [
          | inl stuck ↦ cc (rw (stuck, wait_and_conclude) at h)
          | inr (s, run) ↦ of_guard IsAccount (rw (run, wait_and_conclude) at h) λ over.
              let none_left : all_left requests s.clients ≡ 0 =
                all_finished-left requests s.clients over in
              conclude-IsAccount s (omega (arith, (run_load-sum pk es g s run).0))
        ]

    -- Where both numbers and their product lie below 2^63, over every schedule and whatever the
    -- network answers: the load test finds a total of 0 only if the product is 0; else the accepted
    -- and the failed requests of its summary make up the product, it ends with success only if
    -- every request was accepted, and with failures only if one was not.
    pub load_main-IsAccount :
        (fs : Files) (path : Bytes) (es : List LoadEvent) (g : Rng) (out : Outcome)
        → load_main sodium fs path clients requests es g ≡ some out
        → IsAccount out
    unfolding load_main
    load_main-IsAccount fs path es g out h = elim (Option-cases (init sodium g).0) [
      | inr (e, failed) ↦ of_some IsAccount (rw (failed, load_main) at h) tt
      | inl ready ↦ elim (Result-cases (load_key_from_file path (pos 32) fs)) [
        | inr (e, missing) ↦ of_some IsAccount (rw (ready, missing, load_main) at h) tt
        | inl (pk, loaded) ↦
            let positive : leb (2 ^ 63) clients ≡ false = ground arith in
            wait_and_conclude-IsAccount pk es _ out
              (rw (ready, loaded, positive, load_main, load_test, is_neg64) at h)
      ]
    ]
