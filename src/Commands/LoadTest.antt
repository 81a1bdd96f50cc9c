-- ===== src/Commands/LoadTest.antt =====
-- cmd/rpc-loadtest/main.go: clients send requests to the sequencer at the same time and count the
-- accepted and the failed ones. An `int` or an int64 is given by its bits, a number below 2^64. The
-- network is outside: a schedule of the goroutines gives what gRPC answers.
pub mod Left
pub mod Counts
pub mod Summaries
mod Tests
use secureorder.Prelude.{
  ℕ, zero, suc, ◌+◌, ◌*◌, ◌%◌, ◌^◌, List, [], ◌∷◌, ◌++◌, Bool, true, false, Option, none, some, ltb,
  leb, ◌==◌, not, ◌&&◌, if◌then◌else◌, get_elem?, set,
}
use secureorder.Prelude.{Result, ok, err}
use secureorder.Prelude.Int.{ℤ, pos}
use secureorder.Text.{codes}
use secureorder.Error.{Bytes, GoError}
use secureorder.Encoding.Decimal.{format_nat, format_int}
use secureorder.Privacy.Sodium.{Sodium}
use secureorder.Privacy.Keys.{Files, public_key_bytes, init, load_key_from_file}
use secureorder.Privacy.Decrypt.{seal}

pub is_neg64 : ℕ → Bool
is_neg64 n = leb (2 ^ 63) n

pub add64 : ℕ → ℕ → ℕ
add64 a b = (a + b) % 2 ^ 64

pub mul64 : ℕ → ℕ → ℕ
mul64 a b = (a * b) % 2 ^ 64

-- How often a loop `for j := 0; j < n; j++` runs.
pub rounds : ℕ → ℕ
unfolding is_neg64
rounds n = if is_neg64 n then 0 else n

pub payload : ℕ → ℕ → ℤ → Bytes
payload id j nanos =
    codes "loadtest-client-"
    ++ format_nat id
    ++ codes "-req-"
    ++ format_nat j
    ++ codes "-"
    ++ format_int nanos

-- Where a client's goroutine stands: before grpc.NewClient, before its request `j`, waiting for the
-- answer to it, or returned.
pub data Client : Type 0 where
  dialing : Client
  requesting : ℕ → Client
  waiting : ℕ → Bytes → Client
  finished : Client

-- grpc.NewClient succeeds or fails; a payload is built at a time and sealed; SubmitTx gives an error or
-- `Accepted`.
pub data LoadEvent : Type 0 where
  dials : ℕ → Bool → LoadEvent
  seals : ℕ → ℤ → LoadEvent
  replies : ℕ → Result GoError Bool → LoadEvent

pub record Summary : Type 0 where
  pub total : ℕ
  pub successful : ℕ
  pub failed : ℕ

pub data Outcome : Type 0 where
  init_failed : GoError → Outcome
  key_not_loaded : GoError → Outcome
  negative_wait_group : Outcome
  total_is_zero : Outcome
  passed : Summary → Outcome
  with_failures : Summary → Outcome

-- wg.Wait.
pub all_finished : List Client → Bool
all_finished [] = true
all_finished (finished ∷ cs) = all_finished cs
all_finished (_ ∷ cs) = false

pub dialing_clients : ℕ → List Client
dialing_clients zero = []
dialing_clients (suc n) = dialing ∷ dialing_clients n

-- The test of the loop before request `j`.
pub next_request : ℕ → ℕ → Client
unfolding rounds
next_request requests j = if ltb j (rounds requests) then requesting j else finished

module _ (sodium : Sodium) where
  open sodium use {Rng}

  pub record LoadTest : Type 0 where
    pub rng : Rng
    pub success : ℕ
    pub failed : ℕ
    pub clients : List Client

  pub count_failure : ℕ → LoadTest → LoadTest
  unfolding add64
  count_failure n s = record s { failed = add64 s.failed n }

  pub count_success : LoadTest → LoadTest
  unfolding add64
  count_success s = record s { success = add64 s.success 1 }

  pub goes_to : ℕ → Client → LoadTest → LoadTest
  goes_to i c s = record s { clients = set s.clients i c }

  pub dialed : ℕ → ℕ → Bool → LoadTest → LoadTest
  unfolding count_failure goes_to next_request
  dialed requests i true s = goes_to i (next_request requests 0) s
  dialed requests i false s = goes_to i finished (count_failure requests s)

  pub dial : ℕ → ℕ → Bool → Option Client → LoadTest → Option LoadTest
  unfolding dialed
  dial requests i up (some dialing) s = some (dialed requests i up s)
  dial requests i up _ s = none

  pub sealed : ℕ → ℕ → ℕ → Result GoError Bytes → LoadTest → LoadTest
  unfolding count_failure goes_to next_request
  sealed requests i j (ok ciphertext) s = goes_to i (waiting j ciphertext) s
  sealed requests i j (err e) s = goes_to i (next_request requests (suc j)) (count_failure 1 s)

  pub seal_request : Bytes → ℕ → ℕ → ℤ → Option Client → LoadTest → Option LoadTest
  unfolding sealed payload
  seal_request pk requests i nanos (some (requesting j)) s =
      let (r, g) = seal sodium (payload i j nanos) pk s.rng in
      some (sealed requests i j r (record s { rng = g }))
  seal_request pk requests i nanos _ s = none

  pub counted : Result GoError Bool → LoadTest → LoadTest
  unfolding count_failure count_success
  counted (ok true) s = count_success s
  counted (ok false) s = count_failure 1 s
  counted (err e) s = count_failure 1 s

  pub reply : ℕ → ℕ → Result GoError Bool → Option Client → LoadTest → Option LoadTest
  unfolding counted goes_to next_request
  reply requests i r (some (waiting j ct)) s =
      some (goes_to i (next_request requests (suc j)) (counted r s))
  reply requests i r _ s = none

  unfoldable pub load_step : Bytes → ℕ → LoadEvent → LoadTest → Option LoadTest
  unfolding dial seal_request reply
  load_step pk requests (dials i up) s = dial requests i up (get_elem? s.clients i) s
  load_step pk requests (seals i nanos) s =
      seal_request pk requests i nanos (get_elem? s.clients i) s
  load_step pk requests (replies i r) s = reply requests i r (get_elem? s.clients i) s

  unfoldable pub run_load : Bytes → ℕ → List LoadEvent → LoadTest → Option LoadTest
  unfolding load_step
  run_load pk requests [] s = some s
  run_load pk requests (e ∷ es) s = elim (load_step pk requests e s) [
    | none ↦ none
    | some s' ↦ run_load pk requests es s'
  ]

  unfoldable pub new_load : ℕ → Rng → LoadTest
  unfolding dialing_clients
  new_load clients g = record {
    rng = g;
    success = 0;
    failed = 0;
    clients = dialing_clients clients;
  }

  -- main behind wg.Wait: a total of 0 ends it without the summary, and a positive number of failures
  -- ends it with the status of an error.
  pub conclude : ℕ → ℕ → LoadTest → Outcome
  unfolding mul64 is_neg64
  conclude clients requests s =
      let total = mul64 clients requests in
      let summary : Summary = record { total = total; successful = s.success; failed = s.failed } in
      if total == 0
      then total_is_zero
      else if not (is_neg64 s.failed) && not (s.failed == 0)
      then with_failures summary
      else passed summary

  pub wait_and_conclude : ℕ → ℕ → Option LoadTest → Option Outcome
  unfolding all_finished conclude
  wait_and_conclude clients requests none = none
  wait_and_conclude clients requests (some s) =
      if all_finished s.clients then some (conclude clients requests s) else none

  pub load_test : Bytes → ℕ → ℕ → List LoadEvent → Rng → Option Outcome
  unfolding wait_and_conclude is_neg64
  load_test pk clients requests es g =
      if is_neg64 clients
      then some negative_wait_group
      else wait_and_conclude clients requests (run_load pk requests es (new_load clients g))

  -- `none`: a schedule that is not possible, or that ends before main does.
  unfoldable pub load_main : Files → Bytes → ℕ → ℕ → List LoadEvent → Rng → Option Outcome
  unfolding load_test
  load_main fs pub_key_path clients requests es g =
      let (failed, g1) = init sodium g in
      elim failed [
        | some e ↦ some (init_failed e)
        | none ↦ elim (load_key_from_file pub_key_path (pos public_key_bytes) fs) [
          | err e ↦ some (key_not_loaded e)
          | ok pk ↦ load_test pk clients requests es g1
        ]
      ]
