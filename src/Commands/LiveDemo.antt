-- ===== src/Commands/LiveDemo.antt =====
-- cmd/live-demo/main.go: a goroutine submits fifty random trades to a local queue, while main drains
-- the queue at each tick, under a mutex, and stops after fifty transactions. The random numbers,
-- the clock and the scheduler's choices are the events' arguments; of the terminal only the
-- decrypted lines are kept.
pub mod Trades
pub mod Window
pub mod Account
pub mod Draining
pub mod Ending
mod Tests
use secureorder.Prelude.{
  ℕ, zero, suc, ◌+◌, List, [], ◌∷◌, ◌++◌, Option, none, some, ltb, leb, if◌then◌else◌, length, drop,
}
use secureorder.Prelude.{Result, ok, err}
use secureorder.Prelude.Int.{ℤ}
use secureorder.Text.{codes}
use secureorder.Error.{Bytes, GoError}
use secureorder.Encoding.Decimal.{format_nat, format_int}
use secureorder.Privacy.Sodium.{Sodium}
use secureorder.Privacy.Memory.{CMemory}
use secureorder.Privacy.Keys.{init, new_sequencer_keys}
use secureorder.Privacy.Decrypt.{seal, decrypt_single}
use secureorder.Sequencing.Transaction.{EncryptedTransaction}
use secureorder.Sequencing.Queue.{
  TxQueue, LoopEvent, hand_over, admission, take_one, new_tx_queue, step,
}
use secureorder.Sequencing.Queue.Calls.{Call, CallEvent, entering, awaiting, returned}
use secureorder.Sequencing.Queue.Drain.{in_hand}
use secureorder.Commands.LiveDemo.Trades.{Draws, payload, tx_info, push_recent}
use secureorder.Commands.Background.{two_digits, admits_alone, calls_alone}

-- The submitting goroutine: at the start of iteration `i`, in q.Submit, waiting for the mutex, or
-- returned.
pub data Submitter : Type 0 where
  iterating : ℕ → Submitter
  submitting : ℕ → Draws → Call → Submitter
  recording : ℕ → Draws → Submitter
  finished : Submitter

-- The test of the loop behind iteration `i`.
pub next_iteration : ℕ → Submitter
next_iteration i = if ltb i 50 then iterating (suc i) else finished

-- A nil error of Submit goes on to the mutex; an error is printed, and the loop goes on.
pub after_call : ℕ → Draws → Call → Submitter
unfolding next_iteration
after_call i d (returned (ok tx)) = recording i d
after_call i d (returned (err e)) = next_iteration i
after_call i d c = submitting i d c

-- main: between two ticks, in DrainWait with the mutex, so many transactions short of five and with a
-- batch, or past its loop.
pub data Display : Type 0 where
  resting : Display
  draining : ℕ → List EncryptedTransaction → Display
  stopped : Display

-- A trade is drawn and sealed; the call of Submit moves on; the submission is recorded under the
-- mutex; the admission goroutine moves; a tick; DrainWait receives, from the buffer or straight from
-- the admission goroutine; DrainWait ends, with its batch full or at its timeout.
pub data LiveEvent : Type 0 where
  seals : Draws → ℤ → LiveEvent
  calls : CallEvent → LiveEvent
  records : LiveEvent
  admits : LoopEvent → LiveEvent
  ticks : LiveEvent
  receives : LiveEvent
  is_handed : LiveEvent
  ends_tick : LiveEvent

module _ (sodium : Sodium) where
  open sodium use {Rng}

  -- `seal_errors` lists the errors of SealTransaction that were printed.
  pub record Live : Type 0 where
    pub rng : Rng
    pub memory : CMemory
    pub queue : TxQueue
    pub submitter : Submitter
    pub submitted : ℕ
    pub processed : ℕ
    pub transactions : List Bytes
    pub seal_errors : List GoError
    pub display : Display
    pub printed : List (ℕ × Bytes)

  unfoldable pub new_live : Rng → CMemory → Live
  new_live g m = record {
    rng = g;
    memory = m;
    queue = new_tx_queue 256;
    submitter = iterating 1;
    submitted = 0;
    processed = 0;
    transactions = [];
    seal_errors = [];
    display = resting;
    printed = [];
  }

  pub after_seal : ℕ → Draws → Result GoError Bytes → Live → Live
  unfolding next_iteration
  after_seal i d (ok ciphertext) s = record s { submitter = submitting i d (entering ciphertext) }
  after_seal i d (err e) s = record s {
    submitter = next_iteration i;
    seal_errors = s.seal_errors ++ e ∷ [];
  }

  pub seal_trade : Bytes → Draws → ℤ → Submitter → Live → Option Live
  unfolding after_seal
  seal_trade pk d nanos (iterating i) s =
      let (r, g) = seal sodium (payload d nanos) pk s.rng in
      some (after_seal i d r (record s { rng = g }))
  seal_trade pk d nanos _ s = none

  pub called : ℕ → Draws → Option (Call × TxQueue) → Live → Option Live
  unfolding after_call
  called i d none s = none
  called i d (some (c, q)) s = some (record s { queue = q; submitter = after_call i d c })

  pub call_submit : CallEvent → Submitter → Live → Option Live
  unfolding called
  call_submit e (submitting i d c) s = called i d (calls_alone c e s.queue) s
  call_submit e _ s = none

  -- main holds the mutex while it drains.
  pub with_lock : Display → Live → Option Live
  with_lock (draining n batch) s = none
  with_lock _ s = some s

  pub record_submission : Submitter → Live → Option Live
  unfolding with_lock next_iteration
  record_submission (recording i d) s = with_lock s.display (record s {
    submitter = next_iteration i;
    submitted = s.submitted + 1;
    transactions = push_recent s.transactions (tx_info d);
  })
  record_submission _ s = none

  pub with_queue : Option TxQueue → Live → Option Live
  with_queue none s = none
  with_queue (some q) s = some (record s { queue = q })

  pub start_tick : Display → Live → Option Live
  start_tick resting s = some (record s { display = draining 5 [] })
  start_tick _ s = none

  -- DrainWait appends a transaction; the queue has moved on.
  pub collect_one :
      ℕ → List EncryptedTransaction → EncryptedTransaction → Option TxQueue → Live → Option Live
  collect_one n batch tx none s = none
  collect_one n batch tx (some q) s =
      some (record s { queue = q; display = draining n (batch ++ tx ∷ []) })

  pub receive_first : ℕ → List EncryptedTransaction → List EncryptedTransaction → Live → Option Live
  unfolding collect_one
  receive_first n batch [] s = none
  receive_first n batch (tx ∷ ch) s = collect_one n batch tx (step s.queue take_one) s

  pub receive_handed :
      ℕ → List EncryptedTransaction → Option EncryptedTransaction → Live → Option Live
  unfolding collect_one
  receive_handed n batch none s = none
  receive_handed n batch (some tx) s = collect_one n batch tx (step s.queue (admission hand_over)) s

  pub receive : Display → Live → Option Live
  unfolding receive_first
  receive (draining (suc n) batch) s = receive_first n batch s.queue.ch s
  receive _ s = none

  pub receive_directly : Display → Live → Option Live
  unfolding receive_handed
  receive_directly (draining (suc n) batch) s = receive_handed n batch (in_hand s.queue.loop) s
  receive_directly _ s = none

  -- The printed plaintext is empty where DecryptSingle fails: its error is dropped.
  pub plaintext_of : Result GoError Bytes → Bytes
  plaintext_of (ok plaintext) = plaintext
  plaintext_of (err e) = []

  pub print_batch : Bytes → Bytes → List EncryptedTransaction → Live → Live
  unfolding plaintext_of
  print_batch pk sk [] s = s
  print_batch pk sk (tx ∷ batch) s =
      let (r, m) = decrypt_single sodium tx.ciphertext pk sk s.memory in
      print_batch pk sk batch (record s {
        memory = m;
        processed = s.processed + 1;
        printed = s.printed ++ (tx.seq, plaintext_of r) ∷ [];
      })

  pub unlock : Live → Live
  unlock s = record s { display = if leb 50 s.processed then stopped else resting }

  pub end_tick : Bytes → Bytes → Display → Live → Option Live
  unfolding unlock print_batch
  end_tick pk sk (draining n batch) s = some (unlock (print_batch pk sk batch s))
  end_tick pk sk _ s = none

  unfoldable pub live_step : Bytes → Bytes → LiveEvent → Live → Option Live
  unfolding seal_trade call_submit record_submission with_queue start_tick receive receive_directly
      end_tick
  live_step pk sk (seals d nanos) s = seal_trade pk d nanos s.submitter s
  live_step pk sk (calls e) s = call_submit e s.submitter s
  live_step pk sk records s = record_submission s.submitter s
  live_step pk sk (admits e) s = with_queue (admits_alone e s.queue) s
  live_step pk sk ticks s = start_tick s.display s
  live_step pk sk receives s = receive s.display s
  live_step pk sk is_handed s = receive_directly s.display s
  live_step pk sk ends_tick s = end_tick pk sk s.display s

  unfoldable pub run_live : Bytes → Bytes → List LiveEvent → Live → Option Live
  unfolding live_step
  run_live pk sk [] s = some s
  run_live pk sk (e ∷ es) s = elim (live_step pk sk e s) [
    | none ↦ none
    | some s' ↦ run_live pk sk es s'
  ]

  pub data Outcome : Type 0 where
    init_failed : GoError → Outcome
    key_generation_failed : GoError → Outcome
    running : Live → Outcome

  pub live_outcome : Option Live → Option Outcome
  live_outcome none = none
  live_outcome (some s) = some (running s)

  -- main, as far as a schedule goes.
  unfoldable pub live_main : List LiveEvent → Rng → CMemory → Option Outcome
  unfolding live_outcome
  live_main es g m =
      let (failed, g1) = init sodium g in
      let (made, g2) = new_sequencer_keys sodium g1 in
      elim failed [
        | some e ↦ some (init_failed e)
        | none ↦ elim made [
          | err e ↦ some (key_generation_failed e)
          | ok keys ↦ live_outcome (run_live keys.0 keys.1 es (new_live g2 m))
        ]
      ]
