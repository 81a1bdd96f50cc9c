-- ===== src/Commands/Demo.antt =====
-- cmd/demo/main.go: ten clients submit to a local queue at the same time, and then main drains the
-- queue, decrypts the batch and checks its order. A schedule of the goroutines is a list of
-- events; `%.6f` is given for the whole numbers that the demo prints.
pub mod Runs
pub mod Order
pub mod Rows
mod Tests
use secureorder.Prelude.{
  ℕ, ◌+◌, List, [], ◌∷◌, ◌++◌, map, Bool, true, false, Option, none, some, ltb, leb, ◌&&◌,
  if◌then◌else◌, take, get_elem?, set,
}
use secureorder.Prelude.{Result, ok, err}
use secureorder.Prelude.Int.{ℤ, pos}
use secureorder.Text.{codes}
use secureorder.Error.{Bytes, GoError}
use secureorder.Encoding.Decimal.{format_nat, format_int}
use secureorder.Privacy.Sodium.{Sodium}
use secureorder.Commands.Background.{two_digits, admits_alone, calls_alone}
use secureorder.Privacy.Memory.{CMemory}
use secureorder.Privacy.Keys.{init, new_sequencer_keys}
use secureorder.Privacy.Decrypt.{seal, decrypt_single}
use secureorder.Sequencing.Transaction.{EncryptedTransaction}
use secureorder.Sequencing.Queue.{
  TxQueue, LoopEvent, check_expired, send_expired, hand_over, admission, new_tx_queue, step,
}
use secureorder.Sequencing.Queue.Calls.{Call, CallEvent, entering, returned, saw_expired, call_step}
use secureorder.Sequencing.Queue.Drain.{
  Drained, Wake, other, receive_ch, receive_handed, cancel, drain_wait, queue_len,
}

-- `%.6f`.
pub six_decimals : ℕ → Bytes
six_decimals n = format_nat n ++ codes ".000000"

-- The payload of the client `id` at a Unix time.
unfoldable pub payload : ℕ → ℤ → Bytes
unfolding two_digits six_decimals
payload id now =
    codes "TRADE|"
    ++ two_digits id
    ++ codes "|BUY|ETH/USDC|"
    ++ six_decimals id
    ++ codes "|"
    ++ six_decimals (3000 + id)
    ++ codes "|"
    ++ format_int now

-- A client's goroutine: with its number before its call, in q.Submit, or at its end after a seal error.
pub data Client : Type 0 where
  starting : ℕ → Client
  calling : Call → Client
  gave_up : GoError → Client

unfoldable pub num_clients : ℕ
num_clients = 10

unfoldable pub client_ids : List ℕ
client_ids = 1 ∷ 2 ∷ 3 ∷ 4 ∷ 5 ∷ 6 ∷ 7 ∷ 8 ∷ 9 ∷ 10 ∷ []

-- A client builds and seals its payload at a time; a client's call moves on; the admission goroutine
-- moves, while nobody receives from the queue.
pub data DemoEvent : Type 0 where
  seals : ℕ → ℤ → DemoEvent
  calls : ℕ → CallEvent → DemoEvent
  admits : LoopEvent → DemoEvent

-- While main drains, only the admission goroutine is there.
pub wakes_alone : Wake → Bool
wakes_alone (other (admission (check_expired e))) = false
wakes_alone (other (admission (send_expired e))) = false
wakes_alone (other (admission hand_over)) = false
wakes_alone (other (admission e)) = true
wakes_alone (other e) = false
wakes_alone _ = true

pub all_alone : List Wake → Bool
unfolding wakes_alone
all_alone [] = true
all_alone (w ∷ ws) = wakes_alone w && all_alone ws

-- wg.Wait.
pub all_finished : List Client → Bool
all_finished [] = true
all_finished (calling (returned r) ∷ cs) = all_finished cs
all_finished (gave_up e ∷ cs) = all_finished cs
all_finished (_ ∷ cs) = false

pub record Row : Type 0 where
  pub seq : ℕ
  pub prefix : Bytes
  pub plaintext : Bytes
  pub arrived_at : ℤ

pub record DemoReport : Type 0 where
  pub queue_length : ℕ
  pub drain_error : Option GoError
  pub rows : List Row
  pub fifo : Bool

-- The loop that verifies the order, behind a transaction.
pub fifo_after : EncryptedTransaction → List EncryptedTransaction → Bool
fifo_after a [] = true
fifo_after a (b ∷ rest) = let later = fifo_after b rest in if leb b.seq a.seq then false else later

pub fifo_check : List EncryptedTransaction → Bool
unfolding fifo_after
fifo_check [] = true
fifo_check (a ∷ rest) = fifo_after a rest

pub shown : Result GoError Bytes → Bytes
shown (ok plaintext) = plaintext
shown (err e) = codes "<decrypt-error>"

pub data Outcome : Type 0 where
  init_failed : GoError → Outcome
  key_generation_failed : GoError → Outcome
  reported : DemoReport → Outcome

module _ (sodium : Sodium) where
  open sodium use {Rng}

  pub record Demo : Type 0 where
    pub rng : Rng
    pub queue : TxQueue
    pub clients : List Client

  unfoldable pub start : Rng → Demo
  unfolding client_ids
  start g = record { rng = g; queue = new_tx_queue 64; clients = map starting client_ids }

  pub sealed : Result GoError Bytes → Client
  sealed (ok ciphertext) = calling (entering ciphertext)
  sealed (err e) = gave_up e

  pub seals_with : Bytes → ℕ → ℤ → Option Client → Demo → Option Demo
  unfolding sealed
  seals_with pk i now (some (starting id)) s =
      let (r, g) = seal sodium (payload id now) pk s.rng in
      some (record s { rng = g; clients = set s.clients i (sealed r) })
  seals_with pk i now _ s = none

  pub moved : ℕ → Option (Call × TxQueue) → Demo → Option Demo
  moved i none s = none
  moved i (some (c, q)) s = some (record s { queue = q; clients = set s.clients i (calling c) })

  pub calls_with : ℕ → CallEvent → Option Client → Demo → Option Demo
  unfolding moved calls_alone
  calls_with i e (some (calling c)) s = moved i (calls_alone c e s.queue) s
  calls_with i e _ s = none

  pub admitted : Option TxQueue → Demo → Option Demo
  admitted none s = none
  admitted (some q) s = some (record s { queue = q })

  unfoldable pub demo_step : Bytes → DemoEvent → Demo → Option Demo
  unfolding seals_with calls_with admitted admits_alone
  demo_step pk (seals i now) s = seals_with pk i now (get_elem? s.clients i) s
  demo_step pk (calls i e) s = calls_with i e (get_elem? s.clients i) s
  demo_step pk (admits e) s = admitted (admits_alone e s.queue) s

  unfoldable pub run_demo : Bytes → List DemoEvent → Demo → Option Demo
  unfolding demo_step
  run_demo pk [] s = some s
  run_demo pk (e ∷ es) s = elim (demo_step pk e s) [ none ↦ none | some s' ↦ run_demo pk es s' ]

  -- The table: a row for each transaction of the batch.
  unfoldable pub rows_of : Bytes → Bytes → List EncryptedTransaction → CMemory → List Row × CMemory
  unfolding shown
  rows_of pk sk [] m = ([], m)
  rows_of pk sk (tx ∷ batch) m =
      let (r, m') = decrypt_single sodium tx.ciphertext pk sk m in
      let (rows, m'') = rows_of pk sk batch m' in
      (
        record {
          seq = tx.seq;
          prefix = take 24 tx.ciphertext;
          plaintext = shown r;
          arrived_at = tx.arrived_at;
        }
            ∷ rows,
        m'',
      )

  pub report_of : Bytes → Bytes → ℕ → Option (Option (Drained × TxQueue)) → CMemory → Option Outcome
  unfolding fifo_check
  report_of pk sk n (some (some (d, q))) m = some (
      reported (record {
        queue_length = n;
        drain_error = d.error;
        rows = (rows_of pk sk d.batch m).0;
        fifo = fifo_check d.batch;
      }))
  report_of pk sk n _ m = none

  -- main behind wg.Wait; DrainWait has a batch size of `num_clients`.
  pub drain_and_report : Bytes → Bytes → List Wake → CMemory → Option Demo → Option Outcome
  unfolding report_of all_finished all_alone num_clients
  drain_and_report pk sk ws m none = none
  drain_and_report pk sk ws m (some s) =
      if all_finished s.clients && all_alone ws
      then report_of pk sk (queue_len s.queue) (drain_wait (pos num_clients) ws s.queue) m
      else none

  -- `none`: a schedule that is not possible, or that ends before main does.
  unfoldable pub demo_main : List DemoEvent → List Wake → Rng → CMemory → Option Outcome
  unfolding drain_and_report
  demo_main es ws g m =
      let (failed, g1) = init sodium g in
      let (made, g2) = new_sequencer_keys sodium g1 in
      elim failed [
        | some e ↦ some (init_failed e)
        | none ↦ elim made [
          | err e ↦ some (key_generation_failed e)
          | ok keys ↦ drain_and_report keys.0 keys.1 ws m (run_demo keys.0 es (start g2))
        ]
      ]
