-- ===== src/Sequencing/Queue.antt =====
-- pkg/sequencing/queue.go: the single-node queue `TxQueue`, as a machine whose steps are the cases
-- that the `select` statements of the admission goroutine, of the submitters and of the consumers
-- can take. A schedule of the goroutines is a list of events; `step` is `none` where an event is
-- not possible. The scheduler's choice among ready cases, the expiry of a caller's context and the
-- clock are the events' arguments.
pub mod Steps
pub mod Order
pub mod Receipts
pub mod Runs
pub mod Shutdown
pub mod Sent
pub mod Calls
pub mod Drain
pub mod Waits
pub mod Submitters
pub mod Payloads
pub mod Counting
pub mod WaitSteps
mod Tests
use secureorder.Prelude.{
  ℕ, ◌+◌, ◌%◌, ◌^◌, List, [], ◌∷◌, ◌++◌, Bool, true, false, Option, none, some, ltb, if◌then◌else◌,
  length, is_empty,
}
use secureorder.Prelude.{Result, ok, err}
use secureorder.Prelude.Int.{ℤ}
use secureorder.Error.{Bytes, GoError, queue_closed}
use secureorder.Sequencing.Transaction.{EncryptedTransaction}

-- `submitRequest`. The ticket stands for the call, that is for its own `resp` channel; contexts
-- come in by the events.
pub record SubmitRequest : Type 0 where
  pub ticket : ℕ
  pub ciphertext : Bytes

-- `submitResponse`, with the request whose `resp` channel it was sent on.
pub record SubmitResponse : Type 0 where
  pub request : SubmitRequest
  pub answer : Result GoError EncryptedTransaction

-- Where the admission goroutine stands in `runAdmissionLoop`: at the outer `select`, at the inner
-- one with a request, at the third one with a request and its stamped transaction, in
-- `rejectPendingSubmissions`, or returned.
pub data Loop : Type 0 where
  waiting : Loop
  checking : SubmitRequest → Loop
  sending : SubmitRequest → EncryptedTransaction → Loop
  rejecting : Loop
  stopped : Loop

-- `ch` and `submit_ch` are the buffers of the two channels, both of capacity `capacity`; `done` and
-- `ch_closed` say which channels are closed. `calls` counts the calls of SubmitWithReceipt that sent
-- a request. `taken` lists what consumers received from `q.ch`, and `responses` what the loop sent
-- on the `resp` channels, both in order; each is a record of the past that the code does not keep.
pub record TxQueue : Type 0 where
  pub capacity : ℕ
  pub ch : List EncryptedTransaction
  pub ch_closed : Bool
  pub submit_ch : List SubmitRequest
  pub done : Bool
  pub next_id : ℕ
  pub loop : Loop
  pub calls : ℕ
  pub taken : List EncryptedTransaction
  pub responses : List SubmitResponse

unfoldable pub new_tx_queue : ℕ → TxQueue
new_tx_queue capacity = record {
  capacity = capacity;
  ch = [];
  ch_closed = false;
  submit_ch = [];
  done = false;
  next_id = 0;
  loop = waiting;
  calls = 0;
  taken = [];
  responses = [];
}

-- The steps of the admission goroutine. `hand_over` is a send that a parked consumer receives at
-- once; with capacity 0 it is the only send that succeeds.
pub data LoopEvent : Type 0 where
  see_done : LoopEvent
  receive : LoopEvent
  check_expired : GoError → LoopEvent
  check_done : LoopEvent
  check_passed : ℤ → LoopEvent
  commit : LoopEvent
  hand_over : LoopEvent
  send_expired : GoError → LoopEvent
  send_done : LoopEvent
  reject_next : LoopEvent
  reject_end : LoopEvent

-- The steps of the others: a call of SubmitWithReceipt sends its request into the buffer, or
-- straight to the loop that receives it; a consumer receives; Close.
pub data Event : Type 0 where
  admission : LoopEvent → Event
  submit : Bytes → Event
  submit_direct : Bytes → Event
  take_one : Event
  close : Event

-- `req.resp <- submitResponse{...}`: the channel has room for the one answer of its request.
pub respond : SubmitRequest → Result GoError EncryptedTransaction → TxQueue → TxQueue
respond req a q = record q { responses = q.responses ++ record { request = req; answer = a } ∷ [] }

-- `q.nextID++` on a uint64, and the transaction that carries the new ID.
pub stamp : ℤ → SubmitRequest → TxQueue → TxQueue
stamp now req q =
    let n = (q.next_id + 1) % 2 ^ 64 in
    record q {
      next_id = n;
      loop = sending req (record { seq = n; ciphertext = req.ciphertext; arrived_at = now });
    }

pub receive_from : List SubmitRequest → TxQueue → Option TxQueue
receive_from [] q = none
receive_from (req ∷ rest) q = some (record q { submit_ch = rest; loop = checking req })

pub reject_from : List SubmitRequest → TxQueue → Option TxQueue
unfolding respond
reject_from [] q = none
reject_from (req ∷ rest) q =
    some (respond req (err queue_closed) (record q { submit_ch = rest; loop = rejecting }))

-- One step of `runAdmissionLoop`, by where the goroutine stands. The inner `select` takes its
-- `default` only if `done` is open.
pub loop_step : Loop → LoopEvent → TxQueue → Option TxQueue
unfolding respond stamp receive_from reject_from
loop_step waiting see_done q = if q.done then some (record q { loop = rejecting }) else none
loop_step waiting receive q = receive_from q.submit_ch q
loop_step (checking req) (check_expired e) q =
    some (respond req (err e) (record q { loop = waiting }))
loop_step (checking req) check_done q =
    if q.done then some (respond req (err queue_closed) (record q { loop = rejecting })) else none
loop_step (checking req) (check_passed now) q = if q.done then none else some (stamp now req q)
loop_step (sending req tx) commit q =
    if ltb (length q.ch) q.capacity
    then some (respond req (ok tx) (record q { ch = q.ch ++ tx ∷ []; loop = waiting }))
    else none
loop_step (sending req tx) hand_over q =
    if is_empty q.ch
    then some (respond req (ok tx) (record q { taken = q.taken ++ tx ∷ []; loop = waiting }))
    else none
loop_step (sending req tx) (send_expired e) q =
    some (respond req (err e) (record q { loop = waiting }))
loop_step (sending req tx) send_done q =
    if q.done then some (respond req (err queue_closed) (record q { loop = rejecting })) else none
loop_step rejecting reject_next q = reject_from q.submit_ch q
loop_step rejecting reject_end q =
    if is_empty q.submit_ch then some (record q { ch_closed = true; loop = stopped }) else none
loop_step _ _ q = none

-- The first `select` of SubmitWithReceipt, where it sends: the request carries a copy of the payload.
pub submit_request : Bytes → TxQueue → Option TxQueue
submit_request ct q =
    if ltb (length q.submit_ch) q.capacity
    then some (record q {
      submit_ch = q.submit_ch ++ record { ticket = q.calls; ciphertext = ct } ∷ [];
      calls = q.calls + 1;
    })
    else none

-- A sender that is parked hands its request straight to the loop at the outer `select`, or to
-- `rejectPendingSubmissions`, which answers it at once.
pub submit_parked : Loop → Bytes → TxQueue → Option TxQueue
unfolding respond
submit_parked waiting ct q =
    if is_empty q.submit_ch
    then some (record q {
      loop = checking (record { ticket = q.calls; ciphertext = ct });
      calls = q.calls + 1;
    })
    else none
submit_parked rejecting ct q =
    if is_empty q.submit_ch
    then some (
        respond (record { ticket = q.calls; ciphertext = ct }) (err queue_closed)
          (record q { loop = rejecting; calls = q.calls + 1 }))
    else none
submit_parked _ ct q = none

-- A receive from `q.ch` that yields a transaction.
pub take_from : List EncryptedTransaction → TxQueue → Option TxQueue
take_from [] q = none
take_from (tx ∷ rest) q = some (record q { ch = rest; taken = q.taken ++ tx ∷ [] })

-- `closeOnce` makes a second Close do nothing.
unfoldable pub close_queue : TxQueue → TxQueue
close_queue q = record q { done = true }

unfoldable pub step : TxQueue → Event → Option TxQueue
unfolding loop_step submit_request submit_parked take_from close_queue
step q (admission e) = loop_step q.loop e q
step q (submit ct) = submit_request ct q
step q (submit_direct ct) = submit_parked q.loop ct q
step q take_one = take_from q.ch q
step q close = some (close_queue q)

-- A schedule: `none` if one of its events is not possible where it stands.
unfoldable pub run : TxQueue → List Event → Option TxQueue
run q [] = some q
run q (e ∷ es) = elim (step q e) [ none ↦ none | some q' ↦ run q' es ]

-- What the rest of the sequencer has received and can still receive, in order.
abbrev pub history : TxQueue → List EncryptedTransaction
history q = q.taken ++ q.ch
