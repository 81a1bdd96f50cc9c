-- ===== src/Sequencing/Queue/Drain.antt =====
-- The consumer's side of `TxQueue`: Drain, DrainWait and Len of pkg/sequencing/queue.go.
use secureorder.Prelude.{
  ℕ, zero, suc, ◌-◌, List, [], ◌∷◌, ◌++◌, Option, none, some, ◌≡◌, append_assoc, append-nil,
  append_snoc, length, take, drop, if◌then◌else◌, is_empty, refl, ap, ◌∙◌, length-drop,
  take-append-drop,
}
use secureorder.Prelude.Int.{ℤ, pos, negsuc}
use secureorder.Error.{GoError, queue_closed}
use secureorder.Sequencing.Transaction.{EncryptedTransaction}
use secureorder.Sequencing.Queue.{
  TxQueue, Event, admission, step, history, Loop, sending, hand_over,
}

-- `len(q.ch)`.
unfoldable pub queue_len : TxQueue → ℕ
queue_len q = length q.ch

-- While DrainWait blocks or waits for its turn, other goroutines act; then its `select` receives
-- from the buffer of `q.ch`, or straight from the admission goroutine, or finds its context done.
pub data Wake : Type 0 where
  other : Event → Wake
  receive_ch : Wake
  receive_handed : Wake
  cancel : GoError → Wake

pub record Drained : Type 0 where
  pub batch : List EncryptedTransaction
  pub error : Option GoError

-- The transaction that the admission goroutine is about to send.
unfoldable pub in_hand : Loop → Option EncryptedTransaction
in_hand (sending req tx) = some tx
in_hand _ = none

-- The loop of Drain, `n` transactions short of `maxBatch`, over a schedule as for DrainWait, without
-- a context. It takes its `default`, at the end of the schedule, only if nothing is buffered; a closed
-- channel ends it too.
drain_loop :
    ℕ
    → List Wake
    → TxQueue
    → List EncryptedTransaction
    → Option (List EncryptedTransaction × TxQueue)
unfolding in_hand
drain_loop zero ws q batch = some (batch, q)
drain_loop (suc n) [] q batch = if is_empty q.ch then some (batch, q) else none
drain_loop (suc n) (other e ∷ ws) q batch = elim (step q e) [
  | none ↦ none
  | some q' ↦ drain_loop (suc n) ws q' batch
]
drain_loop (suc n) (receive_ch ∷ ws) q batch = elim q.ch [
  | [] ↦ if q.ch_closed then some (batch, q) else none
  | tx ∷ rest ↦
      drain_loop n ws (record q { ch = rest; taken = q.taken ++ tx ∷ [] }) (batch ++ tx ∷ [])
]
drain_loop (suc n) (receive_handed ∷ ws) q batch = elim (in_hand q.loop) [
  | none ↦ none
  | some tx ↦ elim (step q (admission hand_over)) [
    | none ↦ none
    | some q' ↦ drain_loop n ws q' (batch ++ tx ∷ [])
  ]
]
drain_loop (suc n) (cancel e ∷ ws) q batch = none

-- `make` panics at a negative capacity: `none`.
unfoldable pub drain :
    ℤ → List Wake → TxQueue → Option (Option (List EncryptedTransaction × TxQueue))
unfolding drain_loop
drain (negsuc n) ws q = none
drain (pos n) ws q = some (drain_loop n ws q [])

-- `none`: still blocked when the schedule ends, or an event of the schedule is not possible.
unfoldable pub drain_wait_loop :
    ℕ → List Wake → TxQueue → List EncryptedTransaction → Option (Drained × TxQueue)
drain_wait_loop zero ws q batch = some (record { batch = batch; error = none }, q)
drain_wait_loop (suc n) [] q batch = none
drain_wait_loop (suc n) (other e ∷ ws) q batch = elim (step q e) [
  | none ↦ none
  | some q' ↦ drain_wait_loop (suc n) ws q' batch
]
drain_wait_loop (suc n) (receive_ch ∷ ws) q batch = elim q.ch [
  | [] ↦ if q.ch_closed then some (record { batch = batch; error = some queue_closed }, q) else none
  | tx ∷ rest ↦
      drain_wait_loop n ws (record q { ch = rest; taken = q.taken ++ tx ∷ [] }) (batch ++ tx ∷ [])
]
drain_wait_loop (suc n) (receive_handed ∷ ws) q batch = elim (in_hand q.loop) [
  | none ↦ none
  | some tx ↦ elim (step q (admission hand_over)) [
    | none ↦ none
    | some q' ↦ drain_wait_loop n ws q' (batch ++ tx ∷ [])
  ]
]
drain_wait_loop (suc n) (cancel e ∷ ws) q batch = some (record { batch = batch; error = some e }, q)

unfoldable pub drain_wait : ℤ → List Wake → TxQueue → Option (Option (Drained × TxQueue))
unfolding drain_wait_loop in_hand
drain_wait (negsuc n) ws q = none
drain_wait (pos n) ws q = some (drain_wait_loop n ws q [])

-- The receives of a Drain that no other goroutine gets in the way of.
receives : ℕ → List EncryptedTransaction → List Wake
receives zero ch = []
receives (suc n) [] = []
receives (suc n) (tx ∷ ch) = receive_ch ∷ receives n ch

drain_loop-take :
    (n : ℕ) (ch : List EncryptedTransaction) (q : TxQueue) (batch : List EncryptedTransaction)
    → drain_loop n (receives n ch) (record q { ch = ch }) batch
      ≡ some (batch ++ take n ch, record q { ch = drop n ch; taken = q.taken ++ take n ch })
unfolding drain_loop receives
drain_loop-take zero ch q batch = rw (append-nil batch, append-nil q.taken) refl
drain_loop-take (suc n) [] q batch = rw (append-nil batch, append-nil q.taken) refl
drain_loop-take (suc n) (tx ∷ ch) q batch =
    drain_loop-take n ch (record q { taken = q.taken ++ tx ∷ [] }) (batch ++ tx ∷ [])
    ∙ rw (append_snoc batch tx (take n ch), append_snoc q.taken tx (take n ch)) refl

-- Drain with a nonnegative batch size, while no other goroutine acts, takes the oldest buffered
-- transactions, as many as there are up to the size, leaves the others in their order, and changes
-- nothing else of the history.
pub drain-take :
    (n : ℕ) (q : TxQueue)
    → (ws : List Wake) × (q' : TxQueue) × (drain (pos n) ws q ≡ some (some (take n q.ch, q')))
      × (queue_len q' ≡ queue_len q - n)
      × (history q' ≡ history q)
unfolding drain queue_len
drain-take n q = (
  receives n q.ch,
  record q { ch = drop n q.ch; taken = q.taken ++ take n q.ch },
  ap some (drain_loop-take n q.ch q []),
  length-drop n q.ch,
  rw (append_assoc, take-append-drop),
)
