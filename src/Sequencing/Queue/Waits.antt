-- ===== src/Sequencing/Queue/Waits.antt =====
-- DrainWait of `TxQueue`: what it returns, whatever the other goroutines do while it waits.
use mathlib.Core.Option.{none-ne-some, some-injective}
use secureorder.Prelude.{
  ℕ, zero, suc, ◌≤◌, ◌<◌, List, [], ◌∷◌, ◌++◌, none, some, ◌≡◌, refl, sym, ap, ◌∙◌, arith,
  append-nil, append_snoc, of_some, of_guard, of_guard_not, of_none, length, take, drop, replicate,
  true, Option-cases, List-cases, inl, inr, ◌⊎◌,
}
use secureorder.Prelude.Int.{pos}
use secureorder.Error.{GoError, queue_closed}
use secureorder.Sequencing.Transaction.{EncryptedTransaction}
use secureorder.Sequencing.Queue.Steps.{of_receive, of_reject, of_parked}
use secureorder.Sequencing.Queue.Drain.{
  Drained, Wake, other, receive_ch, receive_handed, cancel, drain_wait, drain_wait_loop, in_hand,
}
use secureorder.Sequencing.Queue.{
  TxQueue, Event, admission, submit, submit_direct, take_one, close, step, Loop, sending, hand_over,
  LoopEvent, see_done, receive, check_expired, check_done, check_passed, commit, send_expired,
  send_done, reject_next, reject_end, waiting, checking, rejecting, stopped, loop_step,
}

-- The others do not receive from the channel.
abbrev pub IsOthers : Event → Type 0
IsOthers take_one = ⊥
IsOthers (admission hand_over) = ⊥
IsOthers _ = Unit

abbrev pub IsSoleConsumer : List Wake → Type 0
IsSoleConsumer [] = Unit
IsSoleConsumer (other e ∷ ws) = IsOthers e × IsSoleConsumer ws
IsSoleConsumer (_ ∷ ws) = IsSoleConsumer ws

-- What a return of DrainWait looks like, `n` transactions short of its size with `batch` collected.
record IsReturn (n : ℕ) (batch : List EncryptedTransaction) (q : TxQueue) (r : Drained × TxQueue)
    : Type 0 where
  got : List EncryptedTransaction
  collected : r.0.batch ≡ batch ++ got
  received : r.1.taken ≡ q.taken ++ got
  sized :
      ((r.0.error ≡ none) × (length got ≡ n))
      ⊎ ((e : GoError) × (r.0.error ≡ some e) × (length got < n))

loop_step-taken :
    (q q' : TxQueue) (l : Loop) (e : LoopEvent)
    → IsOthers (admission e)
    → loop_step l e q ≡ some q'
    → q'.taken ≡ q.taken
unfolding step
loop_step-taken q q' waiting see_done o s = of_guard (λ p. p.taken ≡ q.taken) s λ d. refl
loop_step-taken q q' waiting receive o s =
    of_receive (λ p. p.taken ≡ q.taken) q q.submit_ch s λ req rest e. refl
loop_step-taken q q' (checking req) (check_expired e) o s = of_some (λ p. p.taken ≡ q.taken) s refl
loop_step-taken q q' (checking req) check_done o s = of_guard (λ p. p.taken ≡ q.taken) s λ d. refl
loop_step-taken q q' (checking req) (check_passed now) o s =
    of_guard_not (λ p. p.taken ≡ q.taken) s λ d. refl
loop_step-taken q q' (sending req tx) commit o s = of_guard (λ p. p.taken ≡ q.taken) s λ d. refl
loop_step-taken q q' (sending req tx) hand_over o s = absurd o
loop_step-taken q q' (sending req tx) (send_expired e) o s = of_some (λ p. p.taken ≡ q.taken) s refl
loop_step-taken q q' (sending req tx) send_done o s = of_guard (λ p. p.taken ≡ q.taken) s λ d. refl
loop_step-taken q q' rejecting reject_next o s =
    of_reject (λ p. p.taken ≡ q.taken) q q.submit_ch s λ req rest e. refl
loop_step-taken q q' rejecting reject_end o s = of_guard (λ p. p.taken ≡ q.taken) s λ d. refl
loop_step-taken q q' _ _ o s = of_none (λ p. p.taken ≡ q.taken) s

pub step-taken : (q q' : TxQueue) (e : Event) → IsOthers e → step q e ≡ some q' → q'.taken ≡ q.taken
unfolding step
step-taken q q' (admission e) o s = loop_step-taken q q' q.loop e o s
step-taken q q' (submit ct) o s = of_guard (λ p. p.taken ≡ q.taken) s λ d. refl
step-taken q q' (submit_direct ct) o s =
    of_parked (λ p. p.taken ≡ q.taken) q q.loop ct s (λ e nil. refl) (λ e nil. refl)
step-taken q q' take_one o s = absurd o
step-taken q q' close o s = of_some (λ p. p.taken ≡ q.taken) s refl

pub hand_over-taken :
    (q q' : TxQueue) (l : Loop) (tx : EncryptedTransaction)
    → in_hand l ≡ some tx
    → loop_step l hand_over q ≡ some q'
    → q'.taken ≡ q.taken ++ tx ∷ []
unfolding step in_hand
hand_over-taken q q' (sending req t) tx i s =
    of_guard (λ p. p.taken ≡ q.taken ++ tx ∷ []) s λ d. rw (some-injective _ _ i)
hand_over-taken q q' waiting tx i s = cc
hand_over-taken q q' (checking req) tx i s = cc
hand_over-taken q q' rejecting tx i s = cc
hand_over-taken q q' stopped tx i s = cc

one_more :
    (n : ℕ) (batch : List EncryptedTransaction) (q p : TxQueue) (r : Drained × TxQueue)
    (tx : EncryptedTransaction)
    → p.taken ≡ q.taken ++ tx ∷ []
    → IsReturn n (batch ++ tx ∷ []) p r
    → IsReturn (suc n) batch q r
one_more n batch q p r tx e h = record {
  got = tx ∷ h.got;
  collected = h.collected ∙ append_snoc batch tx h.got;
  received = h.received ∙ rw e (append_snoc q.taken tx h.got);
  sized = elim h.sized [
    | inl (ok, l) ↦ inl (ok, ap suc l)
    | inr (er, eq, l) ↦ inr (er, eq, omega arith)
  ];
}

drain_wait_loop-IsReturn :
    (n : ℕ) (ws : List Wake) (q : TxQueue) (batch : List EncryptedTransaction)
    (r : Drained × TxQueue)
    → IsSoleConsumer ws
    → drain_wait_loop n ws q batch ≡ some r
    → IsReturn n batch q r
unfolding drain_wait_loop
drain_wait_loop-IsReturn zero ws q batch r c e = of_some (IsReturn zero batch q) e (record {
  got = [];
  collected = sym (append-nil batch);
  received = sym (append-nil q.taken);
  sized = inl (refl, refl);
})
drain_wait_loop-IsReturn (suc n) [] q batch r c e = of_none (IsReturn (suc n) batch q) e
drain_wait_loop-IsReturn (suc n) (other ev ∷ ws) q batch r c e = elim (Option-cases (step q ev)) [
  | inl stuck ↦ absurd (none-ne-some _ (rw (stuck, drain_wait_loop) at e))
  | inr (p, s) ↦
      let h = drain_wait_loop-IsReturn (suc n) ws p batch r c.1 (rw (s, drain_wait_loop) at e) in
      record {
        got = h.got;
        collected = h.collected;
        received = rw (← step-taken q p ev c.0 s) h.received;
        sized = h.sized;
      }
]
drain_wait_loop-IsReturn (suc n) (receive_ch ∷ ws) q batch r c e = elim (List-cases q.ch) [
  | inl nil ↦ of_guard (IsReturn (suc n) batch q) (rw (nil, drain_wait_loop) at e) λ closed.
      (record {
        got = [];
        collected = sym (append-nil batch);
        received = sym (append-nil q.taken);
        sized = inr (queue_closed, refl, omega arith);
      })
  | inr (tx, rest, ch) ↦
      let p : TxQueue = record q { ch = rest; taken = q.taken ++ tx ∷ [] } in
      one_more n batch q p r tx refl
        (drain_wait_loop-IsReturn n ws p (batch ++ tx ∷ []) r c (rw (ch, drain_wait_loop) at e))
]
drain_wait_loop-IsReturn (suc n) (receive_handed ∷ ws) q batch r c e =
    elim (Option-cases (in_hand q.loop)) [
      | inl nil ↦ absurd (none-ne-some _ (rw (nil, drain_wait_loop) at e))
      | inr (tx, i) ↦ elim (Option-cases (step q (admission hand_over))) [
        | inl stuck ↦ absurd (none-ne-some _ (rw (i, stuck, drain_wait_loop) at e))
        | inr (p, s) ↦
            one_more n batch q p r tx (hand_over-taken q p q.loop tx i (unfold step in s)) (
              drain_wait_loop-IsReturn n ws p (batch ++ tx ∷ []) r c
                (rw (i, s, drain_wait_loop) at e))
      ]
    ]
drain_wait_loop-IsReturn (suc n) (cancel err ∷ ws) q batch r c e =
    of_some (IsReturn (suc n) batch q) e (record {
      got = [];
      collected = sym (append-nil batch);
      received = sym (append-nil q.taken);
      sized = inr (err, refl, omega arith);
    })

-- Whatever the other goroutines do meanwhile, as long as they receive nothing from the queue, a
-- DrainWait of `n` that returns has received its batch, in order, directly after what was taken
-- before; it returns no error with exactly `n` transactions, and an error with fewer.
pub drain_wait-batch :
    (n : ℕ) (ws : List Wake) (q q' : TxQueue) (d : Drained)
    → IsSoleConsumer ws
    → drain_wait (pos n) ws q ≡ some (some (d, q'))
    → (q'.taken ≡ q.taken ++ d.batch)
      × (((d.error ≡ none) × (length d.batch ≡ n))
          ⊎ ((e : GoError) × (d.error ≡ some e) × (length d.batch < n)))
unfolding drain_wait
drain_wait-batch n ws q q' d c e =
    let r = drain_wait_loop-IsReturn n ws q [] (d, q') c (some-injective _ _ e) in
    rw r.collected (r.received, r.sized)

ready :
    (n : ℕ) (ch : List EncryptedTransaction) (q : TxQueue) (batch : List EncryptedTransaction)
    → q.ch ≡ ch
    → n ≤ length ch
    → drain_wait_loop n (replicate n receive_ch) q batch
      ≡ some (
        record { batch = batch ++ take n ch; error = none },
        record q { ch = drop n ch; taken = q.taken ++ take n ch },
      )
unfolding drain_wait_loop
ready zero ch q batch e h = simp (append-nil, ← e)
ready (suc n) [] q batch e h = absurd (omega arith)
ready (suc n) (tx ∷ rest) q batch e h =
    rw
      (
        e,
        drain_wait_loop,
        ready n rest (record q { ch = rest; taken = q.taken ++ tx ∷ [] }) (batch ++ tx ∷ []) refl
            (omega arith),
      )
      (simp append_snoc)

-- DrainWait returns as soon as it can: with at least `n` transactions buffered, `n` receives
-- return the oldest `n`, without an error, and leave the rest.
pub drain_wait_ready :
    (n : ℕ) (q : TxQueue)
    → n ≤ length q.ch
    → drain_wait (pos n) (replicate n receive_ch) q
      ≡ some (
          some (
            record { batch = take n q.ch; error = none },
            record q { ch = drop n q.ch; taken = q.taken ++ take n q.ch },
          ))
unfolding drain_wait
drain_wait_ready n q h = ap some (ready n q.ch q [] refl h)

closed_short :
    (n : ℕ) (ch : List EncryptedTransaction) (q : TxQueue) (batch : List EncryptedTransaction)
    → q.ch ≡ ch
    → q.ch_closed ≡ true
    → length ch < n
    → drain_wait_loop n (replicate (suc (length ch)) receive_ch) q batch
      ≡ some (
        record { batch = batch ++ ch; error = some queue_closed },
        record q { ch = []; taken = q.taken ++ ch },
      )
unfolding drain_wait_loop
closed_short zero ch q batch e c h = absurd (omega arith)
closed_short (suc n) [] q batch e c h = rw (e, drain_wait_loop, c) (simp (append-nil, ← e))
closed_short (suc n) (tx ∷ rest) q batch e c h =
    rw
      (
        e,
        drain_wait_loop,
        closed_short n rest (record q { ch = rest; taken = q.taken ++ tx ∷ [] }) (batch ++ tx ∷ [])
            refl c (omega arith),
      )
      (simp append_snoc)

-- After shutdown nothing buffered is lost: with fewer than `n` transactions in the closed channel,
-- DrainWait returns all of them, together with ErrQueueClosed.
pub drain_wait_closed :
    (n : ℕ) (q : TxQueue)
    → q.ch_closed ≡ true
    → length q.ch < n
    → drain_wait (pos n) (replicate (suc (length q.ch)) receive_ch) q
      ≡ some (
          some (
            record { batch = q.ch; error = some queue_closed },
            record q { ch = []; taken = q.taken ++ q.ch },
          ))
unfolding drain_wait
drain_wait_closed n q c h = ap some (closed_short n q.ch q [] refl c h)
