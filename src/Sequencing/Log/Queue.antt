-- ===== src/Sequencing/Log/Queue.antt =====
-- TxQueue keeps the promises of OrderedLog, where nobody else consumes from it.
use mathlib.Core.List.{append_cancel_left}
use mathlib.Core.Option.{some-injective}
use secureorder.Prelude.{
  ℕ, zero, suc, List, [], ◌∷◌, ◌++◌, Option, none, some, ◌≡◌, refl, sym, ap, ◌∙◌, inl, inr,
  append_assoc, append-nil, append_snoc, of_some, of_none, of_guard, Option-cases, List-cases,
}
use secureorder.Prelude.Int.{pos}
use secureorder.Error.{GoError}
use secureorder.Sequencing.Transaction.{EncryptedTransaction}
use secureorder.Sequencing.Log.{OrderedLog, IsOrderedLog}
use secureorder.Sequencing.Queue.{TxQueue, Event, admission, hand_over, step, history, close_queue}
use secureorder.Sequencing.Queue.Runs.{step-IsGrown}
use secureorder.Sequencing.Queue.Drain.{
  Wake, other, receive_ch, receive_handed, cancel, Drained, drain_wait, drain_wait_loop, in_hand,
}
use secureorder.Sequencing.Queue.Waits.{IsOthers, IsSoleConsumer, step-taken, drain_wait-batch}

given :
    Option (Option (Drained × TxQueue))
    → Option ((List EncryptedTransaction × Option GoError) × TxQueue)
given (some (some (d, q))) = some ((d.batch, d.error), q)
given _ = none

-- A schedule in which only DrainWait consumes.
unfoldable pub tx_queue_log : OrderedLog
unfolding given
tx_queue_log = record {
  Log = TxQueue;
  Action = (e : Event) × IsOthers e;
  Schedule = (ws : List Wake) × IsSoleConsumer ws;
  stream = history;
  ahead = λ q. q.ch;
  act = λ e q. step q e.0;
  drain_wait = λ n ws q. given (drain_wait n ws.0 q);
  close = close_queue;
}

of_given :
    (r : Option (Option (Drained × TxQueue))) (batch : List EncryptedTransaction)
    (e : Option GoError) (q : TxQueue)
    → given r ≡ some ((batch, e), q)
    → r ≡ some (some (record { batch = batch; error = e }, q))
unfolding tx_queue_log
of_given none batch e q h = cc
of_given (some none) batch e q h = cc
of_given (some (some (d, p))) batch e q h =
    ap
      (λ (r : (List EncryptedTransaction × Option GoError) × TxQueue).
        some (some (record { batch = r.0.0; error = r.0.1 }, r.1)))
      (some-injective _ _ h)

-- What the history gains beside what was taken stands in the channel.
gained :
    (taken ch more batch ch' taken' hist' : List EncryptedTransaction)
    → hist' ≡ (taken ++ ch) ++ more
    → hist' ≡ taken' ++ ch'
    → taken' ≡ taken ++ batch
    → ch ++ more ≡ batch ++ ch'
gained taken ch more batch ch' taken' hist' e e' t =
    append_cancel_left taken (ch ++ more) (batch ++ ch') (
      sym (append_assoc taken ch more)
      ∙ sym e
      ∙ e'
      ∙ ap (λ l. l ++ ch') t
      ∙ append_assoc taken batch ch')

abbrev Grows : TxQueue → TxQueue → Type 0
Grows q q' = (later : List EncryptedTransaction) × (history q' ≡ history q ++ later)

step-Grows : (q q' : TxQueue) (e : Event) → step q e ≡ some q' → Grows q q'
step-Grows q q' e st = let g = step-IsGrown q q' e st in (g.later, g.kept)

step_after_step : (q p q' : TxQueue) → Grows q p → Grows p q' → Grows q q'
step_after_step q p q' (more, e) (more', e') =
    (more ++ more', e' ∙ ap (λ l. l ++ more') e ∙ append_assoc (history q) more more')

drain_wait_loop-Grows :
    (n : ℕ) (ws : List Wake) (q : TxQueue) (batch : List EncryptedTransaction)
    (r : Drained × TxQueue)
    → drain_wait_loop n ws q batch ≡ some r
    → Grows q r.1
unfolding drain_wait_loop
drain_wait_loop-Grows zero ws q batch r e =
    of_some (λ p. Grows q p.1) e ([], sym (append-nil (history q)))
drain_wait_loop-Grows (suc n) [] q batch r e = of_none (λ p. Grows q p.1) e
drain_wait_loop-Grows (suc n) (other ev ∷ ws) q batch r e = elim (Option-cases (step q ev)) [
  | inl stuck ↦ cc (rw (stuck, drain_wait_loop) at e)
  | inr (p, st) ↦
      step_after_step q p r.1 (step-Grows q p ev st)
        (drain_wait_loop-Grows (suc n) ws p batch r (rw (st, drain_wait_loop) at e))
]
drain_wait_loop-Grows (suc n) (receive_ch ∷ ws) q batch r e = elim (List-cases q.ch) [
  | inl empty ↦
      of_guard (λ p. Grows q p.1) (rw (empty, drain_wait_loop) at e)
        λ d. ([], sym (append-nil (history q)))
  | inr (tx, rest, full) ↦
      let p = record q { ch = rest; taken = q.taken ++ tx ∷ [] } in
      step_after_step q p r.1
        (
          [],
          append_snoc q.taken tx rest
              ∙ ap (λ c. q.taken ++ c) (sym full)
              ∙ sym (append-nil (history q)),
        )
        (drain_wait_loop-Grows n ws p (batch ++ tx ∷ []) r (rw (full, drain_wait_loop) at e))
]
drain_wait_loop-Grows (suc n) (receive_handed ∷ ws) q batch r e =
    elim (Option-cases (in_hand q.loop)) [
      | inl nothing ↦ cc (rw (nothing, drain_wait_loop) at e)
      | inr (tx, hand) ↦ elim (Option-cases (step q (admission hand_over))) [
        | inl stuck ↦ cc (rw (hand, stuck, drain_wait_loop) at e)
        | inr (p, st) ↦ step_after_step q p r.1 (step-Grows q p (admission hand_over) st) (
            drain_wait_loop-Grows n ws p (batch ++ tx ∷ []) r (rw (hand, st, drain_wait_loop) at e))
      ]
    ]
drain_wait_loop-Grows (suc n) (cancel g ∷ ws) q batch r e =
    of_some (λ p. Grows q p.1) e ([], sym (append-nil (history q)))

-- TxQueue with one consumer fills OrderedLog: what the other goroutines do appends to the history
-- and to the channel alike; a DrainWait of a positive size that returns took its batch from the
-- front of the channel, in order, and gives a whole batch without an error or a shorter one with
-- an error; Close loses nothing, and a second Close changes nothing.
pub tx_queue_log-IsOrderedLog : IsOrderedLog tx_queue_log
unfolding tx_queue_log drain_wait close_queue
tx_queue_log-IsOrderedLog = record {
  act_appends = λ a q q' st.
      let (more, e) = step-Grows q q' a.0 st in
      (
        more,
        e,
        sym (
            gained q.taken q.ch more [] q'.ch q'.taken (history q') e refl
              (step-taken q q' a.0 a.1 st ∙ sym (append-nil q.taken))),
      );
  drains_in_order = λ n ws q q' batch e h.
      let r = of_given (drain_wait (pos (suc n)) ws.0 q) batch e q' h in
      let (more, grown) =
        drain_wait_loop-Grows (suc n) ws.0 q [] (record { batch = batch; error = e }, q')
          (some-injective _ _ r) in
      let (got, sized) =
        drain_wait-batch (suc n) ws.0 q q' (record { batch = batch; error = e }) ws.1 r in
      (more, grown, gained q.taken q.ch more batch q'.ch q'.taken (history q') grown refl got);
  drains_whole = λ n ws q q' batch e h.
      let r = of_given (drain_wait (pos (suc n)) ws.0 q) batch e q' h in
      let (got, sized) =
        drain_wait-batch (suc n) ws.0 q q' (record { batch = batch; error = e }) ws.1 r in
      sized;
  closes_once = λ q. refl;
  close_keeps = λ q. (refl, refl);
}
