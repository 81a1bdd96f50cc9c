-- ===== src/Commands/LiveDemo/Draining.antt =====
-- The draining and printing of the live demo.
use secureorder.Prelude.{
  ℕ, zero, suc, ◌+◌, List, [], ◌∷◌, ◌++◌, Option, none, some, ◌≡◌, refl, sym, ◌∙◌, ap, arith,
  length, length-append, leb, of_some, of_none, Option-cases, Bool-cases, inl, inr,
}
use secureorder.Error.{Bytes}
use secureorder.Privacy.Sodium.{Sodium}
use secureorder.Privacy.Decrypt.{decrypt_single}
use secureorder.Sequencing.Transaction.{EncryptedTransaction}
use secureorder.Sequencing.Queue.{TxQueue, Event, LoopEvent, hand_over, admission, take_one, step}
use secureorder.Sequencing.Queue.Receipts.{step-IsAccounted}
use secureorder.Sequencing.Queue.Waits.{step-taken, hand_over-taken}
use secureorder.Sequencing.Queue.Drain.{in_hand}
use secureorder.Sequencing.Queue.Counting.{step-calls}
use secureorder.Commands.Background.{admits_alone, of_admits_alone}
use secureorder.Commands.LiveDemo.{
  Display, resting, draining, stopped, Live, with_queue, start_tick, collect_one, receive_first,
  receive_handed, receive, receive_directly, plaintext_of, print_batch, unlock, end_tick, live_step,
}
use secureorder.Commands.LiveDemo.Account.{collected, IsOver, IsLive}

module _ (sodium : Sodium) where
  open sodium use {Rng}

  -- A move of the queue that brings in nothing and takes nothing out.
  pub admit-IsLive :
      (e : LoopEvent) (s s' : Live sodium)
      → IsLive sodium s
      → with_queue sodium (admits_alone e s.queue) s ≡ some s'
      → IsLive sodium s'
  unfolding live_step
  admit-IsLive e s s' h st = elim (Option-cases (admits_alone e s.queue)) [
    | inl stuck ↦ of_none (IsLive sodium) (rw (stuck, with_queue) at st)
    | inr (q, goes) ↦
        let (moves, others) = of_admits_alone e s.queue q goes in
        of_some (IsLive sodium) (rw (goes, with_queue) at st) (record {
          accounted = step-IsAccounted s.queue q (admission e) moves h.accounted;
          drained =
              h.drained
              ∙ ap (λ (l : List EncryptedTransaction). length l)
                  (sym (step-taken s.queue q (admission e) others moves));
          counted = omega (arith, h.counted, step-calls s.queue q (admission e) moves h.accounted);
          numbered = h.numbered;
          over = h.over;
        })
  ]

  pub start_tick-IsLive :
      (p : Display) (s s' : Live sodium)
      → s.display ≡ p
      → IsLive sodium s
      → start_tick sodium p s ≡ some s'
      → IsLive sodium s'
  unfolding live_step
  start_tick-IsLive resting s s' at h st = of_some (IsLive sodium) st (record {
    accounted = h.accounted;
    drained = rw at at h.drained;
    counted = h.counted;
    numbered = h.numbered;
    over = tt;
  })
  start_tick-IsLive (draining n batch) s s' at h st = of_none (IsLive sodium) st
  start_tick-IsLive stopped s s' at h st = of_none (IsLive sodium) st

  -- DrainWait has received a transaction by a step of the queue.
  collect_one-IsLive :
      (n k : ℕ) (batch : List EncryptedTransaction) (tx : EncryptedTransaction) (e : Event)
      (s s' : Live sodium)
      → s.display ≡ draining k batch
      → IsLive sodium s
      → ((q : TxQueue)
          → step s.queue e ≡ some q
          → (q.taken ≡ s.queue.taken ++ tx ∷ []) × (q.calls ≡ s.queue.calls))
      → collect_one sodium n batch tx (step s.queue e) s ≡ some s'
      → IsLive sodium s'
  unfolding live_step
  collect_one-IsLive n k batch tx e s s' at h moved st = elim (Option-cases (step s.queue e)) [
    | inl stuck ↦ of_none (IsLive sodium) (rw (stuck, collect_one) at st)
    | inr (q, goes) ↦
        let (takes, same) = moved q goes in
        let grown : length q.taken ≡ length (s.queue.taken ++ tx ∷ []) =
          ap (λ (l : List EncryptedTransaction). length l) takes in
        of_some (IsLive sodium) (rw (goes, collect_one) at st) (record {
          accounted = step-IsAccounted s.queue q e goes h.accounted;
          drained = omega (
            arith,
            (rw at at h.drained),
            grown,
            length-append s.queue.taken (tx ∷ []),
            length-append batch (tx ∷ []),
          );
          counted = omega (arith, h.counted, same);
          numbered = h.numbered;
          over = tt;
        })
  ]

  receive_first-IsLive :
      (n k : ℕ) (batch ch : List EncryptedTransaction) (s s' : Live sodium)
      → s.display ≡ draining k batch
      → s.queue.ch ≡ ch
      → IsLive sodium s
      → receive_first sodium n batch ch s ≡ some s'
      → IsLive sodium s'
  unfolding live_step step
  receive_first-IsLive n k batch [] s s' at here h st = of_none (IsLive sodium) st
  receive_first-IsLive n k batch (tx ∷ ch) s s' at here h st =
      collect_one-IsLive n k batch tx take_one s s' at h
        (λ q goes.
          of_some (λ p. (p.taken ≡ s.queue.taken ++ tx ∷ []) × (p.calls ≡ s.queue.calls))
            (rw here at goes) (refl, refl))
        st

  receive_handed-IsLive :
      (n k : ℕ) (batch : List EncryptedTransaction) (o : Option EncryptedTransaction)
      (s s' : Live sodium)
      → s.display ≡ draining k batch
      → in_hand s.queue.loop ≡ o
      → IsLive sodium s
      → receive_handed sodium n batch o s ≡ some s'
      → IsLive sodium s'
  unfolding live_step
  receive_handed-IsLive n k batch none s s' at here h st = of_none (IsLive sodium) st
  receive_handed-IsLive n k batch (some tx) s s' at here h st =
      collect_one-IsLive n k batch tx (admission hand_over) s s' at h
        (λ q goes. (
          hand_over-taken s.queue q s.queue.loop tx here (unfold step in goes),
          omega (arith, step-calls s.queue q (admission hand_over) goes h.accounted),
        ))
        st

  pub receive-IsLive :
      (p : Display) (s s' : Live sodium)
      → s.display ≡ p
      → IsLive sodium s
      → receive sodium p s ≡ some s'
      → IsLive sodium s'
  unfolding live_step
  receive-IsLive (draining (suc n) batch) s s' at h st =
      receive_first-IsLive n (suc n) batch s.queue.ch s s' at refl h st
  receive-IsLive (draining zero batch) s s' at h st = of_none (IsLive sodium) st
  receive-IsLive resting s s' at h st = of_none (IsLive sodium) st
  receive-IsLive stopped s s' at h st = of_none (IsLive sodium) st

  pub receive_directly-IsLive :
      (p : Display) (s s' : Live sodium)
      → s.display ≡ p
      → IsLive sodium s
      → receive_directly sodium p s ≡ some s'
      → IsLive sodium s'
  unfolding live_step
  receive_directly-IsLive (draining (suc n) batch) s s' at h st =
      receive_handed-IsLive n (suc n) batch (in_hand s.queue.loop) s s' at refl h st
  receive_directly-IsLive (draining zero batch) s s' at h st = of_none (IsLive sodium) st
  receive_directly-IsLive resting s s' at h st = of_none (IsLive sodium) st
  receive_directly-IsLive stopped s s' at h st = of_none (IsLive sodium) st

  -- Printing the batch counts it, and leaves the rest alone.
  record IsPrinted (n : ℕ) (s s' : Live sodium) : Type 0 where
    same_queue : s'.queue ≡ s.queue
    same_submitter : s'.submitter ≡ s.submitter
    same_errors : s'.seal_errors ≡ s.seal_errors
    more : s'.processed ≡ s.processed + n

  print_batch-IsPrinted :
      (pk sk : Bytes) (batch : List EncryptedTransaction) (s : Live sodium)
      → IsPrinted (length batch) s (print_batch sodium pk sk batch s)
  unfolding live_step
  print_batch-IsPrinted pk sk [] s = record {
    same_queue = refl;
    same_submitter = refl;
    same_errors = refl;
    more = omega arith;
  }
  print_batch-IsPrinted pk sk (tx ∷ batch) s =
      let r = decrypt_single sodium tx.ciphertext pk sk s.memory in
      let rest = print_batch-IsPrinted pk sk batch (record s {
        memory = r.1;
        processed = s.processed + 1;
        printed = s.printed ++ (tx.seq, plaintext_of sodium r.0) ∷ [];
      }) in
      record {
        same_queue = rest.same_queue;
        same_submitter = rest.same_submitter;
        same_errors = rest.same_errors;
        more = omega (arith, rest.more);
      }

  unlock-IsOver :
      (s : Live sodium)
      → IsOver (unlock sodium s).processed (unlock sodium s).display
        × (collected (unlock sodium s).display ≡ 0)
  unfolding live_step
  unlock-IsOver s = elim (Bool-cases (leb 50 s.processed)) [
    | inl enough ↦ rw enough (ground arith, refl)
    | inr few ↦ rw few (tt, refl)
  ]

  pub end_tick-IsLive :
      (pk sk : Bytes) (p : Display) (s s' : Live sodium)
      → s.display ≡ p
      → IsLive sodium s
      → end_tick sodium pk sk p s ≡ some s'
      → IsLive sodium s'
  unfolding live_step
  end_tick-IsLive pk sk (draining n batch) s s' at h st =
      let out = print_batch sodium pk sk batch s in
      let i = print_batch-IsPrinted pk sk batch s in
      let (over, none_held) = unlock-IsOver out in
      let same : length out.queue.taken ≡ length s.queue.taken =
        ap (λ (q : TxQueue). length q.taken) i.same_queue in
      of_some (IsLive sodium) st (record {
        accounted = rw i.same_queue h.accounted;
        drained = omega (arith, i.more, (rw at at h.drained), none_held, same);
        counted = rw (i.same_queue, i.same_errors, i.same_submitter) h.counted;
        numbered = rw i.same_submitter h.numbered;
        over = over;
      })
  end_tick-IsLive pk sk resting s s' at h st = of_none (IsLive sodium) st
  end_tick-IsLive pk sk stopped s s' at h st = of_none (IsLive sodium) st
