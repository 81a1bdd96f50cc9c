-- ===== src/Commands/LiveDemo/Account.antt =====
-- What the live demo has sent, drained and processed, and its submitting goroutine.
use secureorder.Prelude.{
  ℕ, ◌+◌, ◌-◌, ◌≤◌, List, [], ◌∷◌, some, ◌≡◌, refl, sym, ◌∙◌, ap, arith, length, length-append, ltb,
  of_some, of_none, Option-cases, Bool-cases, inl, inr,
}
use secureorder.Prelude.{Result, ok, err}
use secureorder.Prelude.Int.{ℤ}
use secureorder.Error.{Bytes, GoError}
use secureorder.Privacy.Sodium.{Sodium}
use secureorder.Privacy.Memory.{CMemory}
use secureorder.Privacy.Decrypt.{seal}
use secureorder.Sequencing.Transaction.{EncryptedTransaction}
use secureorder.Sequencing.Queue.{new_tx_queue}
use secureorder.Sequencing.Queue.Receipts.{IsAccounted}
use secureorder.Sequencing.Queue.Runs.{new-IsAccounted}
use secureorder.Sequencing.Queue.Calls.{Call, CallEvent, entering, awaiting, returned}
use secureorder.Sequencing.Queue.Counting.{call_step-IsSpent, unsent}
use secureorder.Commands.Background.{calls_alone, of_calls_alone}
use secureorder.Commands.LiveDemo.Trades.{Draws, payload, tx_info, push_recent}
use secureorder.Commands.LiveDemo.{
  Submitter, iterating, submitting, recording, finished, next_iteration, after_call, Display,
  draining, stopped, Live, new_live, after_seal, seal_trade, called, call_submit, with_lock,
  record_submission, live_step,
}

-- The iterations that have not sent their request yet.
abbrev pub to_send : Submitter → ℕ
to_send (iterating i) = 51 - i
to_send (submitting i d c) = 50 - i + unsent c
to_send (recording i d) = 50 - i
to_send finished = 0

abbrev pub IsNumbered : Submitter → Type 0
IsNumbered (iterating i) = i ≤ 50
IsNumbered (submitting i d c) = i ≤ 50
IsNumbered _ = Unit

-- The batch that DrainWait has collected.
abbrev pub collected : Display → ℕ
collected (draining n batch) = length batch
collected _ = 0

abbrev pub IsOver : ℕ → Display → Type 0
IsOver processed stopped = 50 ≤ processed
IsOver processed _ = Unit

next_iteration-to_send : (i : ℕ) → to_send (next_iteration i) ≤ 50 - i
unfolding live_step
next_iteration-to_send i = elim (Bool-cases (ltb i 50)) [
  | inl more ↦ rw more (omega arith)
  | inr done ↦ rw done (omega arith)
]

next_iteration-IsNumbered : (i : ℕ) → IsNumbered (next_iteration i)
unfolding live_step
next_iteration-IsNumbered i = elim (Bool-cases (ltb i 50)) [
  | inl more ↦ rw more (ground arith)
  | inr done ↦ rw done tt
]

after_call-to_send : (i : ℕ) (d : Draws) (c : Call) → to_send (after_call i d c) ≤ 50 - i + unsent c
unfolding live_step
after_call-to_send i d (entering ct) = omega arith
after_call-to_send i d (awaiting t) = omega arith
after_call-to_send i d (returned (ok tx)) = omega arith
after_call-to_send i d (returned (err e)) = omega (arith, next_iteration-to_send i)

after_call-IsNumbered : (i : ℕ) (d : Draws) (c : Call) → i ≤ 50 → IsNumbered (after_call i d c)
unfolding live_step
after_call-IsNumbered i d (entering ct) h = h
after_call-IsNumbered i d (awaiting t) h = h
after_call-IsNumbered i d (returned (ok tx)) h = tt
after_call-IsNumbered i d (returned (err e)) h = next_iteration-IsNumbered i

module _ (sodium : Sodium) where
  open sodium use {Rng}

  -- What was drained from the queue is processed or in the batch; each of the fifty iterations has
  -- sent at most one request or printed one seal error.
  pub record IsLive (s : Live sodium) : Type 0 where
    pub accounted : IsAccounted s.queue
    pub drained : s.processed + collected s.display ≡ length s.queue.taken
    pub counted : s.queue.calls + length s.seal_errors + to_send s.submitter ≤ 50
    pub numbered : IsNumbered s.submitter
    pub over : IsOver s.processed s.display

  pub new_live-IsLive : (g : Rng) (m : CMemory) → IsLive (new_live sodium g m)
  unfolding new_live new_tx_queue
  new_live-IsLive g m = record {
    accounted = unfold new_tx_queue in new-IsAccounted 256;
    drained = refl;
    counted = omega arith;
    numbered = omega arith;
    over = tt;
  }

  after_seal-IsLive :
      (i : ℕ) (d : Draws) (r : Result GoError Bytes) (s : Live sodium) (g : Rng)
      → s.submitter ≡ iterating i
      → IsLive s
      → IsLive (after_seal sodium i d r (record s { rng = g }))
  unfolding live_step
  after_seal-IsLive i d (ok ct) s g at h = record {
    accounted = h.accounted;
    drained = h.drained;
    counted = omega (arith, (rw at at h.counted), (rw at at h.numbered));
    numbered = rw at at h.numbered;
    over = h.over;
  }
  after_seal-IsLive i d (err e) s g at h = record {
    accounted = h.accounted;
    drained = h.drained;
    counted = omega (
      arith,
      (rw at at h.counted),
      (rw at at h.numbered),
      next_iteration-to_send i,
      length-append s.seal_errors (e ∷ []),
    );
    numbered = next_iteration-IsNumbered i;
    over = h.over;
  }

  pub seal_trade-IsLive :
      (pk : Bytes) (d : Draws) (nanos : ℤ) (b : Submitter) (s s' : Live sodium)
      → s.submitter ≡ b
      → IsLive s
      → seal_trade sodium pk d nanos b s ≡ some s'
      → IsLive s'
  unfolding live_step
  seal_trade-IsLive pk d nanos (iterating i) s s' at h st =
      let r = seal sodium (payload d nanos) pk s.rng in
      of_some IsLive st (after_seal-IsLive i d r.0 s r.1 at h)
  seal_trade-IsLive pk d nanos (submitting i e c) s s' at h st = of_none IsLive st
  seal_trade-IsLive pk d nanos (recording i e) s s' at h st = of_none IsLive st
  seal_trade-IsLive pk d nanos finished s s' at h st = of_none IsLive st

  pub call_submit-IsLive :
      (e : CallEvent) (b : Submitter) (s s' : Live sodium)
      → s.submitter ≡ b
      → IsLive s
      → call_submit sodium e b s ≡ some s'
      → IsLive s'
  unfolding live_step
  call_submit-IsLive e (submitting i d c) s s' at h st =
      elim (Option-cases (calls_alone c e s.queue)) [
        | inl stuck ↦ of_none IsLive (rw (stuck, called) at st)
        | inr ((c', q), goes) ↦
            let m =
              call_step-IsSpent c e s.queue (c', q) h.accounted
                (of_calls_alone c e s.queue (c', q) goes) in
            of_some IsLive (rw (goes, called) at st) (record {
              accounted = m.accounted;
              drained =
                  h.drained ∙ ap (λ (l : List EncryptedTransaction). length l) (sym m.untaken);
              counted = omega (arith, (rw at at h.counted), after_call-to_send i d c', m.spent);
              numbered = after_call-IsNumbered i d c' (rw at at h.numbered);
              over = h.over;
            })
      ]
  call_submit-IsLive e (iterating i) s s' at h st = of_none IsLive st
  call_submit-IsLive e (recording i d) s s' at h st = of_none IsLive st
  call_submit-IsLive e finished s s' at h st = of_none IsLive st

  recorded-IsLive :
      (p : Display) (i : ℕ) (d : Draws) (s s' : Live sodium)
      → s.submitter ≡ recording i d
      → IsLive s
      → with_lock sodium p (record s {
        submitter = next_iteration i;
        submitted = s.submitted + 1;
        transactions = push_recent s.transactions (tx_info d);
      })
        ≡ some s'
      → IsLive s'
  unfolding live_step
  recorded-IsLive (draining n batch) i d s s' at h st = of_none IsLive st
  recorded-IsLive _ i d s s' at h st = of_some IsLive st (record {
    accounted = h.accounted;
    drained = h.drained;
    counted = omega (arith, (rw at at h.counted), next_iteration-to_send i);
    numbered = next_iteration-IsNumbered i;
    over = h.over;
  })

  pub record_submission-IsLive :
      (b : Submitter) (s s' : Live sodium)
      → s.submitter ≡ b
      → IsLive s
      → record_submission sodium b s ≡ some s'
      → IsLive s'
  unfolding live_step
  record_submission-IsLive (recording i d) s s' at h st = recorded-IsLive s.display i d s s' at h st
  record_submission-IsLive (iterating i) s s' at h st = of_none IsLive st
  record_submission-IsLive (submitting i d c) s s' at h st = of_none IsLive st
  record_submission-IsLive finished s s' at h st = of_none IsLive st
