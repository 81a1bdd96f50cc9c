-- ===== src/Sequencing/Queue/WaitSteps.antt =====
-- DrainWait of `TxQueue` as steps of the queue.
use mathlib.Core.Option.{none-ne-some, some-injective}
use secureorder.Prelude.{
  ℕ, zero, suc, ◌≤◌, List, [], ◌∷◌, ◌++◌, some, ◌≡◌, refl, arith, length, All, of_some, of_none,
  of_guard, Option-cases, List-cases, inl, inr, ◌+◌, length-append, All-append,
}
use secureorder.Prelude.Int.{pos}
use secureorder.Error.{Bytes}
use secureorder.Sequencing.Transaction.{EncryptedTransaction}
use secureorder.Sequencing.Queue.Steps.{run-cons, of_run-step}
use secureorder.Sequencing.Queue.Sent.{Brings}
use secureorder.Sequencing.Queue.Drain.{
  Drained, Wake, other, receive_ch, receive_handed, cancel, drain_wait, drain_wait_loop, in_hand,
}
use secureorder.Sequencing.Queue.{TxQueue, Event, admission, take_one, step, run, hand_over}

-- While DrainWait waits, the others bring in only such payloads.
abbrev pub BringsWake {κ} : (Bytes → Type κ) → Wake → Type κ
BringsWake P (other e) = Brings P e
BringsWake P _ = Unit

-- A schedule of the queue that leads from one state to another, no longer than the waiting.
pub record IsReached {κ} (P : Bytes → Type κ) (most : ℕ) (q q' : TxQueue) : Type κ where
  pub events : List Event
  pub short : length events ≤ most
  pub possible : run q events ≡ some q'
  pub made : All (Brings P) events

pub IsReached-refl {κ} : (P : Bytes → Type κ) (n : ℕ) (q : TxQueue) → IsReached P n q q
unfolding run
IsReached-refl P n q = record { events = []; short = omega arith; possible = refl; made = tt }

pub IsReached-cons {κ} :
    (P : Bytes → Type κ) (n : ℕ) (q p q' : TxQueue) (e : Event)
    → Brings P e
    → step q e ≡ some p
    → IsReached P n p q'
    → IsReached P (suc n) q q'
IsReached-cons P n q p q' e b s r = record {
  events = e ∷ r.events;
  short = omega (arith, r.short);
  possible = run-cons q p q' e r.events s r.possible;
  made = (b, r.made);
}

pub drain_wait_loop-IsReached {κ} :
    (P : Bytes → Type κ) (n : ℕ) (ws : List Wake) (q : TxQueue) (batch : List EncryptedTransaction)
    (r : Drained × TxQueue)
    → All (BringsWake P) ws
    → drain_wait_loop n ws q batch ≡ some r
    → IsReached P (length ws) q r.1
unfolding drain_wait_loop
drain_wait_loop-IsReached P zero ws q batch r c e =
    of_some (λ x. IsReached P (length ws) q x.1) e (IsReached-refl P (length ws) q)
drain_wait_loop-IsReached P (suc n) [] q batch r c e = of_none (λ x. IsReached P 0 q x.1) e
drain_wait_loop-IsReached P (suc n) (other ev ∷ ws) q batch r c e =
    elim (Option-cases (step q ev)) [
      | inl stuck ↦ absurd (none-ne-some _ (rw (stuck, drain_wait_loop) at e))
      | inr (p, s) ↦
          IsReached-cons P (length ws) q p r.1 ev c.0 s
            (drain_wait_loop-IsReached P (suc n) ws p batch r c.1 (rw (s, drain_wait_loop) at e))
    ]
drain_wait_loop-IsReached P (suc n) (receive_ch ∷ ws) q batch r c e = elim (List-cases q.ch) [
  | inl nil ↦
      of_guard (λ x. IsReached P (suc (length ws)) q x.1) (rw (nil, drain_wait_loop) at e)
        λ closed. IsReached-refl P (suc (length ws)) q
  | inr (tx, rest, ch) ↦
      let p : TxQueue = record q { ch = rest; taken = q.taken ++ tx ∷ [] } in
      IsReached-cons P (length ws) q p r.1 take_one tt (unfold step in rw ch refl) (
        drain_wait_loop-IsReached P n ws p (batch ++ tx ∷ []) r c.1 (rw (ch, drain_wait_loop) at e))
]
drain_wait_loop-IsReached P (suc n) (receive_handed ∷ ws) q batch r c e =
    elim (Option-cases (in_hand q.loop)) [
      | inl nil ↦ absurd (none-ne-some _ (rw (nil, drain_wait_loop) at e))
      | inr (tx, i) ↦ elim (Option-cases (step q (admission hand_over))) [
        | inl stuck ↦ absurd (none-ne-some _ (rw (i, stuck, drain_wait_loop) at e))
        | inr (p, s) ↦ IsReached-cons P (length ws) q p r.1 (admission hand_over) tt s (
            drain_wait_loop-IsReached P n ws p (batch ++ tx ∷ []) r c.1
              (rw (i, s, drain_wait_loop) at e))
      ]
    ]
drain_wait_loop-IsReached P (suc n) (cancel err ∷ ws) q batch r c e =
    of_some (λ x. IsReached P (suc (length ws)) q x.1) e (IsReached-refl P (suc (length ws)) q)

-- One schedule after another.
run-append :
    (q p r : TxQueue) (es fs : List Event)
    → run q es ≡ some p
    → run p fs ≡ some r
    → run q (es ++ fs) ≡ some r
run-append q p r [] fs x y =
    let e : some q ≡ some p = (unfold run in x) in rw (some-injective q p e) y
run-append q p r (e ∷ es) fs x y =
    let (p', s, rest) = of_run-step q p e es x in
    run-cons q p' r e (es ++ fs) s (run-append p' p r es fs rest y)

pub IsReached-append {κ} :
    (P : Bytes → Type κ) (m n most : ℕ) (q p r : TxQueue)
    → m + n ≤ most
    → IsReached P m q p
    → IsReached P n p r
    → IsReached P most q r
IsReached-append P m n most q p r le x y = record {
  events = x.events ++ y.events;
  short = omega (arith, length-append x.events y.events, x.short, y.short);
  possible = run-append q p r x.events y.events x.possible y.possible;
  made = All-append (Brings P) x.events y.events x.made y.made;
}

pub drain_wait-IsReached {κ} :
    (P : Bytes → Type κ) (n : ℕ) (ws : List Wake) (q q' : TxQueue) (d : Drained)
    → All (BringsWake P) ws
    → drain_wait (pos n) ws q ≡ some (some (d, q'))
    → IsReached P (length ws) q q'
unfolding drain_wait
drain_wait-IsReached P n ws q q' d c e =
    drain_wait_loop-IsReached P n ws q [] (d, q') c (some-injective _ _ e)
