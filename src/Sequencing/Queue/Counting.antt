-- ===== src/Sequencing/Queue/Counting.antt =====
-- How many transactions the callers of SubmitWithReceipt can have committed.
use secureorder.Prelude.{
  ℕ, List, [], ◌∷◌, ◌++◌, map, some, ◌≡◌, refl, of_some, ◌≤◌, length, arith, zero, suc, ◌+◌, ap,
  length-append, length-map,
}
use secureorder.Prelude.{Result, ok, err}
use secureorder.Error.{GoError}
use secureorder.Sequencing.Transaction.{EncryptedTransaction}
use secureorder.Sequencing.Queue.Steps.{of_run-step}
use secureorder.Sequencing.Queue.Receipts.{
  requests, held, receipts, add_receipt, IsAccounted, step-IsAccounted, tickets, upto,
}
use secureorder.Sequencing.Queue.Runs.{run-IsAccounted}
use secureorder.Sequencing.Queue.Sent.{brought, step-IsSent}
use secureorder.Sequencing.Queue.Calls.{
  Call, CallEvent, entering, awaiting, returned, send, send_parked, call_step,
}
use secureorder.Sequencing.Queue.{
  TxQueue, Event, submit, submit_direct, step, run, history, SubmitRequest, SubmitResponse,
}
use secureorder.Sequencing.Queue.Submitters.{
  call_moves, run-call_moves, IsMadeCall, call_step-IsMadeCall, run-taken, call_moves-IsOthers,
}

length-upto : (n : ℕ) → length (upto n) ≡ n
length-upto zero = refl
length-upto (suc n) = omega (arith, length-append (upto n) (n ∷ []), length-upto n)

-- The requests known to the queue are as many as the calls that sent one.
length-requests : (q : TxQueue) → IsAccounted q → length (requests q.loop q) ≡ q.calls
length-requests q a =
    let same : length (tickets (requests q.loop q)) ≡ length (upto q.calls) =
      ap (λ (l : List ℕ). length l) a.in_turn in
    omega (arith, same, length-map (λ r. r.ticket) (requests q.loop q), length-upto q.calls)

-- Only a call of SubmitWithReceipt counts as a call.
pub step-calls :
    (q q' : TxQueue) (e : Event)
    → step q e ≡ some q'
    → IsAccounted q
    → q'.calls ≡ q.calls + length (brought q e)
step-calls q q' e s a =
    let same : length (requests q'.loop q') ≡ length (requests q.loop q ++ brought q e) =
      ap (λ (l : List SubmitRequest). length l) (step-IsSent q q' e s).kept in
    omega (
      arith,
      same,
      length-append (requests q.loop q) (brought q e),
      length-requests q a,
      length-requests q' (step-IsAccounted q q' e s a),
    )

length-add_receipt :
    (a : Result GoError EncryptedTransaction) (txs : List EncryptedTransaction)
    → length (add_receipt a txs) ≤ suc (length txs)
length-add_receipt (ok tx) txs = omega arith
length-add_receipt (err e) txs = omega arith

length-receipts :
    (rs : List SubmitResponse) → length (receipts rs) ≤ length (map (λ r. r.request) rs)
length-receipts [] = omega arith
length-receipts (r ∷ rs) =
    omega (arith, length-add_receipt r.answer (receipts rs), length-receipts rs)

-- No more is committed than was called for.
pub history-calls : (q : TxQueue) → IsAccounted q → length (history q) ≤ q.calls
history-calls q a =
    let same : length (receipts q.responses) ≡ length (history q) =
      ap (λ (l : List EncryptedTransaction). length l) a.exact in
    omega (
      arith,
      same,
      length-receipts q.responses,
      length-requests q a,
      length-append (map (λ r. r.request) q.responses) (held q.loop ++ q.submit_ch),
    )

-- The request that a call has still to send.
abbrev pub unsent : Call → ℕ
unsent (entering ct) = 1
unsent _ = 0

length-brought : (q : TxQueue) (e : Event) → length (brought q e) ≤ 1
length-brought q (submit ct) = omega arith
length-brought q (submit_direct ct) = omega arith
length-brought q _ = omega arith

run-calls :
    (q q' : TxQueue) (es : List Event)
    → IsAccounted q
    → run q es ≡ some q'
    → q'.calls ≤ q.calls + length es
run-calls q q' [] a r =
    let e : some q ≡ some q' = (unfold run in r) in
    of_some (λ p. p.calls ≤ q.calls + 0) e (omega arith)
run-calls q q' (e ∷ es) a r =
    let (p, s, rest) = of_run-step q q' e es r in
    omega (
      arith,
      run-calls p q' es (step-IsAccounted q p e s a) rest,
      step-calls q p e s a,
      length-brought q e,
    )

length-call_moves : (c : Call) (e : CallEvent) → length (call_moves c e) ≤ unsent c
length-call_moves (entering ct) send = omega arith
length-call_moves (entering ct) send_parked = omega arith
length-call_moves (entering ct) _ = omega arith
length-call_moves (awaiting t) e = omega arith
length-call_moves (returned r) e = omega arith

-- A call sends at most one request, and receives nothing from the channel.
pub record IsSpent (c : Call) (q : TxQueue) (r : Call × TxQueue) : Type 0 where
  pub accounted : IsAccounted r.1
  pub untaken : r.1.taken ≡ q.taken
  pub spent : r.1.calls + unsent r.0 ≤ q.calls + unsent c

none_unsent : (c : Call) → IsMadeCall (λ ct. ⊥) c → unsent c ≡ 0
none_unsent (entering ct) h = absurd h
none_unsent (awaiting t) h = refl
none_unsent (returned r) h = refl

pub call_step-IsSpent :
    (c : Call) (e : CallEvent) (q : TxQueue) (r : Call × TxQueue)
    → IsAccounted q
    → call_step c e q ≡ some r
    → IsSpent c q r
call_step-IsSpent c e q r a s =
    let moves = run-call_moves c e q r s in
    record {
      accounted = run-IsAccounted q r.1 (call_moves c e) moves a;
      untaken = run-taken q r.1 (call_moves c e) (call_moves-IsOthers c e) moves;
      spent = omega (
        arith,
        none_unsent r.0 (call_step-IsMadeCall (λ ct. ⊥) c e q r s),
        run-calls q r.1 (call_moves c e) a moves,
        length-call_moves c e,
      );
    }
