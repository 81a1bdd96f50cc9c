-- ===== src/Sequencing/Queue/Sent.antt =====
-- What every step keeps of the requests that calls of SubmitWithReceipt have sent.
use secureorder.Prelude.{
  map-append, ℕ, ◌≤◌, ◌<◌, List, [], ◌∷◌, ◌++◌, map, some, ◌≡◌, refl, sym, ◌∙◌, arith, append_assoc,
  append-nil, All, All-append, All-imp, of_some, of_guard, of_guard_not, of_none,
}
use secureorder.Prelude.{Result, ok, err}
use secureorder.Error.{Bytes, GoError, queue_closed}
use secureorder.Sequencing.Transaction.{EncryptedTransaction}
use secureorder.Sequencing.Queue.Steps.{of_receive, of_reject, of_take, of_parked, of_run-step}
use secureorder.Sequencing.Queue.Receipts.{requests, held, moved_request}
use secureorder.Sequencing.Queue.{
  TxQueue, Loop, waiting, checking, sending, rejecting, LoopEvent, see_done, receive, check_expired,
  check_done, check_passed, commit, hand_over, send_expired, send_done, reject_next, reject_end,
  Event, admission, submit, submit_direct, take_one, close, loop_step, step, run, SubmitRequest,
}

-- A request with this ticket carries this payload, wherever it stands in the queue.
abbrev pub Carries : ℕ → Bytes → SubmitRequest → Type 0
Carries t ct r = r.ticket ≡ t → r.ciphertext ≡ ct

-- The request that a step brings into the queue.
abbrev pub brought : TxQueue → Event → List SubmitRequest
brought q (submit ct) = record { ticket = q.calls; ciphertext = ct } ∷ []
brought q (submit_direct ct) = record { ticket = q.calls; ciphertext = ct } ∷ []
brought q _ = []

-- A step keeps the requests in their places, and adds at most one, with a fresh ticket.
pub record IsSent (fresh : List SubmitRequest) (l : Loop) (q q' : TxQueue) : Type 0 where
  pub kept : requests q'.loop q' ≡ requests l q ++ fresh
  numbered : All (λ r. (r.ticket ≡ q.calls) × (r.ticket < q'.calls)) fresh
  more : q.calls ≤ q'.calls

quiet :
    (l : Loop) (q q' : TxQueue)
    → requests q'.loop q' ≡ requests l q
    → q.calls ≤ q'.calls
    → IsSent [] l q q'
quiet l q q' e le = record { kept = e ∙ sym (append-nil (requests l q)); numbered = tt; more = le }

-- An answer to the request that stands first after the answered ones.
answered :
    (l l' : Loop) (q : TxQueue) (req : SubmitRequest) (waits : List SubmitRequest)
    (a : Result GoError EncryptedTransaction)
    → held l ++ q.submit_ch ≡ req ∷ waits
    → held l' ≡ []
    → map (λ r. r.request) (q.responses ++ record { request = req; answer = a } ∷ [])
        ++ (held l' ++ waits)
      ≡ requests l q
answered l l' q req waits a e h =
    rw (h, e) (moved_request q.responses (record { request = req; answer = a }) waits)

loop_step-IsSent :
    (q q' : TxQueue) (l : Loop) (e : LoopEvent)
    → q.loop ≡ l
    → loop_step l e q ≡ some q'
    → IsSent [] l q q'
unfolding step
loop_step-IsSent q q' waiting see_done _ s =
    of_guard (IsSent [] _ q) s λ d. quiet waiting q _ refl (omega arith)
loop_step-IsSent q q' waiting receive _ s =
    of_receive (IsSent [] _ q) q q.submit_ch s λ req rest e. quiet waiting q _ (rw e) (omega arith)
loop_step-IsSent q q' (checking req) (check_expired e) _ s = of_some (IsSent [] _ q) s (
    quiet (checking req) q _ (answered (checking req) waiting q req q.submit_ch (err e) refl refl)
      (omega arith))
loop_step-IsSent q q' (checking req) check_done _ s = of_guard (IsSent [] _ q) s λ d.
    quiet (checking req) q _
      (answered (checking req) rejecting q req q.submit_ch (err queue_closed) refl refl)
      (omega arith)
loop_step-IsSent q q' (checking req) (check_passed now) _ s =
    of_guard_not (IsSent [] _ q) s λ d. quiet (checking req) q _ refl (omega arith)
loop_step-IsSent q q' (sending req tx) commit _ s = of_guard (IsSent [] _ q) s λ d.
    quiet (sending req tx) q _
      (answered (sending req tx) waiting q req q.submit_ch (ok tx) refl refl) (omega arith)
loop_step-IsSent q q' (sending req tx) hand_over _ s = of_guard (IsSent [] _ q) s λ d.
    quiet (sending req tx) q _
      (answered (sending req tx) waiting q req q.submit_ch (ok tx) refl refl) (omega arith)
loop_step-IsSent q q' (sending req tx) (send_expired e) _ s = of_some (IsSent [] _ q) s (
    quiet (sending req tx) q _
      (answered (sending req tx) waiting q req q.submit_ch (err e) refl refl) (omega arith))
loop_step-IsSent q q' (sending req tx) send_done _ s = of_guard (IsSent [] _ q) s λ d.
    quiet (sending req tx) q _
      (answered (sending req tx) rejecting q req q.submit_ch (err queue_closed) refl refl)
      (omega arith)
loop_step-IsSent q q' rejecting reject_next _ s =
    of_reject (IsSent [] _ q) q q.submit_ch s λ req rest e.
      quiet rejecting q _ (answered rejecting rejecting q req rest (err queue_closed) e refl)
        (omega arith)
loop_step-IsSent q q' rejecting reject_end _ s =
    of_guard (IsSent [] _ q) s λ d. quiet rejecting q _ refl (omega arith)
loop_step-IsSent q q' _ _ _ s = of_none (IsSent [] _ q) s

pub step-IsSent :
    (q q' : TxQueue) (e : Event) → step q e ≡ some q' → IsSent (brought q e) q.loop q q'
unfolding step
step-IsSent q q' (admission e) s = loop_step-IsSent q q' q.loop e refl s
step-IsSent q q' (submit ct) s = of_guard (IsSent (brought q (submit ct)) q.loop q) s λ d. record {
  kept = rw (← append_assoc (held q.loop), ← append_assoc (map (λ r. r.request) q.responses));
  numbered = ((refl, omega arith), tt);
  more = omega arith;
}
step-IsSent q q' (submit_direct ct) s =
    of_parked (IsSent (brought q (submit_direct ct)) q.loop q) q q.loop ct s
      (λ e nil. record {
        kept = rw (e, nil, append-nil);
        numbered = ((refl, omega arith), tt);
        more = omega arith;
      })
      (λ e nil. record {
        kept = simp (e, nil, append-nil, map-append);
        numbered = ((refl, omega arith), tt);
        more = omega arith;
      })
step-IsSent q q' take_one s =
    of_take (IsSent [] q.loop q) q q.ch s λ tx rest e. quiet q.loop q _ refl (omega arith)
step-IsSent q q' close s = of_some (IsSent [] q.loop q) s (quiet q.loop q _ refl (omega arith))

-- What is known of a call with ticket `t` and payload `ct` once its request is sent.
pub record Owns (t : ℕ) (ct : Bytes) (q : TxQueue) : Type 0 where
  pub carried : All (Carries t ct) (requests q.loop q)
  pub past : t < q.calls

abbrev pub IsNumbered : TxQueue → Type 0
IsNumbered q = All (λ r. r.ticket < q.calls) (requests q.loop q)

step-IsNumbered : (q q' : TxQueue) (e : Event) → step q e ≡ some q' → IsNumbered q → IsNumbered q'
step-IsNumbered q q' e s h =
    let i = step-IsSent q q' e s in
    rw i.kept (
      All-append (λ r. r.ticket < q'.calls) (requests q.loop q) (brought q e)
        (All-imp (λ r. r.ticket < q.calls) (λ r. r.ticket < q'.calls) (requests q.loop q)
          (λ r lt. omega (arith, i.more)) h)
        (All-imp _ (λ r. r.ticket < q'.calls) (brought q e) (λ r n. n.1) i.numbered))

pub run-IsNumbered :
    (q q' : TxQueue) (es : List Event) → run q es ≡ some q' → IsNumbered q → IsNumbered q'
unfolding run
run-IsNumbered q q' [] r h = of_some IsNumbered r h
run-IsNumbered q q' (e ∷ es) r h =
    let (p, st, rest) = of_run-step q q' e es r in
    run-IsNumbered p q' es rest (step-IsNumbered q p e st h)

step-Owns :
    (t : ℕ) (ct : Bytes) (q q' : TxQueue) (e : Event)
    → step q e ≡ some q'
    → Owns t ct q
    → Owns t ct q'
step-Owns t ct q q' e s h =
    let i = step-IsSent q q' e s in
    record {
      carried = rw i.kept (
          All-append (Carries t ct) (requests q.loop q) (brought q e) h.carried (
            All-imp _ (Carries t ct) (brought q e) (λ r n same. absurd (omega (arith, h.past)))
              i.numbered));
      past = omega (arith, i.more, h.past);
    }

pub run-Owns :
    (t : ℕ) (ct : Bytes) (q q' : TxQueue) (es : List Event)
    → run q es ≡ some q'
    → Owns t ct q
    → Owns t ct q'
unfolding run
run-Owns t ct q q' [] r h = of_some (Owns t ct) r h
run-Owns t ct q q' (e ∷ es) r h =
    let (p, st, rest) = of_run-step q q' e es r in
    run-Owns t ct p q' es rest (step-Owns t ct q p e st h)

-- What every payload is like that calls of SubmitWithReceipt bring in.
abbrev pub Brings {κ} : (Bytes → Type κ) → Event → Type κ
Brings P (submit ct) = P ct
Brings P (submit_direct ct) = P ct
Brings P _ = Unit

abbrev pub IsMade {κ} : (Bytes → Type κ) → TxQueue → Type κ
IsMade P q = All (λ r. P r.ciphertext) (requests q.loop q)

Brings-brought {κ} :
    (P : Bytes → Type κ) (q : TxQueue) (e : Event)
    → Brings P e
    → All (λ r. P r.ciphertext) (brought q e)
Brings-brought P q (submit ct) h = (h, tt)
Brings-brought P q (submit_direct ct) h = (h, tt)
Brings-brought P q _ h = tt

pub step-IsMade {κ} :
    (P : Bytes → Type κ) (q q' : TxQueue) (e : Event)
    → step q e ≡ some q'
    → Brings P e
    → IsMade P q
    → IsMade P q'
step-IsMade P q q' e s b h =
    rw (step-IsSent q q' e s).kept (
      All-append (λ r. P r.ciphertext) (requests q.loop q) (brought q e) h (Brings-brought P q e b))

pub run-IsMade {κ} :
    (P : Bytes → Type κ) (q q' : TxQueue) (es : List Event)
    → run q es ≡ some q'
    → All (Brings P) es
    → IsMade P q
    → IsMade P q'
unfolding run
run-IsMade P q q' [] r b h = of_some (IsMade P) r h
run-IsMade P q q' (e ∷ es) r b h =
    let (p, st, rest) = of_run-step q q' e es r in
    run-IsMade P p q' es rest b.1 (step-IsMade P q p e st b.0 h)
