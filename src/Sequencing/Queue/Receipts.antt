-- ===== src/Sequencing/Queue/Receipts.antt =====
-- What the answers of `TxQueue` are worth: each request is answered at most once and in the order of
-- its arrival, and the receipts handed out are exactly the committed transactions.
use mathlib.Core.List.{map-append}
use native.Mathlib.Numerals.{add-one}
use secureorder.Prelude.{
  ℕ, zero, suc, ◌+◌, List, [], ◌∷◌, ◌++◌, map, some, ◌≡◌, refl, sym, ap, ◌∙◌, append_assoc,
  append-nil, append_snoc, All, All-append, of_some, of_guard, of_guard_not, of_none,
}
use secureorder.Prelude.{Result, ok, err}
use secureorder.Error.{queue_closed, GoError}
use secureorder.Sequencing.Transaction.{EncryptedTransaction}
use secureorder.Sequencing.Queue.Steps.{of_receive, of_reject, of_take, of_parked, nil_of_is_empty}
use secureorder.Sequencing.Queue.{
  TxQueue, Loop, waiting, checking, sending, rejecting, LoopEvent, see_done, receive, check_expired,
  check_done, check_passed, commit, hand_over, send_expired, send_done, reject_next, reject_end,
  Event, admission, submit, submit_direct, take_one, close, loop_step, step, respond, history,
  SubmitRequest, SubmitResponse,
}

-- The transactions of the positive answers, in order.
abbrev pub add_receipt :
    Result GoError EncryptedTransaction → List EncryptedTransaction → List EncryptedTransaction
add_receipt (ok tx) txs = tx ∷ txs
add_receipt (err e) txs = txs

abbrev pub receipts : List SubmitResponse → List EncryptedTransaction
receipts [] = []
receipts (r ∷ rs) = add_receipt r.answer (receipts rs)

-- The request that the admission goroutine holds.
abbrev pub held : Loop → List SubmitRequest
held (checking req) = req ∷ []
held (sending req tx) = req ∷ []
held _ = []

-- All the requests that calls sent, in order: those answered, the one held, those waiting.
abbrev pub requests : Loop → TxQueue → List SubmitRequest
requests l q = map (λ r. r.request) q.responses ++ (held l ++ q.submit_ch)

abbrev pub tickets : List SubmitRequest → List ℕ
tickets = map (λ r. r.ticket)

-- 0, 1, …, n - 1.
abbrev pub upto : ℕ → List ℕ
upto zero = []
upto (suc n) = upto n ++ n ∷ []

-- A positive answer carries the payload of its request.
abbrev pub IsFaithful : SubmitResponse → Type 0
IsFaithful r = (tx : EncryptedTransaction) → r.answer ≡ ok tx → tx.ciphertext ≡ r.request.ciphertext

abbrev pub IsCopied : Loop → Type 0
IsCopied (sending req tx) = tx.ciphertext ≡ req.ciphertext
IsCopied _ = Unit

pub record IsAccounted (q : TxQueue) : Type 0 where
  pub exact : receipts q.responses ≡ history q
  pub in_turn : tickets (requests q.loop q) ≡ upto q.calls
  pub faithful : All IsFaithful q.responses
  pub copied : IsCopied q.loop

pub add_receipt-append :
    (a : Result GoError EncryptedTransaction) (xs ys : List EncryptedTransaction)
    → add_receipt a (xs ++ ys) ≡ add_receipt a xs ++ ys
add_receipt-append (ok tx) xs ys = refl
add_receipt-append (err e) xs ys = refl

receipts-append : (rs ss : List SubmitResponse) → receipts (rs ++ ss) ≡ receipts rs ++ receipts ss
receipts-append [] ss = refl
receipts-append (r ∷ rs) ss =
    rw (receipts-append rs ss) (add_receipt-append r.answer (receipts rs) (receipts ss))

-- A negative answer is no receipt; a positive one is the last.
receipts_err :
    (rs : List SubmitResponse) (req : SubmitRequest) (e : GoError) (txs : List EncryptedTransaction)
    → receipts rs ≡ txs
    → receipts (rs ++ record { request = req; answer = err e } ∷ []) ≡ txs
receipts_err rs req e txs h = rw (receipts-append, append-nil) h

receipts_ok :
    (rs : List SubmitResponse) (req : SubmitRequest) (tx : EncryptedTransaction)
    (txs txs' : List EncryptedTransaction)
    → receipts rs ≡ txs
    → txs' ≡ txs ++ tx ∷ []
    → receipts (rs ++ record { request = req; answer = ok tx } ∷ []) ≡ txs'
receipts_ok rs req tx txs txs' h e = rw (receipts-append, h, e)

pub moved_request :
    (rs : List SubmitResponse) (r : SubmitResponse) (waits : List SubmitRequest)
    → map (λ s. s.request) (rs ++ r ∷ []) ++ waits ≡ map (λ s. s.request) rs ++ r.request ∷ waits
moved_request rs r waits = rw (map-append, append_snoc)

-- Answering the held request, or the first that waits, moves it from the middle to the left part.
in_turn_answer :
    (rs : List SubmitResponse) (r : SubmitResponse) (waits : List SubmitRequest) (ts : List ℕ)
    → tickets (map (λ s. s.request) rs ++ r.request ∷ waits) ≡ ts
    → tickets (map (λ s. s.request) (rs ++ r ∷ []) ++ waits) ≡ ts
in_turn_answer rs r waits ts h = ap tickets (moved_request rs r waits) ∙ h

in_turn_submit :
    (rs : List SubmitResponse) (hs ws : List SubmitRequest) (r : SubmitRequest) (n : ℕ)
    → r.ticket ≡ n
    → tickets (map (λ s. s.request) rs ++ (hs ++ ws)) ≡ upto n
    → tickets (map (λ s. s.request) rs ++ (hs ++ (ws ++ r ∷ []))) ≡ upto (n + 1)
in_turn_submit rs hs ws r n e h = rw (
  ← append_assoc hs ws (r ∷ []),
  ← append_assoc (map (λ s. s.request) rs) (hs ++ ws) (r ∷ []),
  map-append,
  h,
  add-one,
  e,
)

IsFaithful-err :
    (req : SubmitRequest) (e : GoError) → IsFaithful (record { request = req; answer = err e })
IsFaithful-err req e tx h = cc

IsFaithful-ok :
    (req : SubmitRequest) (tx : EncryptedTransaction)
    → tx.ciphertext ≡ req.ciphertext
    → IsFaithful (record { request = req; answer = ok tx })
IsFaithful-ok req tx e tx' h = cc

All-snoc :
    (rs : List SubmitResponse) (r : SubmitResponse)
    → All IsFaithful rs
    → IsFaithful r
    → All IsFaithful (rs ++ r ∷ [])
All-snoc rs r h hr = All-append IsFaithful rs (r ∷ []) h (hr, tt)

-- The held request, or the first that waits, is refused; nothing is committed.
module _ (q : TxQueue) (req : SubmitRequest) (e : GoError) (l : Loop)
    (waits : List SubmitRequest) where
  refuse-IsAccounted :
      receipts q.responses ≡ history q
      → tickets (map (λ s. s.request) q.responses ++ req ∷ waits) ≡ upto q.calls
      → All IsFaithful q.responses
      → held l ≡ []
      → IsCopied l
      → IsAccounted (respond req (err e) (record q { submit_ch = waits; loop = l }))
  unfolding respond
  refuse-IsAccounted ex turn faith idle cp = record {
    exact = receipts_err q.responses req e (history q) ex;
    in_turn = rw idle (
        in_turn_answer q.responses (record { request = req; answer = err e }) waits (upto q.calls)
          turn);
    faithful = All-snoc q.responses _ faith (IsFaithful-err req e);
    copied = cp;
  }

hand_over_history :
    (taken ch : List EncryptedTransaction) (tx : EncryptedTransaction)
    → ch ≡ []
    → (taken ++ tx ∷ []) ++ ch ≡ (taken ++ ch) ++ tx ∷ []
hand_over_history taken ch tx e = simp (e, append-nil)

-- The stamped transaction is committed at the end of the history.
module _ (q q' : TxQueue) (req : SubmitRequest) (tx : EncryptedTransaction) where
  accept-IsAccounted :
      q'.responses ≡ q.responses ++ record { request = req; answer = ok tx } ∷ []
      → q'.loop ≡ waiting
      → q'.submit_ch ≡ q.submit_ch
      → q'.calls ≡ q.calls
      → history q' ≡ history q ++ tx ∷ []
      → receipts q.responses ≡ history q
      → tickets (map (λ s. s.request) q.responses ++ req ∷ q.submit_ch) ≡ upto q.calls
      → All IsFaithful q.responses
      → tx.ciphertext ≡ req.ciphertext
      → IsAccounted q'
  accept-IsAccounted er el es ec eh ex turn faith cp = record {
    exact = rw er (receipts_ok q.responses req tx (history q) (history q') ex eh);
    in_turn =
        rw (er, el, es, ec)
          (in_turn_answer q.responses (record { request = req; answer = ok tx }) q.submit_ch
            (upto q.calls) turn);
    faithful = rw er (All-snoc q.responses _ faith (IsFaithful-ok req tx cp));
    copied = rw el tt;
  }

module _ (q q' : TxQueue) where
  loop_step-IsAccounted :
      (l : Loop) (e : LoopEvent)
      → loop_step l e q ≡ some q'
      → receipts q.responses ≡ history q
      → tickets (requests l q) ≡ upto q.calls
      → All IsFaithful q.responses
      → IsCopied l
      → IsAccounted q'
  unfolding step
  loop_step-IsAccounted waiting see_done s x t f c =
      of_guard IsAccounted s λ d. record { exact = x; in_turn = t; faithful = f; copied = tt }
  loop_step-IsAccounted waiting receive s x t f c =
      of_receive IsAccounted q q.submit_ch s
        λ req rest e. record { exact = x; in_turn = rw e at t; faithful = f; copied = tt }
  loop_step-IsAccounted (checking req) (check_expired e) s x t f c =
      of_some IsAccounted s (refuse-IsAccounted q req e waiting q.submit_ch x t f refl tt)
  loop_step-IsAccounted (checking req) check_done s x t f c =
      of_guard IsAccounted s λ d. refuse-IsAccounted q req _ rejecting q.submit_ch x t f refl tt
  loop_step-IsAccounted (checking req) (check_passed now) s x t f c =
      of_guard_not IsAccounted s λ d. record { exact = x; in_turn = t; faithful = f; copied = refl }
  loop_step-IsAccounted (sending req tx) commit s x t f c = of_guard IsAccounted s λ d.
      accept-IsAccounted q _ req tx refl refl refl refl (sym (append_assoc q.taken q.ch (tx ∷ [])))
        x t f c
  loop_step-IsAccounted (sending req tx) hand_over s x t f c = of_guard IsAccounted s λ d.
      accept-IsAccounted q _ req tx refl refl refl refl
        (hand_over_history q.taken q.ch tx (nil_of_is_empty q.ch d)) x t f c
  loop_step-IsAccounted (sending req tx) (send_expired e) s x t f c =
      of_some IsAccounted s (refuse-IsAccounted q req e waiting q.submit_ch x t f refl tt)
  loop_step-IsAccounted (sending req tx) send_done s x t f c =
      of_guard IsAccounted s λ d. refuse-IsAccounted q req _ rejecting q.submit_ch x t f refl tt
  loop_step-IsAccounted rejecting reject_next s x t f c =
      of_reject IsAccounted q q.submit_ch s
        λ req rest e. refuse-IsAccounted q req _ rejecting rest x (rw e at t) f refl tt
  loop_step-IsAccounted rejecting reject_end s x t f c =
      of_guard IsAccounted s λ d. record { exact = x; in_turn = t; faithful = f; copied = tt }
  loop_step-IsAccounted _ _ s x t f c = of_none IsAccounted s

pub step-IsAccounted :
    (q q' : TxQueue) (e : Event) → step q e ≡ some q' → IsAccounted q → IsAccounted q'
unfolding step
step-IsAccounted q q' (admission e) s h =
    loop_step-IsAccounted q q' q.loop e s h.exact h.in_turn h.faithful h.copied
step-IsAccounted q q' (submit ct) s h = of_guard IsAccounted s λ d. record {
  exact = h.exact;
  in_turn = in_turn_submit q.responses (held q.loop) q.submit_ch _ q.calls refl h.in_turn;
  faithful = h.faithful;
  copied = h.copied;
}
step-IsAccounted q q' (submit_direct ct) s h =
    of_parked IsAccounted q q.loop ct s
      (λ e nil. record {
        exact = h.exact;
        in_turn =
            rw nil (in_turn_submit q.responses [] [] _ q.calls refl (rw (e, nil) at h.in_turn));
        faithful = h.faithful;
        copied = tt;
      })
      (λ e nil.
        refuse-IsAccounted (record q { calls = q.calls + 1 })
          (record { ticket = q.calls; ciphertext = ct }) queue_closed rejecting q.submit_ch h.exact
          (rw nil (in_turn_submit q.responses [] [] _ q.calls refl (rw (e, nil) at h.in_turn)))
          h.faithful refl tt)
step-IsAccounted q q' take_one s h = of_take IsAccounted q q.ch s λ tx rest e. record {
  exact = rw append_snoc (rw e at h.exact);
  in_turn = h.in_turn;
  faithful = h.faithful;
  copied = h.copied;
}
step-IsAccounted q q' close s h =
    of_some IsAccounted s
      (record { exact = h.exact; in_turn = h.in_turn; faithful = h.faithful; copied = h.copied })
