-- ===== src/Sequencing/Queue/Steps.antt =====
-- Inversion of the steps of `TxQueue` that match on a channel's buffer, for the proofs by cases.
use mathlib.Core.Option.{none-ne-some}
use secureorder.Prelude.{
  Option-cases, ◌+◌, List, [], ◌∷◌, ◌++◌, some, ◌≡◌, refl, of_some, of_none, of_guard, is_empty,
  true, inl, inr,
}
use secureorder.Prelude.{err}
use secureorder.Error.{Bytes, queue_closed}
use secureorder.Sequencing.Transaction.{EncryptedTransaction}
use secureorder.Sequencing.Queue.{
  Event, step, run, TxQueue, Loop, waiting, checking, sending, rejecting, stopped, submit_parked,
  SubmitRequest, respond, receive_from, reject_from, take_from,
}

pub nil_of_is_empty {ℓ} : {A : Type ℓ} (xs : List A) → is_empty xs ≡ true → xs ≡ []
nil_of_is_empty [] h = refl
nil_of_is_empty (x ∷ xs) h = cc

module _ {κ} (P : TxQueue → Type κ) (q : TxQueue) {q' : TxQueue} where
  pub of_receive :
      (reqs : List SubmitRequest)
      → receive_from reqs q ≡ some q'
      → ((req : SubmitRequest) (rest : List SubmitRequest)
          → reqs ≡ req ∷ rest
          → P (record q { submit_ch = rest; loop = checking req }))
      → P q'
  unfolding receive_from
  of_receive [] s k = of_none P s
  of_receive (req ∷ rest) s k = of_some P s (k req rest refl)

  pub of_reject :
      (reqs : List SubmitRequest)
      → reject_from reqs q ≡ some q'
      → ((req : SubmitRequest) (rest : List SubmitRequest)
          → reqs ≡ req ∷ rest
          → P (respond req (err queue_closed) (record q { submit_ch = rest; loop = rejecting })))
      → P q'
  unfolding reject_from
  of_reject [] s k = of_none P s
  of_reject (req ∷ rest) s k = of_some P s (k req rest refl)

  pub of_take :
      (txs : List EncryptedTransaction)
      → take_from txs q ≡ some q'
      → ((tx : EncryptedTransaction) (rest : List EncryptedTransaction)
          → txs ≡ tx ∷ rest
          → P (record q { ch = rest; taken = q.taken ++ tx ∷ [] }))
      → P q'
  unfolding take_from
  of_take [] s k = of_none P s
  of_take (tx ∷ rest) s k = of_some P s (k tx rest refl)

  pub of_parked :
      (l : Loop) (ct : Bytes)
      → submit_parked l ct q ≡ some q'
      → (l ≡ waiting
          → q.submit_ch ≡ []
          → P (record q {
            loop = checking (record { ticket = q.calls; ciphertext = ct });
            calls = q.calls + 1;
          }))
      → (l ≡ rejecting
          → q.submit_ch ≡ []
          → P (
              respond
                (record { ticket = q.calls; ciphertext = ct })
                (err queue_closed)
                (record q { loop = rejecting; calls = q.calls + 1 })))
      → P q'
  unfolding submit_parked
  of_parked waiting ct s k r = of_guard P s λ d. k refl (nil_of_is_empty q.submit_ch d)
  of_parked (checking req) ct s k r = of_none P s
  of_parked (sending req tx) ct s k r = of_none P s
  of_parked rejecting ct s k r = of_guard P s λ d. r refl (nil_of_is_empty q.submit_ch d)
  of_parked stopped ct s k r = of_none P s

-- A schedule that is possible takes its first step, and goes on.
pub of_run-step :
    (q q' : TxQueue) (e : Event) (es : List Event)
    → run q (e ∷ es) ≡ some q'
    → (p : TxQueue) × (step q e ≡ some p) × (run p es ≡ some q')
unfolding run
of_run-step q q' e es r = elim (Option-cases (step q e)) [
  | inl n ↦ absurd (none-ne-some _ (rw (n, run) at r))
  | inr (p, s) ↦ (p, s, rw (s, run) at r)
]

pub run-cons :
    (q p q' : TxQueue) (e : Event) (es : List Event)
    → step q e ≡ some p
    → run p es ≡ some q'
    → run q (e ∷ es) ≡ some q'
unfolding run
run-cons q p q' e es s r = rw (s, run) r
