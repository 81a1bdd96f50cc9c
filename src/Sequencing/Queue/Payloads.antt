-- ===== src/Sequencing/Queue/Payloads.antt =====
-- Where the payloads of the committed transactions of `TxQueue` come from.
use secureorder.Prelude.{List, [], ◌∷◌, map, All, All-append-left, inl, inr, Result-cases}
use secureorder.Error.{Bytes}
use secureorder.Sequencing.Transaction.{EncryptedTransaction}
use secureorder.Sequencing.Queue.Receipts.{receipts, add_receipt, IsFaithful, IsAccounted}
use secureorder.Sequencing.Queue.Sent.{IsMade}
use secureorder.Sequencing.Queue.{TxQueue, history, SubmitResponse}

add_receipt-All {κ} :
    (P : Bytes → Type κ) (r : SubmitResponse) (txs : List EncryptedTransaction)
    → IsFaithful r
    → P r.request.ciphertext
    → All (λ tx. P tx.ciphertext) txs
    → All (λ tx. P tx.ciphertext) (add_receipt r.answer txs)
add_receipt-All P r txs f p h = elim (Result-cases r.answer) [
  | inl (tx, good) ↦ rw good (rw (f tx good) p, h)
  | inr (e, bad) ↦ rw bad h
]

receipts-All {κ} :
    (P : Bytes → Type κ) (rs : List SubmitResponse)
    → All IsFaithful rs
    → All (λ r. P r.ciphertext) (map (λ r. r.request) rs)
    → All (λ tx. P tx.ciphertext) (receipts rs)
receipts-All P [] f h = tt
receipts-All P (r ∷ rs) f h = add_receipt-All P r (receipts rs) f.0 h.0 (receipts-All P rs f.1 h.1)

-- What holds of every payload sent to the queue holds of those of the committed transactions.
pub history-All {κ} :
    (P : Bytes → Type κ) (q : TxQueue)
    → IsAccounted q
    → IsMade P q
    → All (λ tx. P tx.ciphertext) (history q)
history-All P q a h = rw (← a.exact) (
    receipts-All P q.responses a.faithful
      (All-append-left (λ r. P r.ciphertext) (map (λ r. r.request) q.responses) _ h))
