-- ===== src/Sequencing/Commitment/Ambiguity.antt =====
-- What the batch commitment does not fix: the lengths of the ciphertexts are not hashed, so the
-- boundary between two transactions is not either.
use secureorder.Prelude.{
  List, [], ◌∷◌, ◌++◌, ◌≡◌, ◌≢◌, sym, ap, ◌∙◌, arith, length, length-append, append_assoc,
}
use secureorder.Error.{Bytes}
use secureorder.Encoding.Hex.{hex_encode}
use secureorder.Sequencing.Transaction.{EncryptedTransaction}
use secureorder.Sequencing.Commitment.{generate_batch_commitment}
use secureorder.Sequencing.Commitment.Binding.{frame}
use secureorder.Sequencing.Commitment.Batch.{frames, write_batch-frames}

-- One transaction that swallows the next: that one's frame becomes the end of its ciphertext.
unfoldable pub swallow : EncryptedTransaction → EncryptedTransaction → EncryptedTransaction
swallow t u = record t { ciphertext = t.ciphertext ++ frame u }

module _ (t u : EncryptedTransaction) (after : List EncryptedTransaction) where
  frames-swallow :
      (before : List EncryptedTransaction)
      → frames (before ++ t ∷ u ∷ after) ≡ frames (before ++ swallow t u ∷ after)
  unfolding frames frame swallow
  frames-swallow [] = simp append_assoc
  frames-swallow (s ∷ before) = ap (λ m. frame s ++ m) (frames-swallow before)

  longer :
      (before : List EncryptedTransaction) → before ++ t ∷ u ∷ after ≢ before ++ swallow t u ∷ after
  longer before e = omega (
    arith,
    ap length e,
    length-append before (t ∷ u ∷ after),
    length-append before (swallow t u ∷ after),
  )

-- Whatever the hash function, the commitment does not tell two adjacent transactions of a batch from
-- a single one with a longer ciphertext: some batch of one transaction fewer, and so a different
-- one, has the same commitment.
pub batch_commitment_ambiguous :
    (sha256 : Bytes → Bytes) (before after : List EncryptedTransaction) (t u : EncryptedTransaction)
    → (generate_batch_commitment sha256 (before ++ t ∷ u ∷ after)
        ≡ generate_batch_commitment sha256 (before ++ swallow t u ∷ after))
      × (before ++ t ∷ u ∷ after ≢ before ++ swallow t u ∷ after)
unfolding generate_batch_commitment
batch_commitment_ambiguous sha256 before after t u = (
  ap (λ m. hex_encode (sha256 m))
      (write_batch-frames (before ++ t ∷ u ∷ after) []
        ∙ frames-swallow t u after before
        ∙ sym (write_batch-frames (before ++ swallow t u ∷ after) [])),
  longer t u after before,
)
