-- ===== src/Sequencing/Commitment.antt =====
-- pkg/sequencing/commitment.go: the SHA-256 commitments to one received transaction and to an ordered
-- batch. SHA-256 is a parameter; a hasher is the list of the bytes written to it so far, and
-- `h.Sum(nil)` is the digest of that list.
pub mod Binding
pub mod Batch
pub mod Ambiguity
pub mod Legacy
mod Tests
use secureorder.Prelude.{ℕ, List, [], ◌∷◌, ◌++◌}
use secureorder.Prelude.Int.{ℤ, to_u64}
use secureorder.Error.{Bytes}
use secureorder.Encoding.LittleEndian.{put_uint64}
use secureorder.Encoding.Hex.{hex_encode}
use secureorder.Sequencing.Transaction.{EncryptedTransaction}

-- `ReceptionProof`.
pub record ReceptionProof : Type 0 where
  pub sequence_id : ℕ
  pub arrived_unix : ℤ
  pub commitment : Bytes

-- The three writes for one transaction: its ID, its arrival time, its ciphertext.
pub write_tx : EncryptedTransaction → Bytes → Bytes
write_tx tx h = ((h ++ put_uint64 tx.seq) ++ put_uint64 (to_u64 tx.arrived_at)) ++ tx.ciphertext

-- The loop of GenerateBatchCommitment.
pub write_batch : List EncryptedTransaction → Bytes → Bytes
unfolding write_tx
write_batch [] h = h
write_batch (tx ∷ txs) h = write_batch txs (write_tx tx h)

module _ (sha256 : Bytes → Bytes) where
  unfoldable pub generate_reception_commitment : EncryptedTransaction → Bytes
  unfolding write_tx
  generate_reception_commitment tx = hex_encode (sha256 (write_tx tx []))

  unfoldable pub generate_batch_commitment : List EncryptedTransaction → Bytes
  unfolding write_batch
  generate_batch_commitment batch = hex_encode (sha256 (write_batch batch []))
