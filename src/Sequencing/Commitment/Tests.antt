-- ===== src/Sequencing/Commitment/Tests.antt =====
-- The commitments on concrete inputs, with a one-byte checksum in the place of SHA-256.
use secureorder.Prelude.{ℕ, ◌+◌, ◌%◌, [], ◌∷◌, ◌≡◌, ◌≢◌, ◌⊎◌, refl, arith}
use secureorder.Prelude.Int.{pos, negsuc}
use secureorder.Text.{codes}
use secureorder.Error.{Bytes}
use secureorder.Encoding.Hex.{hex_encode}
use secureorder.Encoding.LittleEndian.{put_uint64}
use secureorder.Sequencing.Transaction.{EncryptedTransaction}
use secureorder.Sequencing.Commitment.{generate_reception_commitment, generate_batch_commitment}
use secureorder.Sequencing.Commitment.Binding.{IsMachine, HasByteDigests, Collision}
use secureorder.Sequencing.Commitment.Batch.{AgreeOnIds, batch_order_binding, batch_content_binding}
use secureorder.Sequencing.Commitment.Legacy.{OrderMetadata}
use secureorder.Sequencing.Commitment.Ambiguity.{swallow, batch_commitment_ambiguous}

abbrev total : Bytes → ℕ
total [] = 0
total (b ∷ bs) = b + total bs

-- The sum of the bytes, as one byte.
abbrev checksum : Bytes → Bytes
checksum m = (total m % 256) ∷ []

checksum-HasByteDigests : HasByteDigests checksum
checksum-HasByteDigests m = omega arith

abbrev tx_a : EncryptedTransaction
tx_a = record { seq = 1; ciphertext = codes "ab"; arrived_at = pos 1700000000 }

abbrev tx_b : EncryptedTransaction
tx_b = record { seq = 2; ciphertext = codes "c"; arrived_at = negsuc 0 }

tx_a-IsMachine : IsMachine tx_a
tx_a-IsMachine = omega arith

tx_b-IsMachine : IsMachine tx_b
tx_b-IsMachine = omega arith

committed : generate_reception_commitment checksum tx_b ≡ codes "5d"
unfolding generate_reception_commitment hex_encode put_uint64
committed = refl

agree : AgreeOnIds (tx_a ∷ tx_b ∷ []) (tx_b ∷ tx_a ∷ [])
agree = (((λ e. cc), ((λ e. refl), tt)), (((λ e. refl), ((λ e. cc), tt)), tt))

batch_order_binding_example : (tx_a ∷ tx_b ∷ [] ≡ tx_b ∷ tx_a ∷ []) ⊎ Collision checksum
unfolding generate_batch_commitment put_uint64
batch_order_binding_example =
    batch_order_binding checksum (tx_a ∷ tx_b ∷ []) (tx_b ∷ tx_a ∷ []) checksum-HasByteDigests
      (tx_a-IsMachine, (tx_b-IsMachine, tt)) (tx_b-IsMachine, (tx_a-IsMachine, tt)) agree refl

batch_content_binding_example : (tx_a ∷ tx_b ∷ [] ≡ tx_a ∷ tx_b ∷ []) ⊎ Collision checksum
batch_content_binding_example =
    batch_content_binding checksum (tx_a ∷ tx_b ∷ []) (tx_a ∷ tx_b ∷ []) checksum-HasByteDigests
      (tx_a-IsMachine, (tx_b-IsMachine, tt)) (tx_a-IsMachine, (tx_b-IsMachine, tt)) refl refl

batch_commitment_ambiguous_example :
    (generate_batch_commitment checksum (tx_a ∷ tx_b ∷ [])
      ≡ generate_batch_commitment checksum (swallow tx_a tx_b ∷ []))
    × (tx_a ∷ tx_b ∷ [] ≢ swallow tx_a tx_b ∷ [])
batch_commitment_ambiguous_example = batch_commitment_ambiguous checksum [] [] tx_a tx_b

abbrev order : OrderMetadata ℕ
order = record {
  order_id = codes "o1";
  user = codes "u";
  token = codes "T";
  amount = 2;
  price = 3;
  timestamp = pos 7;
  nonce = codes "n";
}
