-- ===== src/Sequencing/Commitment/Batch.antt =====
-- What equal batch commitments prove about the order and the content of two batches, if the
-- transactions are identified by their IDs or the ciphertexts' lengths are known.
use secureorder.Prelude.{
  List, [], ◌∷◌, ◌++◌, map, ◌≡◌, ◌≢◌, ◌⊎◌, inl, inr, refl, sym, ap, ◌∙◌, length, All, All-imp,
  append_assoc, append-nil,
}
use secureorder.Error.{Bytes}
use secureorder.Encoding.Bytes.{append_injective, head-eq, tail-eq}
use secureorder.Encoding.LittleEndian.{put_uint64}
use secureorder.Sequencing.Transaction.{EncryptedTransaction}
use secureorder.Sequencing.Commitment.{write_batch, generate_batch_commitment}
use secureorder.Sequencing.Commitment.Binding.{
  IsMachine, frame, write_tx-frame, frame_header, same_fields, same_or_Collision, HasByteDigests,
  Collision,
}

-- The bytes that are hashed for a batch.
unfoldable pub frames : List EncryptedTransaction → Bytes
frames [] = []
frames (tx ∷ txs) = frame tx ++ frames txs

pub write_batch-frames :
    (txs : List EncryptedTransaction) (h : Bytes) → write_batch txs h ≡ h ++ frames txs
unfolding write_batch frames
write_batch-frames [] h = sym (append-nil h)
write_batch-frames (tx ∷ txs) h = rw (write_batch-frames txs, write_tx-frame, append_assoc)

-- Transactions of the two batches that share an ID are the same.
abbrev pub AgreeOnIds : List EncryptedTransaction → List EncryptedTransaction → Type 0
AgreeOnIds b b' = All (λ t. All (λ t'. t.seq ≡ t'.seq → t ≡ t') b') b

frames-ne-nil : (t : EncryptedTransaction) (rest : Bytes) → frame t ++ rest ≢ []
unfolding frame put_uint64
frames-ne-nil t rest e = cc

ordered_frames :
    (b b' : List EncryptedTransaction)
    → All IsMachine b
    → All IsMachine b'
    → AgreeOnIds b b'
    → frames b ≡ frames b'
    → b ≡ b'
unfolding frames
ordered_frames [] [] h h' a e = refl
ordered_frames [] (t' ∷ b') h h' a e = absurd (frames-ne-nil t' (frames b') (sym e))
ordered_frames (t ∷ b) [] h h' a e = absurd (frames-ne-nil t (frames b) e)
ordered_frames (t ∷ b) (t' ∷ b') h h' a e =
    let (p, q, r) = frame_header t t' (frames b) (frames b') h.0 h'.0 e in
    let same = a.0.0 p in
    let (c, rest) =
      append_injective t.ciphertext t'.ciphertext (frames b) (frames b')
        (ap (λ s. length s.ciphertext) same) r in
    let tails = ordered_frames b b' h.1 h'.1 (All-imp _ _ b (λ s all. all.1) a.1) rest in
    ap (λ s. s ∷ b) same ∙ ap (λ ts. t' ∷ ts) tails

shaped_frames :
    (b b' : List EncryptedTransaction)
    → All IsMachine b
    → All IsMachine b'
    → map (λ t. length t.ciphertext) b ≡ map (λ t. length t.ciphertext) b'
    → frames b ≡ frames b'
    → b ≡ b'
unfolding frames
shaped_frames [] [] h h' l e = refl
shaped_frames [] (t' ∷ b') h h' l e = absurd (frames-ne-nil t' (frames b') (sym e))
shaped_frames (t ∷ b) [] h h' l e = absurd (frames-ne-nil t (frames b) e)
shaped_frames (t ∷ b) (t' ∷ b') h h' l e =
    let (p, q, r) = frame_header t t' (frames b) (frames b') h.0 h'.0 e in
    let (c, rest) =
      append_injective t.ciphertext t'.ciphertext (frames b) (frames b') (head-eq l) r in
    ap (λ s. s ∷ b) (same_fields t t' p q c)
    ∙ ap (λ ts. t' ∷ ts) (shaped_frames b b' h.1 h'.1 (tail-eq l) rest)

module _ (sha256 : Bytes → Bytes) (b b' : List EncryptedTransaction) where
  of_frames :
      HasByteDigests sha256
      → generate_batch_commitment sha256 b ≡ generate_batch_commitment sha256 b'
      → (frames b ≡ frames b' → b ≡ b')
      → (b ≡ b') ⊎ Collision sha256
  unfolding generate_batch_commitment
  of_frames d e k = elim (same_or_Collision sha256 (write_batch b []) (write_batch b' []) d e) [
    | inl same ↦ inl (k (sym (write_batch-frames b []) ∙ same ∙ write_batch-frames b' []))
    | inr broken ↦ inr broken
  ]

  -- The commitment fixes the order: two batches in which equal IDs mean equal transactions, such as
  -- two orders or two selections of one set of sequenced transactions, have equal commitments only if
  -- they are the same list, or if a collision of SHA-256 is at hand.
  pub batch_order_binding :
      HasByteDigests sha256
      → All IsMachine b
      → All IsMachine b'
      → AgreeOnIds b b'
      → generate_batch_commitment sha256 b ≡ generate_batch_commitment sha256 b'
      → (b ≡ b') ⊎ Collision sha256
  batch_order_binding d h h' a e = of_frames d e (ordered_frames b b' h h' a)

  -- The commitment fixes the content of batches of one shape: if the ciphertexts have the same
  -- lengths place by place, a changed ID, arrival time or ciphertext changes the commitment, or a
  -- collision of SHA-256 is at hand.
  pub batch_content_binding :
      HasByteDigests sha256
      → All IsMachine b
      → All IsMachine b'
      → map (λ t. length t.ciphertext) b ≡ map (λ t. length t.ciphertext) b'
      → generate_batch_commitment sha256 b ≡ generate_batch_commitment sha256 b'
      → (b ≡ b') ⊎ Collision sha256
  batch_content_binding d h h' l e = of_frames d e (shaped_frames b b' h h' l)
