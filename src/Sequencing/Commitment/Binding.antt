-- ===== src/Sequencing/Commitment/Binding.antt =====
-- What equal reception commitments prove: the same transaction, or a collision of SHA-256.
use mathlib.Core.Bool.{false≢true}
use mathlib.Core.Option.{some-injective}
use secureorder.Prelude.{
  ◌^◌, ◌<◌, [], ◌++◌, ◌≡◌, ◌≢◌, ◌⊎◌, inl, inr, sym, ap, ◌∙◌, All, false, Bool-cases, bytes_eq,
  bytes_eq→eq, bytes_eq_refl, append_assoc, append-nil,
}
use secureorder.Prelude.Int.{to_u64, to_u64-lt, to_u64_injective, IsInt64}
use secureorder.Error.{Bytes}
use secureorder.Encoding.Bytes.{IsByte, append_injective}
use secureorder.Encoding.LittleEndian.{put_uint64, put_uint64_injective, length-put_uint64}
use secureorder.Encoding.Hex.{hex_encode, hex_decode, hex_decode-hex_encode}
use secureorder.Sequencing.Transaction.{EncryptedTransaction}
use secureorder.Sequencing.Commitment.{write_tx, generate_reception_commitment}

-- The fields are in the ranges of their Go types.
pub record IsMachine (tx : EncryptedTransaction) : Type 0 where
  pub seq_fits : tx.seq < 2 ^ 64
  pub time_fits : IsInt64 tx.arrived_at

-- What the writes for one transaction add to the hasher.
unfoldable pub frame : EncryptedTransaction → Bytes
frame tx = put_uint64 tx.seq ++ (put_uint64 (to_u64 tx.arrived_at) ++ tx.ciphertext)

pub write_tx-frame : (tx : EncryptedTransaction) (h : Bytes) → write_tx tx h ≡ h ++ frame tx
unfolding write_tx frame
write_tx-frame tx h = simp append_assoc

-- Two different inputs with one digest.
abbrev pub Collision : (Bytes → Bytes) → Type 0
Collision sha256 = (m : Bytes) × (m' : Bytes) × (m ≢ m') × (sha256 m ≡ sha256 m')

-- A digest is a string of bytes.
abbrev pub HasByteDigests : (Bytes → Bytes) → Type 0
HasByteDigests sha256 = (m : Bytes) → All IsByte (sha256 m)

pub hex_encode_injective :
    (xs ys : Bytes) → All IsByte xs → All IsByte ys → hex_encode xs ≡ hex_encode ys → xs ≡ ys
hex_encode_injective xs ys hx hy e =
    some-injective _ _
      (sym (hex_decode-hex_encode xs hx) ∙ ap hex_decode e ∙ hex_decode-hex_encode ys hy)

-- Equal hex digests come from equal inputs, or show a collision.
pub same_or_Collision :
    (sha256 : Bytes → Bytes) (m m' : Bytes)
    → HasByteDigests sha256
    → hex_encode (sha256 m) ≡ hex_encode (sha256 m')
    → (m ≡ m') ⊎ Collision sha256
same_or_Collision sha256 m m' d e = elim (Bool-cases (bytes_eq m m')) [
  | inl same ↦ inl (bytes_eq→eq m m' same)
  | inr other ↦ inr (m, m', differ other, hex_encode_injective _ _ (d m) (d m') e)
]
  where
    differ : bytes_eq m m' ≡ false → m ≢ m'
    differ f e = false≢true (sym f ∙ ap (bytes_eq m) (sym e) ∙ bytes_eq_refl m)

-- The first two fields can be read off the front of a frame, whatever follows.
pub frame_header :
    (t t' : EncryptedTransaction) (rest rest' : Bytes)
    → IsMachine t
    → IsMachine t'
    → frame t ++ rest ≡ frame t' ++ rest'
    → (t.seq ≡ t'.seq)
      × (t.arrived_at ≡ t'.arrived_at)
      × (t.ciphertext ++ rest ≡ t'.ciphertext ++ rest')
unfolding frame
frame_header t t' rest rest' h h' e =
    let a =
      append_injective (put_uint64 t.seq) (put_uint64 t'.seq) _ _
        (length-put_uint64 t.seq ∙ sym (length-put_uint64 t'.seq)) (simp append_assoc at e) in
    let b =
      append_injective (put_uint64 (to_u64 t.arrived_at)) (put_uint64 (to_u64 t'.arrived_at)) _ _
        (length-put_uint64 (to_u64 t.arrived_at) ∙ sym (length-put_uint64 (to_u64 t'.arrived_at)))
        a.1 in
    (
      put_uint64_injective t.seq t'.seq h.seq_fits h'.seq_fits a.0,
      to_u64_injective t.arrived_at t'.arrived_at h.time_fits h'.time_fits
          (put_uint64_injective _ _ (to_u64-lt t.arrived_at) (to_u64-lt t'.arrived_at) b.0),
      b.1,
    )

pub same_fields :
    (t t' : EncryptedTransaction)
    → t.seq ≡ t'.seq
    → t.arrived_at ≡ t'.arrived_at
    → t.ciphertext ≡ t'.ciphertext
    → t ≡ t'
same_fields t t' p q r = λ i. record { seq = p i; ciphertext = r i; arrived_at = q i }

-- Two transactions with equal reception commitments are one and the same, in ID, arrival time and
-- ciphertext, or else SHA-256 has been broken: the proof yields a collision.
pub reception_binding :
    (sha256 : Bytes → Bytes) (t t' : EncryptedTransaction)
    → HasByteDigests sha256
    → IsMachine t
    → IsMachine t'
    → generate_reception_commitment sha256 t ≡ generate_reception_commitment sha256 t'
    → (t ≡ t') ⊎ Collision sha256
unfolding generate_reception_commitment
reception_binding sha256 t t' d h h' e =
    elim (same_or_Collision sha256 (write_tx t []) (write_tx t' []) d e) [
      | inl same ↦ inl (decoded same)
      | inr broken ↦ inr broken
    ]
  where
    framed : (tx : EncryptedTransaction) → write_tx tx [] ≡ frame tx ++ []
    framed tx = write_tx-frame tx [] ∙ sym (append-nil (frame tx))

    decoded : write_tx t [] ≡ write_tx t' [] → t ≡ t'
    decoded same =
        let (p, q, r) = frame_header t t' [] [] h h' (sym (framed t) ∙ same ∙ framed t') in
        same_fields t t' p q (sym (append-nil t.ciphertext) ∙ r ∙ append-nil t'.ciphertext)
