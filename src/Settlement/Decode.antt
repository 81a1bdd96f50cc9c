-- ===== src/Settlement/Decode.antt =====
-- What parseCommitment32 accepts and returns, and that the sequencer's own commitments pass it.
use secureorder.Prelude.{
  ◌%◌, List, [], ◌∷◌, ◌++◌, some, ◌≡◌, refl, ap, ◌∙◌, arith, length, All, ◌==◌, ==_iff, Bool-cases,
  Option-cases, inl, inr,
}
use secureorder.Prelude.{Result, ok}
use secureorder.Text.{codes, trim_0x}
use secureorder.Error.{Bytes, GoError}
use secureorder.Encoding.Bytes.{IsByte}
use secureorder.Encoding.Hex.{
  hex_encode, hex_decode, hex_decode-hex_encode, length-hex_encode, hex_digit-ne-x,
  hex_decode-IsDecoded, IsDecoded,
}
use secureorder.Sequencing.Transaction.{EncryptedTransaction}
use secureorder.Sequencing.Commitment.{write_batch, generate_batch_commitment}
use secureorder.Settlement.{parse_commitment32, prefixed, decode_string}

-- Hex digits never begin with `0x`.
trim_0x-hex_encode : (bs : Bytes) → All IsByte bs → trim_0x (hex_encode bs) ≡ hex_encode bs
unfolding trim_0x hex_encode
trim_0x-hex_encode [] h = refl
trim_0x-hex_encode (b ∷ bs) h = ground (arith, hex_digit-ne-x (b % 16))

parse_raw :
    (s : Bytes) (out : Bytes)
    → length (trim_0x s) ≡ 64
    → hex_decode (trim_0x s) ≡ some out
    → parse_commitment32 s ≡ ok out
unfolding parse_commitment32
parse_raw s out l d = rw ((==_iff (length (trim_0x s)) 64).1 l) (rw (d, decode_string))

-- The commitment of every batch is accepted on the way to the contract, with and without a `0x` in
-- front, and arrives there as the very digest of the batch, if the hash function gives 32 bytes.
pub parse_commitment32-generate_batch_commitment :
    (sha256 : Bytes → Bytes) (batch : List EncryptedTransaction)
    → ((m : Bytes) → (length (sha256 m) ≡ 32) × All IsByte (sha256 m))
    → (parse_commitment32 (generate_batch_commitment sha256 batch)
        ≡ ok (sha256 (write_batch batch [])))
      × (parse_commitment32 (codes "0x" ++ generate_batch_commitment sha256 batch)
          ≡ ok (sha256 (write_batch batch [])))
unfolding generate_batch_commitment
parse_commitment32-generate_batch_commitment sha256 batch digest = (
  parse_raw (hex_encode d) d (ap length bare ∙ sized) (ap hex_decode bare ∙ back),
  parse_raw (codes "0x" ++ hex_encode d) d sized' back',
)
  where
    d : Bytes
    d = sha256 (write_batch batch [])

    bare : trim_0x (hex_encode d) ≡ hex_encode d
    bare = trim_0x-hex_encode d (digest (write_batch batch [])).1

    sized : length (hex_encode d) ≡ 64
    sized = omega (arith, length-hex_encode d, (digest (write_batch batch [])).0)

    back : hex_decode (hex_encode d) ≡ some d
    back = hex_decode-hex_encode d (digest (write_batch batch [])).1

    sized' : length (trim_0x (codes "0x" ++ hex_encode d)) ≡ 64
    sized' = unfold trim_0x in sized

    back' : hex_decode (trim_0x (codes "0x" ++ hex_encode d)) ≡ some d
    back' = unfold trim_0x in back

decode_string-IsDecoded :
    (s p out : Bytes) → prefixed p (decode_string s) ≡ ok out → IsDecoded s out
unfolding parse_commitment32
decode_string-IsDecoded s p out e = elim (Option-cases (hex_decode s)) [
  | inl fails ↦ cc (rw (fails, decode_string) at e)
  | inr (bs, d) ↦ hex_decode-IsDecoded s out (d ∙ same bs (rw (d, decode_string) at e))
]
  where
    same : (bs : Bytes) → ◌≡◌ {A = Result GoError Bytes} (ok bs) (ok out) → some bs ≡ some out
    same bs h = cc

-- What parseCommitment32 returns are 32 bytes; an input that is not 64 digits long after an optional
-- `0x` gives an error.
pub parse_commitment32_sound :
    (s out : Bytes)
    → parse_commitment32 s ≡ ok out
    → (length out ≡ 32) × All IsByte out × (length (trim_0x s) ≡ 64)
unfolding parse_commitment32
parse_commitment32_sound s out e = elim (Bool-cases (length (trim_0x s) == 64)) [
  | inl right ↦
      let d = decode_string-IsDecoded (trim_0x s) _ out (rw right at e) in
      let l = (==_iff (length (trim_0x s)) 64).0 right in (omega (arith, d.halved), d.bytes, l)
  | inr wrong ↦ absurd (cc (rw wrong at e))
]
