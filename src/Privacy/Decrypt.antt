-- ===== src/Privacy/Decrypt.antt =====
-- pkg/privacy/privacy_cgo.go: SealTransaction, DecryptSingle and DecryptBatch.
use secureorder.Prelude.{
  ℕ, ◌+◌, ◌%◌, ◌^◌, List, [], ◌∷◌, ◌++◌, true, false, Option, none, some, ◌==◌, ltb, leb, not, ◌||◌,
  if◌then◌else◌, length, take, is_empty,
}
use secureorder.Prelude.{Result, ok, err}
use secureorder.Prelude.Int.{ℤ, pos, is_zero}
use secureorder.Text.{codes}
use secureorder.Error.{Bytes, GoError, message}
use secureorder.Encoding.Decimal.{format_int, format_nat}
use secureorder.Privacy.Sodium.{Sodium}
use secureorder.Privacy.Native.{
  DecryptedTx, seal_bytes, seal_transaction, decrypt_single_tx, decrypt_batch_tx,
}
use secureorder.Privacy.Memory.{CMemory, malloc, free, free_all}
use secureorder.Privacy.Keys.{public_key_bytes, secret_key_bytes}

-- `fmt.Errorf` with the prefix and a number; `%d` of two, in DecryptSingle.
pub too_short : ℕ → GoError
too_short i = message (codes "ciphertext[" ++ format_nat i ++ codes "] too short")

unfoldable pub key_error : Bytes → Bytes → Option GoError
key_error pk sk =
    if not (length pk == public_key_bytes)
    then some (message (codes "public key must be 32 bytes"))
    else if not (length sk == secret_key_bytes)
    then some (message (codes "secret key must be 32 bytes"))
    else none

-- `C.GoBytes(p, C.int(n))`: C.int keeps 32 bits, with a sign. A negative length panics, which ends the
-- program; this is an error here.
pub go_bytes : Bytes → ℕ → Result GoError Bytes
go_bytes p n =
    let m = n % 2 ^ 32 in
    if ltb m (2 ^ 31) then ok (take m p) else err (message (codes "gobytes: length out of range"))

-- The result of DecryptSingle, from decrypt_single_tx and its output.
pub single_result : ℤ × DecryptedTx → Result GoError Bytes
unfolding go_bytes
single_result (ret, dec) =
    if not (is_zero ret) || not (is_zero dec.status)
    then err (
        message (
          codes "decrypt_single_tx failed: ret="
          ++ format_int ret
          ++ codes " status="
          ++ format_int dec.status))
    else go_bytes dec.plaintext dec.length_out

-- `out` of DecryptBatch, with the empty list for nil, and `errIdx` from index `i` on.
pub refused_item :
    ℕ → Result GoError (List Bytes × List Bytes) → Result GoError (List Bytes × List Bytes)
refused_item i (err e) = err e
refused_item i (ok (out, err_idx)) = ok ([] ∷ out, format_nat i ∷ err_idx)

pub opened_item :
    Result GoError Bytes
    → Result GoError (List Bytes × List Bytes)
    → Result GoError (List Bytes × List Bytes)
opened_item (err e) rest = err e
opened_item (ok pt) (err e) = err e
opened_item (ok pt) (ok (out, err_idx)) = ok (pt ∷ out, err_idx)

pub gather : ℕ → List DecryptedTx → Result GoError (List Bytes × List Bytes)
unfolding refused_item opened_item go_bytes
gather i [] = ok ([], [])
gather i (d ∷ ds) =
    let rest = gather (i + 1) ds in
    if not (is_zero d.status)
    then refused_item i rest
    else opened_item (go_bytes d.plaintext d.length_out) rest

-- `strings.Join(errIdx, ",")`
pub join_commas : List Bytes → Bytes
join_commas [] = []
join_commas (s ∷ []) = s
join_commas (s ∷ t ∷ ts) = s ++ b',' ∷ join_commas (t ∷ ts)

unfoldable pub batch_failed : List Bytes → GoError
unfolding join_commas
batch_failed err_idx =
    message (codes "decrypt_batch_tx failed for indexes: " ++ join_commas err_idx)

pub batch_result : ℤ → Result GoError (List Bytes × List Bytes) → Result GoError (List Bytes)
batch_result ret (err e) = err e
batch_result ret (ok (out, err_idx)) =
    if not (is_zero ret) || not (is_empty err_idx) then err (batch_failed err_idx) else ok out

-- The loop that copies the ciphertexts: the buffers for ciphertexts and plaintexts.
pub prepare :
    ℕ → List Bytes → List ℕ → List ℕ → CMemory → Result GoError (List ℕ × List ℕ) × CMemory
unfolding too_short
prepare i [] cipher_buffers plain_buffers m = (ok (cipher_buffers, plain_buffers), m)
prepare i (ct ∷ cts) cipher_buffers plain_buffers m = elim (ltb (length ct) seal_bytes) [
  | true ↦ (err (too_short i), m)
  | false ↦
      let (c, m') = malloc m in
      let (p, m'') = malloc m' in
      prepare (i + 1) cts (cipher_buffers ++ c ∷ []) (plain_buffers ++ p ∷ []) m''
]

module _ (sodium : Sodium) where
  open sodium use {Rng}

  -- SealTransaction
  unfoldable pub seal : Bytes → Bytes → Rng → Result GoError Bytes × Rng
  seal plaintext pk g =
      if is_empty plaintext
      then (err (message (codes "plaintext cannot be empty")), g)
      else if not (length pk == public_key_bytes)
      then (err (message (codes "sequencer public key must be 32 bytes")), g)
      else let ((ret, ct), g') = seal_transaction sodium plaintext pk g in
        (
          if not (is_zero ret)
              then err (message (codes "seal_transaction failed: code=" ++ format_int ret))
              else ok ct,
          g',
        )

  -- DecryptSingle from its allocations on; the deferred calls run in reverse.
  pub decrypt_in_c : Bytes → Bytes → Bytes → CMemory → Result GoError Bytes × CMemory
  unfolding single_result
  decrypt_in_c ct pk sk m =
      let (c_ciphertext, m1) = malloc m in
      let (c_pub_key, m2) = malloc m1 in
      let (c_sec_key, m3) = malloc m2 in
      let (c_plaintext, m4) = malloc m3 in
      let cleared : DecryptedTx = record {
        plaintext = [];
        length_out = 0;
        original_index = 0;
        status = pos 0;
      } in
      (
        single_result (decrypt_single_tx sodium ct pk sk cleared),
        free c_ciphertext (free c_pub_key (free c_sec_key (free c_plaintext m4))),
      )

  unfoldable pub decrypt_single : Bytes → Bytes → Bytes → CMemory → Result GoError Bytes × CMemory
  unfolding decrypt_in_c
  decrypt_single ct pk sk m =
      if leb (length ct) seal_bytes
      then (err (message (codes "ciphertext too short")), m)
      else elim (key_error pk sk) [ some e ↦ (err e, m) | none ↦ decrypt_in_c ct pk sk m ]

  -- DecryptBatch behind its loop: with an error the cleanup of the buffers is not deferred yet.
  pub decrypt_prepared :
      ℕ
      → List Bytes
      → Bytes
      → Bytes
      → Result GoError (List ℕ × List ℕ) × CMemory
      → Result GoError (List Bytes) × CMemory
  unfolding batch_result gather
  decrypt_prepared hardware cts pk sk (err e, m) = (err e, m)
  decrypt_prepared hardware cts pk sk (ok (cipher_buffers, plain_buffers), m) =
      let (c_pub_key, m1) = malloc m in
      let (c_sec_key, m2) = malloc m1 in
      let (ret, dec) = decrypt_batch_tx sodium hardware cts pk sk in
      (
        batch_result ret (gather 0 dec),
        free_all plain_buffers (free_all cipher_buffers (free c_pub_key (free c_sec_key m2))),
      )

  pub decrypt_items :
      ℕ → List Bytes → Bytes → Bytes → CMemory → Result GoError (List Bytes) × CMemory
  unfolding decrypt_prepared prepare
  decrypt_items hardware cts pk sk m =
      let (enc_mem, m1) = malloc m in
      let (dec_mem, m2) = malloc m1 in
      let (r, m3) = decrypt_prepared hardware cts pk sk (prepare 0 cts [] [] m2) in
      (r, free enc_mem (free dec_mem m3))

  unfoldable pub decrypt_batch :
      ℕ → List Bytes → Bytes → Bytes → CMemory → Result GoError (List Bytes) × CMemory
  unfolding decrypt_items
  decrypt_batch hardware cts pk sk m = elim (key_error pk sk) [
    | some e ↦ (err e, m)
    | none ↦ if is_empty cts then (ok [], m) else decrypt_items hardware cts pk sk m
  ]
