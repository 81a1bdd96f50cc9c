-- ===== src/Privacy/Batches.antt =====
-- DecryptBatch gives just what DecryptSingle gives for each item, however many threads work on it.
use secureorder.Prelude.{
  ℕ, ◌+◌, ◌-◌, ◌^◌, ◌<◌, List, [], ◌∷◌, map, true, false, none, some, ◌≡◌, refl, ap, ◌∙◌, arith,
  ltb, leb, if◌then◌else◌, length, take, is_empty, Bool-cases, Option-cases, inl, inr, All,
}
use secureorder.Prelude.{Result, ok, err}
use secureorder.Prelude.Int.{ℤ, negsuc, is_zero}
use secureorder.Error.{Bytes, GoError}
use secureorder.Encoding.Decimal.{format_nat}
use secureorder.Privacy.Sodium.{Sodium}
use secureorder.Privacy.Native.{
  DecryptedTx, so_success, decrypt_item, worker_task, decrypt_single_tx, decrypt_batch_tx,
}
use secureorder.Privacy.Native.Workers.{decrypt_batch_tx-worker_task}
use secureorder.Privacy.Memory.{CMemory, malloc}
use secureorder.Privacy.Decrypt.{
  gather, batch_result, batch_failed, prepare, decrypt_single, decrypt_prepared, decrypt_batch,
}
use secureorder.Privacy.RoundTrip.{key_error-none, go_bytes-take}

-- Longer than a seal, with less than 2 GiB in it.
abbrev pub IsLong : Bytes → Type 0
IsLong ct = (48 < length ct) × (length ct < 2 ^ 31 + 48)

-- The indexes of the failures, from `i` on, in decimal.
unfoldable pub failing : ℕ → List (Result GoError Bytes) → List Bytes
failing i [] = []
failing i (ok pt ∷ rs) = failing (i + 1) rs
failing i (err e ∷ rs) = format_nat i ∷ failing (i + 1) rs

unfoldable pub successes : List (Result GoError Bytes) → List Bytes
successes [] = []
successes (ok pt ∷ rs) = pt ∷ successes rs
successes (err e ∷ rs) = successes rs

-- One result for the whole: all the plaintexts, or the indexes of those that fail.
unfoldable pub all_or_indexes : List (Result GoError Bytes) → Result GoError (List Bytes)
unfolding failing successes
all_or_indexes rs =
    if is_empty (failing 0 rs) then ok (successes rs) else err (batch_failed (failing 0 rs))

ltb_long : (ct : Bytes) → IsLong ct → ltb (length ct) 48 ≡ false
ltb_long ct (long, small) = ground arith

leb_long : (ct : Bytes) → IsLong ct → leb (length ct) 48 ≡ false
leb_long ct (long, small) = ground arith

prepare-ok :
    (i : ℕ) (cts : List Bytes) (cs ps : List ℕ) (m : CMemory)
    → All IsLong cts
    → (b : List ℕ × List ℕ) × (m' : CMemory) × (prepare i cts cs ps m ≡ (ok b, m'))
unfolding decrypt_batch
prepare-ok i [] cs ps m h = ((cs, ps), m, refl)
prepare-ok i (ct ∷ cts) cs ps m h = rw (ltb_long ct h.0, prepare) (prepare-ok (i + 1) cts _ _ _ h.1)

module _ (sodium : Sodium) (pk sk : Bytes) (m : CMemory) (pk_sized : length pk ≡ 32)
    (sk_sized : length sk ≡ 32) where
  open sodium use {crypto_box_seal_open}

  decrypt_single-some :
      (ct pt : Bytes)
      → IsLong ct
      → crypto_box_seal_open ct pk sk ≡ some pt
      → (decrypt_single sodium ct pk sk m).0 ≡ ok (take (length ct - 48) pt)
  unfolding decrypt_single decrypt_single_tx malloc
  decrypt_single-some ct pt h opens =
      rw
        (
          leb_long ct h,
          decrypt_single,
          key_error-none pk sk pk_sized sk_sized,
          ltb_long ct h,
          opens,
        )
        (go_bytes-take pt (length ct - 48) (omega (arith, h.1)))

  decrypt_single-none :
      (ct : Bytes)
      → IsLong ct
      → crypto_box_seal_open ct pk sk ≡ none
      → (e : GoError) × ((decrypt_single sodium ct pk sk m).0 ≡ err e)
  unfolding decrypt_single decrypt_single_tx malloc
  decrypt_single-none ct h shut =
      rw
        (leb_long ct h, decrypt_single, key_error-none pk sk pk_sized sk_sized, ltb_long ct h, shut)
        (_, refl)

  -- DecryptSingle on every item.
  abbrev pub singles : List Bytes → List (Result GoError Bytes)
  singles cts = map (λ ct. (decrypt_single sodium ct pk sk m).0) cts

  -- What DecryptBatch reads off the output of a worker, against the results of DecryptSingle.
  record Agrees (i : ℕ) (failure : ℤ) (rs : List (Result GoError Bytes)) (w : List DecryptedTx × ℤ)
      : Type 0 where
    out : List Bytes
    gathered : gather i w.0 ≡ ok (out, failing i rs)
    plain : is_empty (failing i rs) ≡ true → out ≡ successes rs
    flagged : is_empty (failing i rs) ≡ true → w.1 ≡ failure

  worker_task-Agrees :
      (i : ℕ) (cts : List Bytes) (failure : ℤ)
      → All IsLong cts
      → Agrees i failure (singles cts) (worker_task sodium i cts pk sk failure)
  unfolding decrypt_batch decrypt_batch_tx failing successes
  worker_task-Agrees i [] failure h = record {
    out = [];
    gathered = refl;
    plain = λ _. refl;
    flagged = λ _. refl;
  }
  worker_task-Agrees i (ct ∷ cts) failure h = elim (Option-cases (crypto_box_seal_open ct pk sk)) [
    | inr (pt, opens) ↦
        let rest = worker_task-Agrees (i + 1) cts failure h.1 in
        rw (ltb_long ct h.0, decrypt_item, opens, decrypt_single-some ct pt h.0 opens, failing)
          (record {
            out = take (length ct - 48) pt ∷ rest.out;
            gathered =
                rw (go_bytes-take pt (length ct - 48) (omega (arith, h.0.1)), rest.gathered) refl;
            plain = λ e. ap (λ l. take (length ct - 48) pt ∷ l) (rest.plain e);
            flagged = rest.flagged;
          })
    | inl shut ↦
        let rest = worker_task-Agrees (i + 1) cts (negsuc 0) h.1 in
        let (e, failed) = decrypt_single-none ct h.0 shut in
        rw (ltb_long ct h.0, decrypt_item, shut, failed, failing)
          (record {
            out = [] ∷ rest.out;
            gathered = rw rest.gathered refl;
            plain = λ e. cc;
            flagged = λ e. cc;
          })
  ]

  batch_result-Agrees :
      (rs : List (Result GoError Bytes)) (w : List DecryptedTx × ℤ)
      → Agrees 0 so_success rs w
      → batch_result w.1 (gather 0 w.0) ≡ all_or_indexes rs
  unfolding decrypt_batch all_or_indexes
  batch_result-Agrees rs w a = elim (Bool-cases (is_empty (failing 0 rs))) [
    | inl all_open ↦
        rw (a.gathered, batch_result, a.flagged all_open, all_open, a.plain all_open) refl
    | inr some_shut ↦ elim (Bool-cases (is_zero w.1)) [
      | inl z ↦ rw (a.gathered, batch_result, some_shut, z) refl
      | inr nz ↦ rw (a.gathered, batch_result, some_shut, nz) refl
    ]
  ]

  decrypt_prepared-singles :
      (hardware : ℕ) (cts : List Bytes) (b : List ℕ × List ℕ) (m' : CMemory)
      → All IsLong cts
      → (decrypt_prepared sodium hardware cts pk sk (ok b, m')).0 ≡ all_or_indexes (singles cts)
  unfolding decrypt_batch malloc
  decrypt_prepared-singles hardware cts b m' h =
      rw (decrypt_batch_tx-worker_task sodium pk sk hardware cts) (
        batch_result-Agrees (singles cts) (worker_task sodium 0 cts pk sk so_success)
          (worker_task-Agrees 0 cts so_success h))

  -- With keys of 32 bytes and ciphertexts longer than a seal with less than 2 GiB in them, DecryptBatch
  -- agrees with DecryptSingle on each item: it gives all the plaintexts if every item opens, and else no plaintext at all, but
  -- an error with the indexes of just the items that DecryptSingle refuses; the number of threads
  -- makes no difference.
  pub decrypt_batch-decrypt_single :
      (hardware : ℕ) (cts : List Bytes) (m' : CMemory)
      → All IsLong cts
      → (decrypt_batch sodium hardware cts pk sk m').0 ≡ all_or_indexes (singles cts)
  unfolding decrypt_batch
  decrypt_batch-decrypt_single hardware [] m' h =
      rw (key_error-none pk sk pk_sized sk_sized, decrypt_batch) (unfold all_or_indexes in refl)
  decrypt_batch-decrypt_single hardware (ct ∷ cts) m' h =
      let (b, m'', e) = prepare-ok 0 (ct ∷ cts) [] [] _ h in
      rw (key_error-none pk sk pk_sized sk_sized, decrypt_batch)
        (ap (λ r. (decrypt_prepared sodium hardware (ct ∷ cts) pk sk r).0) e
          ∙ decrypt_prepared-singles hardware (ct ∷ cts) b m'' h)
