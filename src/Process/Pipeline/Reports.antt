-- ===== src/Process/Pipeline/Reports.antt =====
-- What the batch goroutine reports of its decryptions.
pub mod Runs
use secureorder.Prelude.{
  ℕ, ◌+◌, List, [], ◌∷◌, true, ◌≡◌, refl, sym, ap, ◌∙◌, length, leb, map, All, is_empty, Bool-cases,
  Option-cases, inl, inr,
}
use secureorder.Prelude.{Result, ok, err, Result-cases}
use secureorder.Error.{Bytes, GoError}
use secureorder.Sequencing.Transaction.{EncryptedTransaction}
use secureorder.Privacy.Sodium.{Sodium}
use secureorder.Privacy.Memory.{CMemory}
use secureorder.Privacy.Decrypt.{key_error, decrypt_single, decrypt_batch}
use secureorder.Privacy.Batches.{
  IsLong, failing, all_or_indexes, singles, decrypt_batch-decrypt_single,
}
use secureorder.Process.Pipeline.{Report, tx_refused, decrypt_each, fall_back, decrypt_stage}

-- The IDs of the transactions that were reported as refused.
pub refused_ids : List Report → List ℕ
refused_ids [] = []
refused_ids (tx_refused id e ∷ rs) = id ∷ refused_ids rs
refused_ids (_ ∷ rs) = refused_ids rs

module _ (sodium : Sodium) (pk sk : Bytes) where
  -- The outcome of DecryptSingle does not depend on the C memory.
  pub outcome_alone :
      (ct : Bytes) (m m' : CMemory)
      → (decrypt_single sodium ct pk sk m).0 ≡ (decrypt_single sodium ct pk sk m').0
  unfolding decrypt_single
  outcome_alone ct m m' = elim (Bool-cases (leb (length ct) 48)) [
    | inl short ↦ rw short refl
    | inr long ↦ elim (Option-cases (key_error pk sk)) [
      | inr (e, wrong) ↦ rw (long, wrong) refl
      | inl right ↦ rw (long, right) refl
    ]
  ]

  -- The IDs of those transactions that DecryptSingle refuses.
  pub refused_by_single : CMemory → List EncryptedTransaction → List ℕ
  refused_by_single m [] = []
  refused_by_single m (tx ∷ batch) =
      let rest = refused_by_single m batch in
      elim ((decrypt_single sodium tx.ciphertext pk sk m).0) [
        | ok pt ↦ rest
        | err e ↦ tx.seq ∷ rest
      ]

  pub decrypt_each-refused :
      (batch : List EncryptedTransaction) (m m' : CMemory)
      → refused_ids (decrypt_each sodium pk sk batch m).0 ≡ refused_by_single m' batch
  unfolding decrypt_stage refused_ids refused_by_single
  decrypt_each-refused [] m m' = refl
  decrypt_each-refused (tx ∷ batch) m m' =
      let rest = decrypt_each-refused batch (decrypt_single sodium tx.ciphertext pk sk m).1 m' in
      elim (Result-cases (decrypt_single sodium tx.ciphertext pk sk m').0) [
        | inl (pt, opens) ↦
            rw (outcome_alone tx.ciphertext m m' ∙ opens, opens, decrypt_each, refused_by_single)
              rest
        | inr (e, shut) ↦
            rw (outcome_alone tx.ciphertext m m' ∙ shut, shut, decrypt_each, refused_by_single)
              (ap (λ l. tx.seq ∷ l) rest)
      ]

  module _ (m : CMemory) (pk_sized : length pk ≡ 32) (sk_sized : length sk ≡ 32) where
    all_opened :
        (i : ℕ) (batch : List EncryptedTransaction)
        → is_empty
            (failing i (singles sodium pk sk m pk_sized sk_sized (map (λ tx. tx.ciphertext) batch)))
          ≡ true
        → refused_by_single m batch ≡ []
    unfolding refused_by_single failing
    all_opened i [] h = refl
    all_opened i (tx ∷ batch) h =
        elim (Result-cases (decrypt_single sodium tx.ciphertext pk sk m).0) [
          | inl (pt, opens) ↦
              rw (opens, refused_by_single) (all_opened (i + 1) batch (rw (opens, failing) at h))
          | inr (e, shut) ↦ cc (rw (shut, failing) at h)
        ]

    fall_back-refused :
        (batch : List EncryptedTransaction) (q : Result GoError (List Bytes)) (m' : CMemory)
        → q
          ≡ all_or_indexes
              (singles sodium pk sk m pk_sized sk_sized (map (λ tx. tx.ciphertext) batch))
        → refused_ids (fall_back sodium pk sk batch (q, m')).0 ≡ refused_by_single m batch
    unfolding decrypt_stage all_or_indexes refused_ids
    fall_back-refused batch (err e) m' h = decrypt_each-refused batch m' m
    fall_back-refused batch (ok pts) m' h =
        elim (Bool-cases (
          is_empty (
            failing 0
              (singles sodium pk sk m pk_sized sk_sized (map (λ tx. tx.ciphertext) batch))))) [
                | inl none_failed ↦ sym (all_opened 0 batch none_failed)
                | inr some_failed ↦ cc (rw some_failed at h)
              ]

    -- With keys of 32 bytes and ciphertexts longer than a seal with less than 2 GiB in them, the transactions of a batch that the
    -- goroutine reports as refused are, in order, just those that DecryptSingle refuses, on the path
    -- with one call of DecryptBatch as on the one with the fallback.
    pub decrypt_stage-refused :
        (hardware : ℕ) (batch : List EncryptedTransaction)
        → All IsLong (map (λ tx. tx.ciphertext) batch)
        → refused_ids (decrypt_stage sodium pk sk hardware batch m).0 ≡ refused_by_single m batch
    unfolding decrypt_stage all_or_indexes refused_ids
    decrypt_stage-refused hardware batch h =
        let same =
          decrypt_batch-decrypt_single sodium pk sk m pk_sized sk_sized hardware
            (map (λ tx. tx.ciphertext) batch) m h in
        fall_back-refused batch
          (decrypt_batch sodium hardware (map (λ tx. tx.ciphertext) batch) pk sk m).0 _ same
