-- ===== src/Process/Pipeline/Reports/Runs.antt =====
-- What the batch goroutine reports over a whole run, and what its clients' seals are worth.
use Prim.{tt}
use secureorder.Prelude.{
  ℕ, List, [], ◌∷◌, ◌++◌, Bool, true, some, ◌≡◌, refl, sym, ap, ◌∙◌, arith, length, map, All, inl,
  inr, Bool-cases, All-append-left, All-append-right, All-imp, leb, is_empty, map-append, ◌+◌, ◌<◌,
  ◌^◌,
}
use secureorder.Prelude.{ok, Result-cases}
use secureorder.Error.{Bytes}
use secureorder.Sequencing.Transaction.{EncryptedTransaction}
use secureorder.Sequencing.Log.{OrderedLog, IsOrderedLog}
use secureorder.Privacy.Sodium.{Sodium, IsSodium, IsKeypair}
use secureorder.Privacy.Memory.{CMemory}
use secureorder.Privacy.Decrypt.{seal, decrypt_single}
use secureorder.Privacy.RoundTrip.{decrypt_single-seal}
use secureorder.Privacy.Batches.{
  IsLong, failing, all_or_indexes, singles, decrypt_batch-decrypt_single,
}
use secureorder.Process.Pipeline.{
  Report, batch_opened, Pipeline, PipelineEvent, run_pipeline, new_pipeline, decrypt_stage,
}
use secureorder.Process.Pipeline.Views.{batches_of, batches_of-snoc}
use secureorder.Process.Pipeline.Rule.{run_pipeline_rule}
use secureorder.Process.Pipeline.Order.{run_pipeline-IsInOrder}
use secureorder.Process.Pipeline.Reports.{
  refused_ids, refused_by_single, decrypt_each-refused, decrypt_stage-refused,
}

-- A transaction whose ciphertext is longer than a seal, with less than 2 GiB in it.
abbrev pub IsLongTx : EncryptedTransaction → Type 0
IsLongTx tx = IsLong tx.ciphertext

ciphertexts-IsLong :
    (txs : List EncryptedTransaction)
    → All IsLongTx txs
    → All IsLong (map (λ tx. tx.ciphertext) txs)
ciphertexts-IsLong [] h = tt
ciphertexts-IsLong (tx ∷ txs) h = (h.0, ciphertexts-IsLong txs h.1)

refused_ids-append :
    (rs qs : List Report) → refused_ids (rs ++ qs) ≡ refused_ids rs ++ refused_ids qs
unfolding refused_ids
refused_ids-append [] qs = refl
refused_ids-append (Report.batch_opened n ∷ rs) qs = refused_ids-append rs qs
refused_ids-append (Report.batch_refused e ∷ rs) qs = refused_ids-append rs qs
refused_ids-append (Report.tx_refused id e ∷ rs) qs = ap (λ l. id ∷ l) (refused_ids-append rs qs)

module _ (sodium : Sodium) (pk sk : Bytes) where
  refused_by_single-append :
      (m : CMemory) (xs ys : List EncryptedTransaction)
      → refused_by_single sodium pk sk m (xs ++ ys)
        ≡ refused_by_single sodium pk sk m xs ++ refused_by_single sodium pk sk m ys
  unfolding refused_by_single
  refused_by_single-append m [] ys = refl
  refused_by_single-append m (x ∷ xs) ys =
      let rest = refused_by_single-append m xs ys in
      elim (Result-cases (decrypt_single sodium x.ciphertext pk sk m).0) [
        | inl (pt, opens) ↦ rw (opens, refused_by_single) rest
        | inr (e, shut) ↦ rw (shut, refused_by_single) (ap (λ l. x.seq ∷ l) rest)
      ]

  refused_by_single_anywhere :
      (m m' : CMemory) (xs : List EncryptedTransaction)
      → refused_by_single sodium pk sk m xs ≡ refused_by_single sodium pk sk m' xs
  refused_by_single_anywhere m m' xs =
      sym (decrypt_each-refused sodium pk sk xs m m) ∙ decrypt_each-refused sodium pk sk xs m m'

module _ (sodium : Sodium) (pk sk : Bytes) (m₀ : CMemory) (pk_sized : length pk ≡ 32)
    (sk_sized : length sk ≡ 32) where
  -- The refusals reported so far are those of the revealed transactions.
  abbrev IsReported : List (Bool × List EncryptedTransaction) → List Report → Type 0
  IsReported rs reports =
      All IsLongTx (batches_of rs)
      → refused_ids reports ≡ refused_by_single sodium pk sk m₀ (batches_of rs)

  keeps-IsReported :
      (rs : List (Bool × List EncryptedTransaction)) (reports : List Report) (publishes : Bool)
      (hardware : ℕ) (batch : List EncryptedTransaction) (m : CMemory)
      → IsReported rs reports
      → IsReported
          (rs ++ (publishes, batch) ∷ [])
          (reports ++ (decrypt_stage sodium pk sk hardware batch m).0)
  keeps-IsReported rs reports publishes hardware batch m h long =
      let all_long : All IsLongTx (batches_of rs ++ batch) = rw batches_of-snoc at long in
      let stage =
        decrypt_stage-refused sodium pk sk m pk_sized sk_sized hardware batch
          (ciphertexts-IsLong batch (All-append-right IsLongTx (batches_of rs) batch all_long)) in
      refused_ids-append reports (decrypt_stage sodium pk sk hardware batch m).0
      ∙ rw
          (
            h (All-append-left IsLongTx (batches_of rs) batch all_long),
            stage,
            batches_of-snoc,
            refused_by_single-append sodium pk sk m₀ (batches_of rs) batch,
            refused_by_single_anywhere sodium pk sk m m₀ batch,
          )
          refl

  -- Over every run from the start of the process, if the keys have 32 bytes and all ciphertexts in the
  -- log are longer than a seal with less than 2 GiB in them: the IDs that the batch goroutine has
  -- reported as refused are, in order and each once, those of just the revealed transactions that DecryptSingle refuses.
  pub run_pipeline-refused :
      (l : OrderedLog) (promised : IsOrderedLog l) (is_raft : Bool) (sha256 : Bytes → Bytes)
      (evs : List (PipelineEvent l is_raft sha256 sodium pk sk)) (log : l.Log) (m : CMemory)
      (p : Pipeline l is_raft sha256 sodium pk sk)
      → l.stream log ≡ l.ahead log
      → run_pipeline l is_raft sha256 sodium pk sk evs
          (new_pipeline l is_raft sha256 sodium pk sk log m)
        ≡ some p
      → All IsLongTx (l.stream p.log)
      → refused_ids p.reports ≡ refused_by_single sodium pk sk m₀ (batches_of p.revealed)
  unfolding batches_of refused_ids refused_by_single
  run_pipeline-refused l promised is_raft sha256 evs log m p fresh_log run long =
      let (accounted, _, _, _) =
        run_pipeline-IsInOrder l promised is_raft sha256 sodium pk sk evs log m p fresh_log run in
      run_pipeline_rule l is_raft sha256 sodium pk sk IsReported keeps-IsReported evs log m p run
        (λ h. refl) (All-append-left IsLongTx (batches_of p.revealed) _ (rw accounted at long))

module _ (sodium : Sodium) (documented : IsSodium sodium) (pk sk : Bytes)
    (keys : IsKeypair sodium pk sk) where
  -- Some client has sealed less than 2 GiB into this ciphertext for the public key.
  abbrev pub IsSealedTx : EncryptedTransaction → Type 0
  IsSealedTx tx =
      (pt : Bytes) × (g : sodium.Rng) × (length pt < 2 ^ 31)
      × ((seal sodium pt pk g).0 ≡ ok tx.ciphertext)

  opens_long :
      (ct pt : Bytes) (m : CMemory) → (decrypt_single sodium ct pk sk m).0 ≡ ok pt → 48 < length ct
  unfolding decrypt_single
  opens_long ct pt m opens = elim (Bool-cases (leb (length ct) 48)) [
    | inl short ↦ cc (rw (short, decrypt_single) at opens)
    | inr long ↦ ground arith
  ]

  sealed-IsLongTx : (tx : EncryptedTransaction) → IsSealedTx tx → IsLongTx tx
  sealed-IsLongTx tx (pt, g, small, sealed) =
      let m : CMemory = record { next = 0; mallocs = []; frees = [] } in
      let opens =
        decrypt_single-seal sodium documented pt pk sk tx.ciphertext g m small keys sealed in
      (opens_long tx.ciphertext pt m opens.1, omega (arith, opens.0, small))

  all_open :
      (i : ℕ) (m : CMemory) (pk_sized : length pk ≡ 32) (sk_sized : length sk ≡ 32)
      (txs : List EncryptedTransaction)
      → All IsSealedTx txs
      → is_empty
          (failing i (singles sodium pk sk m pk_sized sk_sized (map (λ tx. tx.ciphertext) txs)))
        ≡ true
  unfolding failing
  all_open i m p s [] h = refl
  all_open i m p s (tx ∷ txs) h =
      let (pt, g, small, sealed) = h.0 in
      rw
        (
          (decrypt_single-seal sodium documented pt pk sk tx.ciphertext g m small keys sealed).1,
          failing,
        )
        (all_open (i + 1) m p s txs h.1)

  -- One call of DecryptBatch opens a batch of sealed transactions.
  decrypt_stage-opened :
      (hardware : ℕ) (batch : List EncryptedTransaction) (m : CMemory)
      → All IsSealedTx batch
      → (decrypt_stage sodium pk sk hardware batch m).0 ≡ batch_opened (length batch) ∷ []
  unfolding decrypt_stage all_or_indexes
  decrypt_stage-opened hardware batch m h =
      let p = documented.pk_sized pk sk keys in
      let s = documented.sk_sized pk sk keys in
      rw
        (
          decrypt_batch-decrypt_single sodium pk sk m p s hardware (map (λ tx. tx.ciphertext) batch)
              m (ciphertexts-IsLong batch (All-imp IsSealedTx IsLongTx batch sealed-IsLongTx h)),
          all_open 0 m p s batch h,
          decrypt_stage,
          all_or_indexes,
        )
        refl

  -- One report for each revealed batch, that it was opened.
  abbrev IsOpened : List (Bool × List EncryptedTransaction) → List Report → Type 0
  IsOpened rs reports =
      All IsSealedTx (batches_of rs) → reports ≡ map (λ r. batch_opened (length r.1)) rs

  keeps-IsOpened :
      (rs : List (Bool × List EncryptedTransaction)) (reports : List Report) (publishes : Bool)
      (hardware : ℕ) (batch : List EncryptedTransaction) (m : CMemory)
      → IsOpened rs reports
      → IsOpened
          (rs ++ (publishes, batch) ∷ [])
          (reports ++ (decrypt_stage sodium pk sk hardware batch m).0)
  keeps-IsOpened rs reports publishes hardware batch m h sealed =
      let both : All IsSealedTx (batches_of rs ++ batch) = rw batches_of-snoc at sealed in
      rw
        (
          h (All-append-left IsSealedTx (batches_of rs) batch both),
          decrypt_stage-opened hardware batch m
              (All-append-right IsSealedTx (batches_of rs) batch both),
          map-append,
        )
        refl

  -- Over every run from the start of the process with a key pair of libsodium: if clients have sealed
  -- all the ciphertexts in the log for the public key by SealTransaction, from less than 2 GiB each, then DecryptBatch has
  -- opened every revealed batch as a whole, and the goroutine has reported just this, batch by batch.
  pub run_pipeline-sealed :
      (l : OrderedLog) (promised : IsOrderedLog l) (is_raft : Bool) (sha256 : Bytes → Bytes)
      (evs : List (PipelineEvent l is_raft sha256 sodium pk sk)) (log : l.Log) (m : CMemory)
      (p : Pipeline l is_raft sha256 sodium pk sk)
      → l.stream log ≡ l.ahead log
      → run_pipeline l is_raft sha256 sodium pk sk evs
          (new_pipeline l is_raft sha256 sodium pk sk log m)
        ≡ some p
      → All IsSealedTx (l.stream p.log)
      → p.reports ≡ map (λ r. batch_opened (length r.1)) p.revealed
  run_pipeline-sealed l promised is_raft sha256 evs log m p fresh_log run sealed =
      let (accounted, _, _, _) =
        run_pipeline-IsInOrder l promised is_raft sha256 sodium pk sk evs log m p fresh_log run in
      run_pipeline_rule l is_raft sha256 sodium pk sk IsOpened keeps-IsOpened evs log m p run
        (λ h. refl) (All-append-left IsSealedTx (batches_of p.revealed) _ (rw accounted at sealed))
