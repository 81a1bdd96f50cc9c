-- ===== src/Process/Pipeline.antt =====
-- The two loops of cmd/sequencer/main.go between the ordered log and the chain: the ingress
-- collector and the batch processing goroutine.
pub mod Views
pub mod Steps
pub mod Marks
pub mod Order
pub mod Rule
pub mod Agreement
pub mod Reports
mod Tests
use secureorder.Prelude.{
  ℕ, List, [], ◌∷◌, ◌++◌, Bool, true, false, Option, none, some, not, ◌||◌, if◌then◌else◌, length,
  map,
}
use secureorder.Prelude.{Result, ok, err}
use secureorder.Prelude.Int.{pos}
use secureorder.Error.{Bytes, GoError}
use secureorder.Sequencing.Transaction.{EncryptedTransaction}
use secureorder.Sequencing.Log.{OrderedLog}
use secureorder.Sequencing.Mempool.{EncryptedMempool, add, try_drain, new_encrypted_mempool}
use secureorder.Sequencing.Commitment.{generate_batch_commitment}
use secureorder.Privacy.Sodium.{Sodium}
use secureorder.Privacy.Memory.{CMemory}
use secureorder.Privacy.Decrypt.{decrypt_single, decrypt_batch}

-- Where the ingress collector stands: at DrainWait, in its loop over a batch, or at its end.
pub data Ingress : Type 0 where
  draining : Ingress
  adding : List EncryptedTransaction → Ingress
  ended : Ingress

-- Where the batch goroutine stands: at the test for shutdown, in the mempool's DrainWait, with a
-- batch, or at its end.
pub data Reveal : Type 0 where
  checking : Reveal
  polling : Reveal
  holding : List EncryptedTransaction → Reveal
  returned : Reveal

-- What the batch goroutine logs of its decryptions.
pub data Report : Type 0 where
  batch_opened : ℕ → Report
  batch_refused : GoError → Report
  tx_refused : ℕ → GoError → Report

abbrev pub batch_size : ℕ
batch_size = 1000

-- The loop over the items of a batch that DecryptBatch refused.
pub decrypt_each :
    (sodium : Sodium) → Bytes → Bytes → List EncryptedTransaction → CMemory → List Report × CMemory
decrypt_each sodium pk sk [] m = ([], m)
decrypt_each sodium pk sk (tx ∷ batch) m =
    let (r, m') = decrypt_single sodium tx.ciphertext pk sk m in
    let (reports, m'') = decrypt_each sodium pk sk batch m' in
    (elim r [ ok pt ↦ reports | err e ↦ tx_refused tx.seq e ∷ reports ], m'')

-- From the result of DecryptBatch on.
pub fall_back :
    (sodium : Sodium)
    → Bytes
    → Bytes
    → List EncryptedTransaction
    → Result GoError (List Bytes) × CMemory
    → List Report × CMemory
unfolding decrypt_each
fall_back sodium pk sk batch (ok pts, m) = (batch_opened (length batch) ∷ [], m)
fall_back sodium pk sk batch (err e, m) =
    let (reports, m') = decrypt_each sodium pk sk batch m in (batch_refused e ∷ reports, m')

-- The decryption of a batch; `hardware` as for decrypt_batch_tx.
unfoldable pub decrypt_stage :
    (sodium : Sodium)
    → Bytes
    → Bytes
    → ℕ
    → List EncryptedTransaction
    → CMemory
    → List Report × CMemory
unfolding fall_back
decrypt_stage sodium pk sk hardware batch m =
    fall_back sodium pk sk batch
      (decrypt_batch sodium hardware (map (λ tx. tx.ciphertext) batch) pk sk m)

module _ (l : OrderedLog) (is_raft : Bool) (sha256 : Bytes → Bytes) (sodium : Sodium)
    (pk sk : Bytes) where
  open l use {Log, Action, Schedule, act, drain_wait}

  -- `revealed` lists the batches that were taken, each with what IsLeader answered for it, and `published`
  -- the commitments that were handed to a goroutine for publication.
  pub record Pipeline : Type 0 where
    pub log : Log
    pub ingress : Ingress
    pub mempool : EncryptedMempool
    pub reveal : Reveal
    pub cancelled : Bool
    pub memory : CMemory
    pub revealed : List (Bool × List EncryptedTransaction)
    pub published : List Bytes
    pub reports : List Report

  -- DrainWait of the log is one event, since nothing else that a schedule holds reads or writes the
  -- mempool; a pass of the mempool's DrainWait is one, under its mutex.
  pub data PipelineEvent : Type 0 where
    log_acts : Action → PipelineEvent
    ingress_drains : Schedule → PipelineEvent
    ingress_adds : PipelineEvent
    reveal_checks : PipelineEvent
    reveal_polls : PipelineEvent
    reveal_sees_done : PipelineEvent
    reveals : Bool → ℕ → PipelineEvent
    context_cancelled : PipelineEvent

  -- A batch, with IsLeader's answer.
  pub reveal_batch : Bool → ℕ → List EncryptedTransaction → Pipeline → Pipeline
  reveal_batch is_leader hardware batch p =
      let batch_commitment = generate_batch_commitment sha256 batch in
      let publishes = not is_raft || is_leader in
      let (reports, memory) = decrypt_stage sodium pk sk hardware batch p.memory in
      record p {
        reveal = checking;
        memory = memory;
        revealed = p.revealed ++ (is_leader, batch) ∷ [];
        published = if publishes then p.published ++ batch_commitment ∷ [] else p.published;
        reports = p.reports ++ reports;
      }

  pub ingress_step : PipelineEvent → Ingress → Pipeline → Option Pipeline
  ingress_step (ingress_drains ws) draining p = elim (drain_wait (pos 1) ws p.log) [
    | none ↦ none
    | some ((txs, some e), log) ↦ some (record p { log = log; ingress = ended })
    | some ((txs, none), log) ↦ some (record p { log = log; ingress = adding txs })
  ]
  ingress_step ingress_adds (adding []) p = some (record p { ingress = draining })
  ingress_step ingress_adds (adding (tx ∷ txs)) p =
      some (record p { ingress = adding txs; mempool = add tx p.mempool })
  ingress_step _ _ p = none

  -- A nil batch leads back to the test for shutdown.
  pub reveal_step : PipelineEvent → Reveal → Pipeline → Option Pipeline
  unfolding reveal_batch
  reveal_step reveal_checks checking p =
      some (record p { reveal = if p.cancelled then returned else polling })
  reveal_step reveal_polls polling p = elim (try_drain batch_size p.mempool) [
    | none ↦ some p
    | some (batch, mempool) ↦ some (record p { mempool = mempool; reveal = holding batch })
  ]
  reveal_step reveal_sees_done polling p =
      if p.cancelled then some (record p { reveal = checking }) else none
  reveal_step (reveals is_leader hardware) (holding batch) p =
      some (reveal_batch is_leader hardware batch p)
  reveal_step _ _ p = none

  -- One step of one of the goroutines; `none` where it is not possible.
  unfoldable pub pipeline_step : PipelineEvent → Pipeline → Option Pipeline
  unfolding ingress_step reveal_step
  pipeline_step (log_acts a) p = elim (act a p.log) [
    | none ↦ none
    | some log ↦ some (record p { log = log })
  ]
  pipeline_step (ingress_drains ws) p = ingress_step (ingress_drains ws) p.ingress p
  pipeline_step ingress_adds p = ingress_step ingress_adds p.ingress p
  pipeline_step context_cancelled p = some (record p { cancelled = true })
  pipeline_step e p = reveal_step e p.reveal p

  unfoldable pub run_pipeline : List PipelineEvent → Pipeline → Option Pipeline
  unfolding pipeline_step
  run_pipeline [] p = some p
  run_pipeline (e ∷ es) p = elim (pipeline_step e p) [ none ↦ none | some p' ↦ run_pipeline es p' ]

  -- The two goroutines as main starts them.
  unfoldable pub new_pipeline : Log → CMemory → Pipeline
  new_pipeline log memory = record {
    log = log;
    ingress = draining;
    mempool = new_encrypted_mempool (pos 1024);
    reveal = checking;
    cancelled = false;
    memory = memory;
    revealed = [];
    published = [];
    reports = [];
  }
