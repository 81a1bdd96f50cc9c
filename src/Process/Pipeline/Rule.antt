-- ===== src/Process/Pipeline/Rule.antt =====
-- A rule for what holds of the revealed batches and the reports over every run of the two loops.
use secureorder.Prelude.{
  ℕ, List, [], ◌∷◌, ◌++◌, Bool, none, some, ◌≡◌, inl, inr, of_some, of_none, of_guard, Option-cases,
}
use secureorder.Prelude.Int.{pos}
use secureorder.Error.{Bytes}
use secureorder.Sequencing.Transaction.{EncryptedTransaction}
use secureorder.Sequencing.Log.{OrderedLog}
use secureorder.Sequencing.Mempool.{try_drain}
use secureorder.Privacy.Sodium.{Sodium}
use secureorder.Privacy.Memory.{CMemory}
use secureorder.Process.Pipeline.{
  Report, Ingress, draining, adding, Reveal, checking, polling, holding, batch_size, Pipeline,
  PipelineEvent, log_acts, ingress_drains, ingress_adds, reveal_checks, reveal_polls,
  reveal_sees_done, reveals, context_cancelled, ingress_step, reveal_step, reveal_batch,
  pipeline_step, run_pipeline, new_pipeline, decrypt_stage,
}

module _ (l : OrderedLog) (is_raft : Bool) (sha256 : Bytes → Bytes) (sodium : Sodium)
    (pk sk : Bytes) (P : List (Bool × List EncryptedTransaction) → List Report → Type 0)
    (keeps : (rs : List (Bool × List EncryptedTransaction)) (reports : List Report) (led : Bool)
        (hardware : ℕ) (batch : List EncryptedTransaction) (m : CMemory)
      → P rs reports
      → P
          (rs ++ (led, batch) ∷ [])
          (reports ++ (decrypt_stage sodium pk sk hardware batch m).0)) where
  abbrev Inv : Pipeline l is_raft sha256 sodium pk sk → Type 0
  Inv p = P p.revealed p.reports

  reveal_batch-Inv :
      (is_leader : Bool) (hardware : ℕ) (batch : List EncryptedTransaction)
      (p : Pipeline l is_raft sha256 sodium pk sk)
      → Inv p
      → Inv (reveal_batch l is_raft sha256 sodium pk sk is_leader hardware batch p)
  unfolding pipeline_step
  reveal_batch-Inv is_leader hardware batch p h =
      keeps p.revealed p.reports _ hardware batch p.memory h

  reveal_step-Inv :
      (ev : PipelineEvent l is_raft sha256 sodium pk sk) (r : Reveal)
      (p p' : Pipeline l is_raft sha256 sodium pk sk)
      → reveal_step l is_raft sha256 sodium pk sk ev r p ≡ some p'
      → Inv p
      → Inv p'
  unfolding pipeline_step
  reveal_step-Inv reveal_checks checking p p' step h = of_some Inv step h
  reveal_step-Inv reveal_polls polling p p' step h =
      elim (Option-cases (try_drain batch_size p.mempool)) [
        | inl few ↦ of_some Inv (rw (few, reveal_step) at step) h
        | inr ((batch, mempool), gave) ↦ of_some Inv (rw (gave, reveal_step) at step) h
      ]
  reveal_step-Inv reveal_sees_done polling p p' step h = of_guard Inv step λ c. h
  reveal_step-Inv (reveals is_leader hardware) (holding batch) p p' step h =
      of_some Inv step (reveal_batch-Inv is_leader hardware batch p h)
  reveal_step-Inv _ _ p p' step h = of_none Inv step

  ingress_step-Inv :
      (ev : PipelineEvent l is_raft sha256 sodium pk sk) (i : Ingress)
      (p p' : Pipeline l is_raft sha256 sodium pk sk)
      → ingress_step l is_raft sha256 sodium pk sk ev i p ≡ some p'
      → Inv p
      → Inv p'
  unfolding pipeline_step
  ingress_step-Inv (ingress_drains ws) draining p p' step h =
      elim (Option-cases (l.drain_wait (pos 1) ws p.log)) [
        | inl waits ↦ cc (rw (waits, ingress_step) at step)
        | inr (((txs, none), log), gave) ↦ of_some Inv (rw (gave, ingress_step) at step) h
        | inr (((txs, some e), log), gave) ↦ of_some Inv (rw (gave, ingress_step) at step) h
      ]
  ingress_step-Inv ingress_adds (adding []) p p' step h = of_some Inv step h
  ingress_step-Inv ingress_adds (adding (tx ∷ txs)) p p' step h = of_some Inv step h
  ingress_step-Inv _ _ p p' step h = of_none Inv step

  pipeline_step-Inv :
      (ev : PipelineEvent l is_raft sha256 sodium pk sk)
      (p p' : Pipeline l is_raft sha256 sodium pk sk)
      → pipeline_step l is_raft sha256 sodium pk sk ev p ≡ some p'
      → Inv p
      → Inv p'
  unfolding pipeline_step
  pipeline_step-Inv (log_acts a) p p' step h = elim (Option-cases (l.act a p.log)) [
    | inl stuck ↦ cc (rw (stuck, pipeline_step) at step)
    | inr (s, acted) ↦ of_some Inv (rw (acted, pipeline_step) at step) h
  ]
  pipeline_step-Inv (ingress_drains ws) p p' step h =
      ingress_step-Inv (ingress_drains ws) p.ingress p p' step h
  pipeline_step-Inv ingress_adds p p' step h = ingress_step-Inv ingress_adds p.ingress p p' step h
  pipeline_step-Inv context_cancelled p p' step h = of_some Inv step h
  pipeline_step-Inv reveal_checks p p' step h = reveal_step-Inv reveal_checks p.reveal p p' step h
  pipeline_step-Inv reveal_polls p p' step h = reveal_step-Inv reveal_polls p.reveal p p' step h
  pipeline_step-Inv reveal_sees_done p p' step h =
      reveal_step-Inv reveal_sees_done p.reveal p p' step h
  pipeline_step-Inv (reveals b n) p p' step h = reveal_step-Inv (reveals b n) p.reveal p p' step h

  run_from_rule :
      (evs : List (PipelineEvent l is_raft sha256 sodium pk sk))
      (p p' : Pipeline l is_raft sha256 sodium pk sk)
      → run_pipeline l is_raft sha256 sodium pk sk evs p ≡ some p'
      → Inv p
      → Inv p'
  unfolding run_pipeline
  run_from_rule [] p p' run h = of_some Inv run h
  run_from_rule (e ∷ evs) p p' run h =
      elim (Option-cases (pipeline_step l is_raft sha256 sodium pk sk e p)) [
        | inl stuck ↦ cc (rw (stuck, run_pipeline) at run)
        | inr (p1, st) ↦
            run_from_rule evs p1 p' (rw (st, run_pipeline) at run) (pipeline_step-Inv e p p1 st h)
      ]

  -- What holds at the start and is kept by each revealed batch, holds after every run.
  pub run_pipeline_rule :
      (evs : List (PipelineEvent l is_raft sha256 sodium pk sk)) (log : l.Log) (m : CMemory)
      (p : Pipeline l is_raft sha256 sodium pk sk)
      → run_pipeline l is_raft sha256 sodium pk sk evs
          (new_pipeline l is_raft sha256 sodium pk sk log m)
        ≡ some p
      → P [] []
      → P p.revealed p.reports
  unfolding new_pipeline
  run_pipeline_rule evs log m p run start =
      run_from_rule evs (new_pipeline l is_raft sha256 sodium pk sk log m) p run start
