-- ===== src/Process/Pipeline/Order.antt =====
-- Every transaction that the log commits stands at one place between the log and the published
-- batches.
use Prim.{tt}
use secureorder.Prelude.{
  map, List, [], ◌∷◌, ◌++◌, Bool, some, ◌≡◌, refl, All, inl, inr, of_some, Option-cases,
}
use secureorder.Error.{Bytes}
use secureorder.Sequencing.Log.{OrderedLog, IsOrderedLog}
use secureorder.Sequencing.Mempool.{new_encrypted_mempool}
use secureorder.Privacy.Sodium.{Sodium}
use secureorder.Privacy.Memory.{CMemory}
use secureorder.Process.Pipeline.{
  Pipeline, PipelineEvent, log_acts, ingress_drains, ingress_adds, reveal_checks, reveal_polls,
  reveal_sees_done, reveals, context_cancelled, pipeline_step, run_pipeline, new_pipeline,
}
use secureorder.Process.Pipeline.Marks.{leader_answers, run_pipeline_notes}
use secureorder.Process.Pipeline.Views.{batches_of, commitments, carried, held, IsFull}
use secureorder.Process.Pipeline.Steps.{
  in_flight, IsInOrder, log_acts-IsInOrder, ingress_step-IsInOrder, reveal_step-IsInOrder,
}

module _ (l : OrderedLog) (promised : IsOrderedLog l) (is_raft : Bool) (sha256 : Bytes → Bytes)
    (sodium : Sodium) (pk sk : Bytes) where
  open l use {stream, ahead}

  pipeline_step-IsInOrder :
      (ev : PipelineEvent l is_raft sha256 sodium pk sk)
      (p p' : Pipeline l is_raft sha256 sodium pk sk)
      → pipeline_step l is_raft sha256 sodium pk sk ev p ≡ some p'
      → IsInOrder l promised is_raft sha256 sodium pk sk p
      → IsInOrder l promised is_raft sha256 sodium pk sk p'
  unfolding pipeline_step
  pipeline_step-IsInOrder (log_acts a) p p' step h = elim (Option-cases (l.act a p.log)) [
    | inl stuck ↦ cc (rw (stuck, pipeline_step) at step)
    | inr (s, acted) ↦
        of_some (IsInOrder l promised is_raft sha256 sodium pk sk)
          (rw (acted, pipeline_step) at step)
          (log_acts-IsInOrder l promised is_raft sha256 sodium pk sk p s
            (promised.act_appends a p.log s acted) h)
  ]
  pipeline_step-IsInOrder (ingress_drains ws) p p' step h =
      ingress_step-IsInOrder l promised is_raft sha256 sodium pk sk (ingress_drains ws) p.ingress p
        p' refl step h
  pipeline_step-IsInOrder ingress_adds p p' step h =
      ingress_step-IsInOrder l promised is_raft sha256 sodium pk sk ingress_adds p.ingress p p' refl
        step h
  pipeline_step-IsInOrder context_cancelled p p' step h =
      of_some (IsInOrder l promised is_raft sha256 sodium pk sk) step (record {
        accounted = h.accounted;
        whole = h.whole;
        full = h.full;
        committed = h.committed;
      })
  pipeline_step-IsInOrder reveal_checks p p' step h =
      reveal_step-IsInOrder l promised is_raft sha256 sodium pk sk reveal_checks p.reveal p p' refl
        step h
  pipeline_step-IsInOrder reveal_polls p p' step h =
      reveal_step-IsInOrder l promised is_raft sha256 sodium pk sk reveal_polls p.reveal p p' refl
        step h
  pipeline_step-IsInOrder reveal_sees_done p p' step h =
      reveal_step-IsInOrder l promised is_raft sha256 sodium pk sk reveal_sees_done p.reveal p p'
        refl step h
  pipeline_step-IsInOrder (reveals b n) p p' step h =
      reveal_step-IsInOrder l promised is_raft sha256 sodium pk sk (reveals b n) p.reveal p p' refl
        step h

  steps-IsInOrder :
      (evs : List (PipelineEvent l is_raft sha256 sodium pk sk))
      (p p' : Pipeline l is_raft sha256 sodium pk sk)
      → run_pipeline l is_raft sha256 sodium pk sk evs p ≡ some p'
      → IsInOrder l promised is_raft sha256 sodium pk sk p
      → IsInOrder l promised is_raft sha256 sodium pk sk p'
  unfolding run_pipeline
  steps-IsInOrder [] p p' run h = of_some (IsInOrder l promised is_raft sha256 sodium pk sk) run h
  steps-IsInOrder (e ∷ evs) p p' run h =
      elim (Option-cases (pipeline_step l is_raft sha256 sodium pk sk e p)) [
        | inl stuck ↦ cc (rw (stuck, run_pipeline) at run)
        | inr (p1, st) ↦
            steps-IsInOrder evs p1 p' (rw (st, run_pipeline) at run)
              (pipeline_step-IsInOrder e p p1 st h)
      ]

  -- Whatever the goroutines do, from the start of the process on: the transactions that the log
  -- committed are, in its order and each once, those of the revealed batches, then those in flight,
  -- then those that the log still holds; every batch has 1000 transactions; each is noted with what
  -- IsLeader answered for it; and the commitments handed over for publication are, in order, those of
  -- the batches that this node may publish: of all without Raft, of those for which it was the leader
  -- with Raft.
  pub run_pipeline-IsInOrder :
      (evs : List (PipelineEvent l is_raft sha256 sodium pk sk)) (log : l.Log) (m : CMemory)
      (p : Pipeline l is_raft sha256 sodium pk sk)
      → stream log ≡ ahead log
      → run_pipeline l is_raft sha256 sodium pk sk evs
          (new_pipeline l is_raft sha256 sodium pk sk log m)
        ≡ some p
      → (stream p.log
          ≡ batches_of p.revealed
            ++ (in_flight l promised is_raft sha256 sodium pk sk p ++ ahead p.log))
        × All IsFull p.revealed
        × (map (λ r. r.0) p.revealed ≡ leader_answers l is_raft sha256 sodium pk sk evs)
        × (p.published ≡ commitments is_raft sha256 p.revealed)
  unfolding new_pipeline new_encrypted_mempool batches_of held carried commitments
  run_pipeline-IsInOrder evs log m p fresh_log run =
      let h =
        steps-IsInOrder evs (new_pipeline l is_raft sha256 sodium pk sk log m) p run
          (record { accounted = fresh_log; whole = tt; full = tt; committed = refl }) in
      (
        h.accounted,
        h.full,
        run_pipeline_notes l is_raft sha256 sodium pk sk evs _ p run,
        h.committed,
      )
