-- ===== src/Process/Pipeline/Marks.antt =====
-- The answers of IsLeader that the batch goroutine gets, and those noted with the revealed batches.
use secureorder.Prelude.{
  List, [], ◌∷◌, ◌++◌, Bool, none, some, ◌≡◌, refl, sym, ◌∙◌, map, map-append, append_assoc,
  append-nil, inl, inr, of_some, of_none, of_guard, Option-cases,
}
use secureorder.Prelude.Int.{pos}
use secureorder.Error.{Bytes}
use secureorder.Sequencing.Log.{OrderedLog}
use secureorder.Sequencing.Mempool.{try_drain}
use secureorder.Privacy.Sodium.{Sodium}
use secureorder.Process.Pipeline.{
  Ingress, draining, adding, Reveal, checking, polling, holding, batch_size, Pipeline,
  PipelineEvent, log_acts, ingress_drains, ingress_adds, reveal_checks, reveal_polls,
  reveal_sees_done, reveals, context_cancelled, ingress_step, reveal_step, pipeline_step,
  run_pipeline,
}

module _ (l : OrderedLog) (is_raft : Bool) (sha256 : Bytes → Bytes) (sodium : Sodium)
    (pk sk : Bytes) where
  -- What IsLeader answers at an event, if it is asked.
  pub answers : PipelineEvent l is_raft sha256 sodium pk sk → List Bool
  answers (reveals is_leader hardware) = is_leader ∷ []
  answers _ = []

  unfoldable pub leader_answers : List (PipelineEvent l is_raft sha256 sodium pk sk) → List Bool
  unfolding answers
  leader_answers [] = []
  leader_answers (e ∷ es) = answers e ++ leader_answers es

  abbrev noted : Pipeline l is_raft sha256 sodium pk sk → List Bool
  noted p = map (λ r. r.0) p.revealed

  abbrev IsNoted :
      Pipeline l is_raft sha256 sodium pk sk
      → List Bool
      → Pipeline l is_raft sha256 sodium pk sk
      → Type 0
  IsNoted p bs p' = noted p' ≡ noted p ++ bs

  ingress_step_keeps :
      (ev : PipelineEvent l is_raft sha256 sodium pk sk) (i : Ingress)
      (p p' : Pipeline l is_raft sha256 sodium pk sk)
      → ingress_step l is_raft sha256 sodium pk sk ev i p ≡ some p'
      → noted p' ≡ noted p
  unfolding pipeline_step
  ingress_step_keeps (ingress_drains ws) draining p p' step =
      elim (Option-cases (l.drain_wait (pos 1) ws p.log)) [
        | inl waits ↦ of_none (λ q. noted q ≡ noted p) (rw (waits, ingress_step) at step)
        | inr (((txs, none), log), gave) ↦
            of_some (λ q. noted q ≡ noted p) (rw (gave, ingress_step) at step) refl
        | inr (((txs, some e), log), gave) ↦
            of_some (λ q. noted q ≡ noted p) (rw (gave, ingress_step) at step) refl
      ]
  ingress_step_keeps ingress_adds (adding []) p p' step = of_some (λ q. noted q ≡ noted p) step refl
  ingress_step_keeps ingress_adds (adding (tx ∷ txs)) p p' step =
      of_some (λ q. noted q ≡ noted p) step refl
  ingress_step_keeps _ _ p p' step = of_none (λ q. noted q ≡ noted p) step

  reveal_step-IsNoted :
      (ev : PipelineEvent l is_raft sha256 sodium pk sk) (r : Reveal)
      (p p' : Pipeline l is_raft sha256 sodium pk sk)
      → reveal_step l is_raft sha256 sodium pk sk ev r p ≡ some p'
      → IsNoted p (answers ev) p'
  unfolding pipeline_step answers
  reveal_step-IsNoted reveal_checks checking p p' step =
      of_some (IsNoted p []) step (sym (append-nil _))
  reveal_step-IsNoted reveal_polls polling p p' step =
      elim (Option-cases (try_drain batch_size p.mempool)) [
        | inl few ↦ of_some (IsNoted p []) (rw (few, reveal_step) at step) (sym (append-nil _))
        | inr ((batch, mempool), gave) ↦
            of_some (IsNoted p []) (rw (gave, reveal_step) at step) (sym (append-nil _))
      ]
  reveal_step-IsNoted reveal_sees_done polling p p' step =
      of_guard (IsNoted p []) step λ c. sym (append-nil _)
  reveal_step-IsNoted (reveals is_leader hardware) (holding batch) p p' step =
      of_some (IsNoted p (is_leader ∷ [])) step (map-append (λ r. r.0) p.revealed (_ ∷ []))
  reveal_step-IsNoted ev _ p p' step = of_none (IsNoted p (answers ev)) step

  pipeline_step-IsNoted :
      (ev : PipelineEvent l is_raft sha256 sodium pk sk)
      (p p' : Pipeline l is_raft sha256 sodium pk sk)
      → pipeline_step l is_raft sha256 sodium pk sk ev p ≡ some p'
      → IsNoted p (answers ev) p'
  unfolding pipeline_step answers
  pipeline_step-IsNoted (log_acts a) p p' step = elim (Option-cases (l.act a p.log)) [
    | inl stuck ↦ cc (rw (stuck, pipeline_step) at step)
    | inr (s, acted) ↦
        of_some (IsNoted p []) (rw (acted, pipeline_step) at step) (sym (append-nil _))
  ]
  pipeline_step-IsNoted (ingress_drains ws) p p' step =
      ingress_step_keeps (ingress_drains ws) p.ingress p p' step ∙ sym (append-nil _)
  pipeline_step-IsNoted ingress_adds p p' step =
      ingress_step_keeps ingress_adds p.ingress p p' step ∙ sym (append-nil _)
  pipeline_step-IsNoted context_cancelled p p' step =
      of_some (IsNoted p []) step (sym (append-nil _))
  pipeline_step-IsNoted reveal_checks p p' step =
      reveal_step-IsNoted reveal_checks p.reveal p p' step
  pipeline_step-IsNoted reveal_polls p p' step = reveal_step-IsNoted reveal_polls p.reveal p p' step
  pipeline_step-IsNoted reveal_sees_done p p' step =
      reveal_step-IsNoted reveal_sees_done p.reveal p p' step
  pipeline_step-IsNoted (reveals b n) p p' step =
      reveal_step-IsNoted (reveals b n) p.reveal p p' step

  pub run_pipeline_notes :
      (evs : List (PipelineEvent l is_raft sha256 sodium pk sk))
      (p p' : Pipeline l is_raft sha256 sodium pk sk)
      → run_pipeline l is_raft sha256 sodium pk sk evs p ≡ some p'
      → map (λ r. r.0) p'.revealed ≡ map (λ r. r.0) p.revealed ++ leader_answers evs
  unfolding run_pipeline leader_answers
  run_pipeline_notes [] p p' run = of_some (IsNoted p []) run (sym (append-nil _))
  run_pipeline_notes (e ∷ evs) p p' run =
      elim (Option-cases (pipeline_step l is_raft sha256 sodium pk sk e p)) [
        | inl stuck ↦ cc (rw (stuck, run_pipeline) at run)
        | inr (p1, st) ↦
            let now = pipeline_step-IsNoted e p p1 st in
            let later = run_pipeline_notes evs p1 p' (rw (st, run_pipeline) at run) in
            later ∙ rw now (append_assoc (noted p) (answers e) (leader_answers evs))
      ]
