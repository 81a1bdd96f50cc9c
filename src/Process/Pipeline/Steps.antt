-- ===== src/Process/Pipeline/Steps.antt =====
-- Each step of the two loops keeps every transaction at one place.
use Prim.{tt}
use secureorder.Prelude.{
  ℕ, ◌<◌, List, [], ◌∷◌, ◌++◌, Bool, none, some, ◌≡◌, refl, sym, ◌∙◌, arith, length, All, inl, inr,
  append_assoc, append-nil, of_some, of_none, of_guard, Option-cases, Bool-cases, All-append,
}
use secureorder.Prelude.Int.{pos}
use secureorder.Error.{Bytes}
use secureorder.Sequencing.Transaction.{EncryptedTransaction}
use secureorder.Sequencing.Log.{OrderedLog, IsOrderedLog}
use secureorder.Sequencing.Mempool.{add, try_drain}
use secureorder.Sequencing.Mempool.Waits.{try_drain_splits}
use secureorder.Privacy.Sodium.{Sodium}
use secureorder.Process.Pipeline.{
  Ingress, draining, adding, Reveal, checking, polling, holding, batch_size, Pipeline,
  PipelineEvent, ingress_drains, ingress_adds, reveal_checks, reveal_polls, reveal_sees_done,
  reveals, ingress_step, reveal_step, reveal_batch, pipeline_step,
}
use secureorder.Process.Pipeline.Views.{
  batches_of, batches_of-snoc, commitments, commitments-snoc, carried, held, IsWhole, IsFull,
}

module _ (l : OrderedLog) (promised : IsOrderedLog l) (is_raft : Bool) (sha256 : Bytes → Bytes)
    (sodium : Sodium) (pk sk : Bytes) where
  open l use {stream, ahead}

  -- Between the batches and the log: in the batch goroutine, the mempool and the ingress collector.
  abbrev pub in_flight : Pipeline l is_raft sha256 sodium pk sk → List EncryptedTransaction
  in_flight p = held p.reveal ++ (p.mempool.items ++ carried p.ingress)

  pub record IsInOrder (p : Pipeline l is_raft sha256 sodium pk sk) : Type 0 where
    pub accounted : stream p.log ≡ batches_of p.revealed ++ (in_flight p ++ ahead p.log)
    pub whole : IsWhole p.reveal
    pub full : All IsFull p.revealed
    pub committed : p.published ≡ commitments is_raft sha256 p.revealed

  pub log_acts-IsInOrder :
      (p : Pipeline l is_raft sha256 sodium pk sk) (s : _)
      → (fresh : List EncryptedTransaction) × (stream s ≡ stream p.log ++ fresh)
        × (ahead s ≡ ahead p.log ++ fresh)
      → IsInOrder p
      → IsInOrder (record p { log = s })
  log_acts-IsInOrder p s (fresh, more, more_ahead) h = record {
    accounted = more ∙ rw (h.accounted, more_ahead) (simp append_assoc);
    whole = h.whole;
    full = h.full;
    committed = h.committed;
  }

  -- Passing on what DrainWait gave.
  moved :
      (s b f it a fresh txs a' : List EncryptedTransaction)
      → s ≡ b ++ ((f ++ (it ++ [])) ++ a)
      → a ++ fresh ≡ txs ++ a'
      → s ++ fresh ≡ b ++ ((f ++ (it ++ txs)) ++ a')
  moved s b f it a fresh txs a' e h = rw e (simp (append_assoc, append-nil, h))

  ingress_ends : (txs : List EncryptedTransaction) → length txs < 1 → txs ≡ []
  ingress_ends [] h = refl
  ingress_ends (tx ∷ txs) h = absurd (omega arith)

  drained-IsInOrder :
      (ws : l.Schedule) (p p' : Pipeline l is_raft sha256 sodium pk sk)
      → p.ingress ≡ draining
      → ingress_step l is_raft sha256 sodium pk sk (ingress_drains ws) draining p ≡ some p'
      → IsInOrder p
      → IsInOrder p'
  unfolding pipeline_step carried
  drained-IsInOrder ws p p' at_drain step h = elim (Option-cases (l.drain_wait (pos 1) ws p.log)) [
    | inl waits ↦ cc (rw (waits, ingress_step) at step)
    | inr (((txs, none), log), gave) ↦
        let (fresh, more, flow) = promised.drains_in_order 0 ws p.log log txs none gave in
        of_some IsInOrder (rw (gave, ingress_step) at step) (record {
          accounted =
              more ∙ moved _ _ _ _ _ fresh txs (ahead log) (rw at_drain at h.accounted) flow;
          whole = h.whole;
          full = h.full;
          committed = h.committed;
        })
    | inr (((txs, some e), log), gave) ↦
        let (fresh, more, flow) = promised.drains_in_order 0 ws p.log log txs (some e) gave in
        elim (promised.drains_whole 0 ws p.log log txs (some e) gave) [
          | inl (no_error, one) ↦ cc
          | inr (g, same, short) ↦
              let nothing = ingress_ends txs short in
              of_some IsInOrder (rw (gave, ingress_step) at step) (record {
                accounted =
                    more
                    ∙ moved _ _ _ _ _ fresh [] (ahead log) (rw at_drain at h.accounted)
                        (flow ∙ rw nothing refl);
                whole = h.whole;
                full = h.full;
                committed = h.committed;
              })
        ]
  ]

  pub ingress_step-IsInOrder :
      (ev : PipelineEvent l is_raft sha256 sodium pk sk) (i : Ingress)
      (p p' : Pipeline l is_raft sha256 sodium pk sk)
      → p.ingress ≡ i
      → ingress_step l is_raft sha256 sodium pk sk ev i p ≡ some p'
      → IsInOrder p
      → IsInOrder p'
  unfolding pipeline_step carried add batches_of
  ingress_step-IsInOrder (ingress_drains ws) draining p p' at_i step h =
      drained-IsInOrder ws p p' at_i step h
  ingress_step-IsInOrder ingress_adds (adding []) p p' at_i step h =
      of_some IsInOrder step (record {
        accounted = rw at_i at h.accounted;
        whole = h.whole;
        full = h.full;
        committed = h.committed;
      })
  ingress_step-IsInOrder ingress_adds (adding (tx ∷ txs)) p p' at_i step h =
      of_some IsInOrder step (record {
        accounted = (rw at_i at h.accounted) ∙ simp (add, append_assoc);
        whole = h.whole;
        full = h.full;
        committed = h.committed;
      })
  ingress_step-IsInOrder _ _ p p' at_i step h = of_none IsInOrder step

  reveal_batch-IsInOrder :
      (is_leader : Bool) (hardware : ℕ) (batch : List EncryptedTransaction)
      (p : Pipeline l is_raft sha256 sodium pk sk)
      → p.reveal ≡ holding batch
      → IsInOrder p
      → IsInOrder (reveal_batch l is_raft sha256 sodium pk sk is_leader hardware batch p)
  unfolding pipeline_step held batches_of
  reveal_batch-IsInOrder is_leader hardware batch p at_r h = record {
    accounted =
        (rw at_r at h.accounted) ∙ rw (batches_of-snoc p.revealed (_, batch)) (simp append_assoc);
    whole = tt;
    full = All-append IsFull p.revealed _ h.full (rw at_r at h.whole, tt);
    committed = rw (h.committed) (sym (commitments-snoc is_raft sha256 p.revealed _ batch));
  }

  pub reveal_step-IsInOrder :
      (ev : PipelineEvent l is_raft sha256 sodium pk sk) (r : Reveal)
      (p p' : Pipeline l is_raft sha256 sodium pk sk)
      → p.reveal ≡ r
      → reveal_step l is_raft sha256 sodium pk sk ev r p ≡ some p'
      → IsInOrder p
      → IsInOrder p'
  unfolding pipeline_step held
  reveal_step-IsInOrder reveal_checks checking p p' at_r step h = elim (Bool-cases p.cancelled) [
    | inl c ↦ of_some IsInOrder (rw (c, reveal_step) at step) (record {
      accounted = rw at_r at h.accounted;
      whole = tt;
      full = h.full;
      committed = h.committed;
    })
    | inr c ↦ of_some IsInOrder (rw (c, reveal_step) at step) (record {
      accounted = rw at_r at h.accounted;
      whole = tt;
      full = h.full;
      committed = h.committed;
    })
  ]
  reveal_step-IsInOrder reveal_polls polling p p' at_r step h =
      elim (Option-cases (try_drain batch_size p.mempool)) [
        | inl few ↦ of_some IsInOrder (rw (few, reveal_step) at step) h
        | inr ((batch, mempool), gave) ↦
            let (taken, sized) = try_drain_splits batch_size p.mempool (batch, mempool) gave in
            of_some IsInOrder (rw (gave, reveal_step) at step) (record {
              accounted = (rw at_r at h.accounted) ∙ rw taken (simp append_assoc);
              whole = sized;
              full = h.full;
              committed = h.committed;
            })
      ]
  reveal_step-IsInOrder reveal_sees_done polling p p' at_r step h = of_guard IsInOrder step λ c.
      record {
        accounted = rw at_r at h.accounted;
        whole = tt;
        full = h.full;
        committed = h.committed;
      }
  reveal_step-IsInOrder (reveals is_leader hardware) (holding batch) p p' at_r step h =
      of_some IsInOrder step (reveal_batch-IsInOrder is_leader hardware batch p at_r h)
  reveal_step-IsInOrder _ _ p p' at_r step h = of_none IsInOrder step
