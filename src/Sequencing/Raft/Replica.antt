-- ===== src/Sequencing/Raft/Replica.antt =====
-- What a replica's consumers see of the replicated log.
use mathlib.Core.Option.{some-injective}
use secureorder.Prelude.{
  List-cases, ℕ, ◌<◌, List, [], ◌∷◌, ◌++◌, false, Option, none, some, ◌≡◌, refl, sym, ap, ◌∙◌,
  arith, append_assoc, append-nil, of_some, Option-cases, inl, inr,
}
use secureorder.Prelude.{Result, ok, err}
use secureorder.Error.{Bytes, GoError}
use secureorder.Sequencing.Transaction.{EncryptedTransaction, Between}
use secureorder.Sequencing.Raft.{
  RaftProposal, LogEntry, RaftFsm, sent, entry_tx, apply, applied, take_committed, snapshot,
  restore,
}

-- A replica's life: the Raft library applies the next committed entry, or restores a snapshot that
-- stands for entries; a consumer receives.
pub data FsmEvent : Type 0 where
  apply_entry : LogEntry → FsmEvent
  install_snapshot : Bytes → FsmEvent
  consume : FsmEvent

-- The indices of entries grow strictly from `lo` on, as Raft guarantees of its log.
abbrev pub IsAscending : ℕ → List LogEntry → Type 0
IsAscending lo [] = Unit
IsAscending lo (l ∷ ls) = (lo < l.index) × IsAscending l.index ls

-- The entries that were applied one by one, not those that came by a snapshot.
abbrev pub applied_entries : List FsmEvent → List LogEntry
applied_entries [] = []
applied_entries (apply_entry l ∷ es) = l ∷ applied_entries es
applied_entries (install_snapshot content ∷ es) = applied_entries es
applied_entries (consume ∷ es) = applied_entries es

module _ (unmarshal : Bytes → Result GoError RaftProposal) where
  -- The transactions of the entries that carry a proposal.
  parsed : Result GoError RaftProposal → LogEntry → List EncryptedTransaction
  parsed (ok p) l = entry_tx l p ∷ []
  parsed (err e) l = []

  unfoldable pub log_txs : List LogEntry → List EncryptedTransaction
  unfolding parsed entry_tx
  log_txs [] = []
  log_txs (l ∷ ls) = parsed (unmarshal l.content) l ++ log_txs ls

  unfoldable pub fsm_step : RaftFsm → FsmEvent → Option RaftFsm
  fsm_step f (apply_entry l) = elim (apply unmarshal l sent f) [
    | none ↦ none
    | some (r, f') ↦ some f'
  ]
  fsm_step f (install_snapshot content) = some (restore content f)
  fsm_step f consume = elim (take_committed f) [ none ↦ none | some (tx, f') ↦ some f' ]

  unfoldable pub fsm_run : RaftFsm → List FsmEvent → Option RaftFsm
  fsm_run f [] = some f
  fsm_run f (e ∷ es) = elim (fsm_step f e) [ none ↦ none | some f' ↦ fsm_run f' es ]

  apply-delivered :
      (l : LogEntry) (f f' : RaftFsm) (r : Result GoError RaftProposal)
      (a : Result GoError EncryptedTransaction)
      → applied unmarshal l sent f r ≡ some (a, f')
      → f'.delivered ≡ f.delivered ++ parsed r l
  unfolding apply parsed
  apply-delivered l f f' (err e) a h =
      of_some (λ p. p.1.delivered ≡ f.delivered ++ []) h (sym (append-nil f.delivered))
  apply-delivered l f f' (ok p) a h = ground arith

  fsm_step-delivered :
      (f f' : RaftFsm) (e : FsmEvent)
      → fsm_step f e ≡ some f'
      → f'.delivered ≡ f.delivered ++ log_txs (applied_entries (e ∷ []))
  unfolding fsm_step log_txs take_committed restore
  fsm_step-delivered f f' (apply_entry l) h = elim (Option-cases (apply unmarshal l sent f)) [
    | inl stuck ↦ cc (rw (stuck, fsm_step) at h)
    | inr ((a, p), s) ↦
        let d = apply-delivered l f p (unmarshal l.content) a (unfold apply in s) in
        let same : p ≡ f' = some-injective _ _ (rw (s, fsm_step) at h) in
        ap (λ g. g.delivered) (sym same) ∙ d ∙ ap (λ t. f.delivered ++ t) (sym (append-nil _))
  ]
  fsm_step-delivered f f' (install_snapshot content) h =
      of_some (λ g. g.delivered ≡ f.delivered ++ []) h (sym (append-nil f.delivered))
  fsm_step-delivered f f' consume h = elim (List-cases f.committed) [
    | inl nil ↦ cc (rw (nil, fsm_step, take_committed) at h)
    | inr (tx, rest, e) ↦
        of_some (λ g. g.delivered ≡ f.delivered ++ []) (rw (e, fsm_step, take_committed) at h)
          (sym (append-nil f.delivered))
  ]

  log_txs-append : (ls ms : List LogEntry) → log_txs (ls ++ ms) ≡ log_txs ls ++ log_txs ms
  unfolding log_txs
  log_txs-append [] ms = refl
  log_txs-append (l ∷ ls) ms = simp (log_txs-append ls ms, append_assoc)

  applied_entries-cons :
      (e : FsmEvent) (es : List FsmEvent)
      → applied_entries (e ∷ es) ≡ applied_entries (e ∷ []) ++ applied_entries es
  applied_entries-cons (apply_entry l) es = refl
  applied_entries-cons (install_snapshot content) es = refl
  applied_entries-cons consume es = refl

  fsm_run-delivered :
      (f f' : RaftFsm) (es : List FsmEvent)
      → fsm_run f es ≡ some f'
      → f'.delivered ≡ f.delivered ++ log_txs (applied_entries es)
  unfolding fsm_run
  fsm_run-delivered f f' [] h =
      of_some (λ g. g.delivered ≡ f.delivered ++ log_txs []) h
        (unfold log_txs in sym (append-nil f.delivered))
  fsm_run-delivered f f' (e ∷ es) h = elim (Option-cases (fsm_step f e)) [
    | inl stuck ↦ cc (rw (stuck, fsm_run) at h)
    | inr (g, s) ↦
        fsm_run-delivered g f' es (rw (s, fsm_run) at h)
        ∙ rw (fsm_step-delivered f g e s, append_assoc, ← log_txs-append, ← applied_entries-cons)
  ]

abbrev pub new_fsm : ℕ → RaftFsm
new_fsm capacity = record { capacity = capacity; committed = []; done = false; delivered = [] }

-- The index of the last entry, or `lo`.
abbrev pub last_index : ℕ → List LogEntry → ℕ
last_index lo [] = lo
last_index lo (l ∷ ls) = last_index l.index ls

module _ (unmarshal : Bytes → Result GoError RaftProposal) where
  parsed-Between :
      (lo : ℕ) (l : LogEntry) (hi : ℕ) (r : Result GoError RaftProposal)
      (txs : List EncryptedTransaction)
      → lo < l.index
      → Between l.index hi txs
      → Between lo hi (parsed unmarshal r l ++ txs)
  unfolding log_txs
  parsed-Between lo l hi (ok p) txs lt h = (lt, h)
  parsed-Between lo l hi (err e) [] lt h = omega arith
  parsed-Between lo l hi (err e) (t ∷ txs) lt h = (omega arith, h.1)

  log_txs-Between :
      (lo : ℕ) (ls : List LogEntry)
      → IsAscending lo ls
      → Between lo (last_index lo ls) (log_txs unmarshal ls)
  unfolding log_txs
  log_txs-Between lo [] h = omega arith
  log_txs-Between lo (l ∷ ls) h =
      parsed-Between lo l (last_index l.index ls) (unmarshal l.content) (log_txs unmarshal ls) h.0
        (log_txs-Between l.index ls h.1)

  -- Whatever consumers receive meanwhile, a replica that starts empty delivers exactly the
  -- transactions of the entries applied to it, in log order, and their IDs grow strictly if the
  -- indices do.
  pub fsm_run-Between :
      (capacity : ℕ) (es : List FsmEvent) (f : RaftFsm)
      → fsm_run unmarshal (new_fsm capacity) es ≡ some f
      → IsAscending 0 (applied_entries es)
      → (f.delivered ≡ log_txs unmarshal (applied_entries es))
        × Between 0 (last_index 0 (applied_entries es)) f.delivered
  fsm_run-Between capacity es f r a =
      let d = fsm_run-delivered unmarshal (new_fsm capacity) f es r in
      (d, rw d (log_txs-Between 0 (applied_entries es) a))

  -- Two replicas, of whatever buffer sizes and consumers, agree on the order: if the entries applied
  -- to one are the first of those applied to the other, what it delivered comes first in what the
  -- other delivered.
  pub replicas_agree :
      (m n : ℕ) (es es' : List FsmEvent) (f g : RaftFsm) (more : List LogEntry)
      → fsm_run unmarshal (new_fsm m) es ≡ some f
      → fsm_run unmarshal (new_fsm n) es' ≡ some g
      → applied_entries es' ≡ applied_entries es ++ more
      → g.delivered ≡ f.delivered ++ log_txs unmarshal more
  replicas_agree m n es es' f g more r r' e =
      fsm_run-delivered unmarshal (new_fsm n) g es' r'
      ∙ rw (e, fsm_run-delivered unmarshal (new_fsm m) f es r)
          (log_txs-append unmarshal (applied_entries es) more)

  -- A replica that catches up by a snapshot never delivers what the snapshot stands for: beside one
  -- that applied the first entries and then the same others, it lacks just the transactions of the
  -- first.
  pub snapshot_skips :
      (m n : ℕ) (es es' : List FsmEvent) (f g : RaftFsm) (first : List LogEntry) (s : RaftFsm)
      → fsm_run unmarshal (new_fsm m) es ≡ some f
      → fsm_run unmarshal (new_fsm n) (install_snapshot (snapshot s) ∷ es') ≡ some g
      → applied_entries es ≡ first ++ applied_entries es'
      → f.delivered ≡ log_txs unmarshal first ++ g.delivered
  snapshot_skips m n es es' f g first s r r' e =
      fsm_run-delivered unmarshal (new_fsm m) f es r
      ∙ rw (e, fsm_run-delivered unmarshal (new_fsm n) g (install_snapshot (snapshot s) ∷ es') r')
          (log_txs-append unmarshal first (applied_entries es'))
