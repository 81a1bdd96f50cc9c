-- ===== src/Sequencing/Raft/Waits.antt =====
-- DrainWait of the Raft log, over every schedule of Apply on its node.
use secureorder.Prelude.{
  ℕ, zero, suc, ◌<◌, List, [], ◌∷◌, ◌++◌, true, Option, none, some, ◌≡◌, ◌⊎◌, inl, inr, refl, sym,
  ap, ◌∙◌, arith, length, if◌then◌else◌, append_assoc, append-nil, append_snoc, of_some, of_guard,
  of_none, Option-cases, List-cases,
}
use secureorder.Prelude.{Result, ok, err}
use secureorder.Prelude.Int.{ℤ, pos, is_nonpos, to_nat}
use secureorder.Error.{Bytes, GoError, queue_closed}
use secureorder.Sequencing.Transaction.{EncryptedTransaction}
use secureorder.Sequencing.Raft.{
  RaftProposal, LogEntry, RaftFsm, SelectCase, sent, discarded, entry_tx, deliver, applied, apply,
}

-- While DrainWait waits, Apply handles an entry or Close closes `done`; then its `select` receives a
-- transaction, or finds `done` closed, or its context done.
pub data Wake : Type 0 where
  applied_entry : LogEntry → SelectCase → Wake
  closed : Wake
  receive : Wake
  saw_done : Wake
  cancel : GoError → Wake

pub record Drained : Type 0 where
  pub batch : List EncryptedTransaction
  pub error : Option GoError

module _ (unmarshal : Bytes → Result GoError RaftProposal) where
  -- `none`: still blocked when the schedule ends, or an event of it is not possible.
  drain_loop : ℕ → List Wake → RaftFsm → List EncryptedTransaction → Option (Drained × RaftFsm)
  drain_loop zero ws f batch = some (record { batch = batch; error = none }, f)
  drain_loop (suc n) [] f batch = none
  drain_loop (suc n) (applied_entry l c ∷ ws) f batch = elim (apply unmarshal l c f) [
    | none ↦ none
    | some (r, f') ↦ drain_loop (suc n) ws f' batch
  ]
  drain_loop (suc n) (closed ∷ ws) f batch = drain_loop (suc n) ws (record f { done = true }) batch
  drain_loop (suc n) (receive ∷ ws) f batch = elim f.committed [
    | [] ↦ none
    | tx ∷ rest ↦ drain_loop n ws (record f { committed = rest }) (batch ++ tx ∷ [])
  ]
  drain_loop (suc n) (saw_done ∷ ws) f batch =
      if f.done then some (record { batch = batch; error = some queue_closed }, f) else none
  drain_loop (suc n) (cancel e ∷ ws) f batch = some (record { batch = batch; error = some e }, f)

  unfoldable pub drain_wait : ℤ → List Wake → RaftFsm → Option (Drained × RaftFsm)
  unfolding drain_loop
  drain_wait batch_size ws f =
      if is_nonpos batch_size
      then some (record { batch = []; error = none }, f)
      else drain_loop (to_nat batch_size) ws f []

-- What is sent on the channel during a wait goes to the end of it; the batch comes from its front.
record IsReturn (n : ℕ) (batch : List EncryptedTransaction) (f : RaftFsm) (r : Drained × RaftFsm)
    : Type 0 where
  got : List EncryptedTransaction
  fresh : List EncryptedTransaction
  collected : r.0.batch ≡ batch ++ got
  sent_on : r.1.delivered ≡ f.delivered ++ fresh
  in_order : f.committed ++ fresh ≡ got ++ r.1.committed
  sized :
      ((r.0.error ≡ none) × (length got ≡ n))
      ⊎ ((e : GoError) × (r.0.error ≡ some e) × (length got < n))

abbrev pub Appends : RaftFsm → RaftFsm → Type 0
Appends f f' =
    (fresh : List EncryptedTransaction) × (f'.committed ≡ f.committed ++ fresh)
    × (f'.delivered ≡ f.delivered ++ fresh)

pub nothing_appended : (f : RaftFsm) → Appends f f
nothing_appended f = ([], sym (append-nil f.committed), sym (append-nil f.delivered))

deliver-Appends :
    (c : SelectCase) (tx : EncryptedTransaction) (f f' : RaftFsm)
    → deliver c tx f ≡ some f'
    → Appends f f'
unfolding apply
deliver-Appends sent tx f f' h = of_guard (Appends f) h λ d. (tx ∷ [], refl, refl)
deliver-Appends discarded tx f f' h = of_guard (Appends f) h λ d. nothing_appended f

-- Apply adds the same transactions to the channel and to the record of what was sent, or none.
pub apply-Appends :
    (unmarshal : Bytes → Result GoError RaftProposal) (l : LogEntry) (c : SelectCase)
    (f f' : RaftFsm) (q : Result GoError RaftProposal) (r : Result GoError EncryptedTransaction)
    → applied unmarshal l c f q ≡ some (r, f')
    → Appends f f'
unfolding apply
apply-Appends unmarshal l c f f' (err e) r h = of_some (λ p. Appends f p.1) h (nothing_appended f)
apply-Appends unmarshal l c f f' (ok p) r h = elim (Option-cases (deliver c (entry_tx l p) f)) [
  | inl stuck ↦ cc (rw (stuck, applied) at h)
  | inr (g, s) ↦
      of_some (λ p. Appends f p.1) (rw (s, applied) at h) (deliver-Appends c (entry_tx l p) f g s)
]

module _ (n : ℕ) (batch : List EncryptedTransaction) (f g : RaftFsm) (r : Drained × RaftFsm) where
  after_append : Appends f g → IsReturn n batch g r → IsReturn n batch f r
  after_append (fresh, ec, ed) h = record {
    got = h.got;
    fresh = fresh ++ h.fresh;
    collected = h.collected;
    sent_on = h.sent_on ∙ rw (ed, append_assoc);
    in_order = rw (← append_assoc, ← ec) h.in_order;
    sized = h.sized;
  }

  after_receive :
      (tx : EncryptedTransaction)
      → f.committed ≡ tx ∷ g.committed
      → g.delivered ≡ f.delivered
      → IsReturn n (batch ++ tx ∷ []) g r
      → IsReturn (suc n) batch f r
  after_receive tx ec ed h = record {
    got = tx ∷ h.got;
    fresh = h.fresh;
    collected = h.collected ∙ append_snoc batch tx h.got;
    sent_on = h.sent_on ∙ ap (λ d. d ++ h.fresh) ed;
    in_order = rw ec (ap (λ l. tx ∷ l) h.in_order);
    sized = elim h.sized [
      | inl (ok', l) ↦ inl (ok', ap suc l)
      | inr (er, eq, l) ↦ inr (er, eq, omega arith)
    ];
  }

stopped :
    (n : ℕ) (batch : List EncryptedTransaction) (f : RaftFsm) (e : GoError)
    → IsReturn (suc n) batch f (record { batch = batch; error = some e }, f)
stopped n batch f e = record {
  got = [];
  fresh = [];
  collected = sym (append-nil batch);
  sent_on = sym (append-nil f.delivered);
  in_order = append-nil f.committed;
  sized = inr (e, refl, omega arith);
}

drain_loop-IsReturn :
    (unmarshal : Bytes → Result GoError RaftProposal) (n : ℕ) (ws : List Wake) (f : RaftFsm)
    (batch : List EncryptedTransaction) (r : Drained × RaftFsm)
    → drain_loop unmarshal n ws f batch ≡ some r
    → IsReturn n batch f r
unfolding drain_wait
drain_loop-IsReturn u zero ws f batch r h = of_some (IsReturn zero batch f) h (record {
  got = [];
  fresh = [];
  collected = sym (append-nil batch);
  sent_on = sym (append-nil f.delivered);
  in_order = append-nil f.committed;
  sized = inl (refl, refl);
})
drain_loop-IsReturn u (suc n) [] f batch r h = of_none (IsReturn (suc n) batch f) h
drain_loop-IsReturn u (suc n) (applied_entry l c ∷ ws) f batch r h =
    elim (Option-cases (apply u l c f)) [
      | inl stuck ↦ cc (rw (stuck, drain_loop) at h)
      | inr ((a, g), s) ↦
          after_append (suc n) batch f g r
            (apply-Appends u l c f g (u l.content) a (unfold apply in s))
            (drain_loop-IsReturn u (suc n) ws g batch r (rw (s, drain_loop) at h))
    ]
drain_loop-IsReturn u (suc n) (closed ∷ ws) f batch r h =
    after_append (suc n) batch f (record f { done = true }) r (nothing_appended f)
      (drain_loop-IsReturn u (suc n) ws (record f { done = true }) batch r h)
drain_loop-IsReturn u (suc n) (receive ∷ ws) f batch r h = elim (List-cases f.committed) [
  | inl nil ↦ cc (rw (nil, drain_loop) at h)
  | inr (tx, rest, e) ↦
      let g : RaftFsm = record f { committed = rest } in
      after_receive n batch f g r tx e refl
        (drain_loop-IsReturn u n ws g (batch ++ tx ∷ []) r (rw (e, drain_loop) at h))
]
drain_loop-IsReturn u (suc n) (saw_done ∷ ws) f batch r h =
    of_guard (IsReturn (suc n) batch f) h λ d. stopped n batch f queue_closed
drain_loop-IsReturn u (suc n) (cancel e ∷ ws) f batch r h =
    of_some (IsReturn (suc n) batch f) h (stopped n batch f e)

-- However Apply, Close and the wait interleave, a DrainWait of a positive `n` that returns has taken
-- its batch from the front of the channel, in order, and what Apply sent meanwhile stands at the
-- end; it returns no error with exactly `n` transactions, and an error with fewer.
pub raft_drain_wait-batch :
    (unmarshal : Bytes → Result GoError RaftProposal) (n : ℕ) (ws : List Wake) (f f' : RaftFsm)
    (d : Drained)
    → drain_wait unmarshal (pos (suc n)) ws f ≡ some (d, f')
    → (((d.error ≡ none) × (length d.batch ≡ suc n))
        ⊎ ((e : GoError) × (d.error ≡ some e) × (length d.batch < suc n)))
      × (fresh : List EncryptedTransaction) × (f'.delivered ≡ f.delivered ++ fresh)
      × (f.committed ++ fresh ≡ d.batch ++ f'.committed)
unfolding drain_wait
raft_drain_wait-batch u n ws f f' d h =
    let r = drain_loop-IsReturn u (suc n) ws f [] (d, f') h in
    rw r.collected (r.sized, r.fresh, r.sent_on, r.in_order)
