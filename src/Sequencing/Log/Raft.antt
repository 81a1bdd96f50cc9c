-- ===== src/Sequencing/Log/Raft.antt =====
-- RaftOrderedLog keeps the promises of OrderedLog.
use mathlib.Core.Option.{some-injective}
use secureorder.Prelude.{
  suc, List, true, Option, none, some, ◌≡◌, refl, ap, of_some, Option-cases, inl, inr,
}
use secureorder.Prelude.{Result}
use secureorder.Prelude.Int.{pos}
use secureorder.Error.{Bytes, GoError}
use secureorder.Sequencing.Transaction.{EncryptedTransaction}
use secureorder.Sequencing.Log.{OrderedLog, IsOrderedLog}
use secureorder.Sequencing.Raft.{RaftProposal, LogEntry, RaftFsm, SelectCase, apply}
use secureorder.Sequencing.Raft.Waits.{
  Wake, Drained, drain_wait, Appends, nothing_appended, apply-Appends, raft_drain_wait-batch,
}

-- What happens on a node between two calls of DrainWait.
pub data RaftAction : Type 0 where
  entry_applied : LogEntry → SelectCase → RaftAction
  log_closed : RaftAction

module _ (unmarshal : Bytes → Result GoError RaftProposal) where
  -- What Close does to the log that its consumers see: `closeOnce` closes `done`.
  close_done : RaftFsm → RaftFsm
  close_done f = record f { done = true }

  raft_act : RaftAction → RaftFsm → Option RaftFsm
  unfolding close_done
  raft_act (entry_applied entry c) f = elim (apply unmarshal entry c f) [
    | none ↦ none
    | some (r, f') ↦ some f'
  ]
  raft_act log_closed f = some (close_done f)

  waited :
      Option (Drained × RaftFsm) → Option ((List EncryptedTransaction × Option GoError) × RaftFsm)
  waited none = none
  waited (some (d, f)) = some ((d.batch, d.error), f)

  unfoldable pub raft_log : OrderedLog
  unfolding raft_act waited
  raft_log = record {
    Log = RaftFsm;
    Action = RaftAction;
    Schedule = List Wake;
    stream = λ f. f.delivered;
    ahead = λ f. f.committed;
    act = raft_act;
    drain_wait = λ n ws f. waited (drain_wait unmarshal n ws f);
    close = close_done;
  }

  of_waited :
      (r : Option (Drained × RaftFsm)) (batch : List EncryptedTransaction) (e : Option GoError)
      (f : RaftFsm)
      → waited r ≡ some ((batch, e), f)
      → r ≡ some (record { batch = batch; error = e }, f)
  unfolding raft_log
  of_waited none batch e f h = cc
  of_waited (some (d, g)) batch e f h =
      ap
        (λ (r : (List EncryptedTransaction × Option GoError) × RaftFsm).
          some (record { batch = r.0.0; error = r.0.1 }, r.1))
        (some-injective _ _ h)

  raft_act-Appends : (a : RaftAction) (f f' : RaftFsm) → raft_act a f ≡ some f' → Appends f f'
  unfolding raft_log
  raft_act-Appends (entry_applied entry c) f f' h =
      elim (Option-cases (apply unmarshal entry c f)) [
        | inl stuck ↦ cc (rw (stuck, raft_act) at h)
        | inr ((r, g), s) ↦
            of_some (Appends f) (rw (s, raft_act) at h)
              (apply-Appends unmarshal entry c f g (unmarshal entry.content) r (unfold apply in s))
      ]
  raft_act-Appends log_closed f f' h = of_some (Appends f) h (nothing_appended f)

  -- A replica of RaftOrderedLog fills OrderedLog for its part of the log: an applied entry appends to
  -- what was delivered and to the channel alike; a DrainWait of a positive size that returns took
  -- its batch from the front of the channel, in order, and gives a whole batch without an error or
  -- a shorter one with an error; Close loses nothing, and a second Close changes nothing.
  pub raft_log-IsOrderedLog : IsOrderedLog raft_log
  unfolding raft_log
  raft_log-IsOrderedLog = record {
    act_appends = λ a f f' h.
        let (fresh, on_channel, sent_on) = raft_act-Appends a f f' h in
        (fresh, sent_on, on_channel);
    drains_in_order = λ n ws f f' batch e h.
        let r = of_waited (drain_wait unmarshal (pos (suc n)) ws f) batch e f' h in
        let (sized, fresh, sent_on, flow) =
          raft_drain_wait-batch unmarshal n ws f f' (record { batch = batch; error = e }) r in
        (fresh, sent_on, flow);
    drains_whole = λ n ws f f' batch e h.
        let r = of_waited (drain_wait unmarshal (pos (suc n)) ws f) batch e f' h in
        let (sized, fresh, sent_on, flow) =
          raft_drain_wait-batch unmarshal n ws f f' (record { batch = batch; error = e }) r in
        sized;
    closes_once = λ f. refl;
    close_keeps = λ f. (refl, refl);
  }
