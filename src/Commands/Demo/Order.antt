-- ===== src/Commands/Demo/Order.antt =====
-- The order check of the demo, and what main has gone through when it reports.
use secureorder.Prelude.{
  ℕ, ◌+◌, ◌^◌, ◌<◌, List, [], ◌∷◌, ◌++◌, Bool, true, false, Option, none, some, ◌≡◌, refl, ◌∙◌,
  arith, leb, ◌&&◌, length, All, Option-cases, Result-cases, Bool-cases, inl, inr,
}
use secureorder.Prelude.{ok}
use secureorder.Prelude.Int.{pos}
use secureorder.Error.{Bytes}
use secureorder.Privacy.Sodium.{Sodium}
use secureorder.Privacy.Memory.{CMemory}
use secureorder.Privacy.Keys.{init, new_sequencer_keys}
use secureorder.Sequencing.Transaction.{EncryptedTransaction, Between}
use secureorder.Sequencing.Queue.{
  TxQueue, admission, check_expired, send_expired, hand_over, new_tx_queue,
}
use secureorder.Sequencing.Queue.Runs.{run-Between}
use secureorder.Sequencing.Queue.Drain.{
  Drained, Wake, other, receive_ch, receive_handed, cancel, drain_wait, queue_len,
}
use secureorder.Sequencing.Queue.Waits.{IsSoleConsumer, drain_wait-batch}
use secureorder.Sequencing.Queue.WaitSteps.{
  BringsWake, IsReached, IsReached-append, drain_wait-IsReached,
}
use secureorder.Commands.Demo.Runs.{IsSealed, HasTime, run_demo-IsRun, start-IsMadeClient}
use secureorder.Commands.Demo.{
  DemoEvent, Demo, start, run_demo, reported, DemoReport, wakes_alone, all_alone, all_finished,
  num_clients, fifo_after, fifo_check, rows_of, report_of, drain_and_report, demo_main,
}

wakes_alone-quiet {κ} :
    (P : Bytes → Type κ) (w : Wake) (ws : List Wake)
    → wakes_alone w ≡ true
    → IsSoleConsumer ws × All (BringsWake P) ws
    → IsSoleConsumer (w ∷ ws) × All (BringsWake P) (w ∷ ws)
unfolding demo_main
wakes_alone-quiet P receive_ch ws h r = (r.0, (tt, r.1))
wakes_alone-quiet P receive_handed ws h r = (r.0, (tt, r.1))
wakes_alone-quiet P (cancel e) ws h r = (r.0, (tt, r.1))
wakes_alone-quiet P (other (admission (check_expired e))) ws h r = cc
wakes_alone-quiet P (other (admission (send_expired e))) ws h r = cc
wakes_alone-quiet P (other (admission hand_over)) ws h r = cc
wakes_alone-quiet P (other (admission e)) ws h r = ((tt, r.0), (tt, r.1))
wakes_alone-quiet P (other _) ws h r = cc

-- While only the admission goroutine is there, nothing is submitted and nobody else receives.
all_alone-quiet {κ} :
    (P : Bytes → Type κ) (ws : List Wake)
    → all_alone ws ≡ true
    → IsSoleConsumer ws × All (BringsWake P) ws
unfolding demo_main
all_alone-quiet P [] h = (tt, tt)
all_alone-quiet P (w ∷ ws) h = elim (Bool-cases (wakes_alone w)) [
  | inl calm ↦ wakes_alone-quiet P w ws calm (all_alone-quiet P ws (rw calm at h))
  | inr busy ↦ cc (rw busy at h)
]

and_right : (a b : Bool) → a && b ≡ true → b ≡ true
and_right true b h = h
and_right false b h = cc

-- A strictly growing part of the log passes the check.
fifo_after-Between :
    (a : EncryptedTransaction) (hi : ℕ) (batch rest : List EncryptedTransaction)
    → Between a.seq hi (batch ++ rest)
    → fifo_after a batch ≡ true
unfolding demo_main
fifo_after-Between a hi [] rest h = refl
fifo_after-Between a hi (b ∷ batch) rest h =
    let grows : leb b.seq a.seq ≡ false = ground (arith, h.0) in
    rw grows (fifo_after-Between b hi batch rest h.1)

pub fifo_check-Between :
    (lo hi : ℕ) (batch rest : List EncryptedTransaction)
    → Between lo hi (batch ++ rest)
    → fifo_check batch ≡ true
unfolding demo_main
fifo_check-Between lo hi [] rest h = refl
fifo_check-Between lo hi (a ∷ batch) rest h = fifo_after-Between a hi batch rest h.1

module _ (sodium : Sodium) where
  open sodium use {Rng}

  -- What stands behind a report.
  pub record IsReported (es : List DemoEvent) (ws : List Wake) (m : CMemory) (r : DemoReport)
      : Type 0 where
    pub pk : Bytes
    pub sk : Bytes
    pub keys_before : Rng
    pub rng : Rng
    pub demo : Demo sodium
    pub drained : Drained
    pub queue : TxQueue
    pub keys : (new_sequencer_keys sodium keys_before).0 ≡ ok (pk, sk)
    pub ran : run_demo sodium pk es (start sodium rng) ≡ some demo
    pub alone : all_alone ws ≡ true
    pub waited : drain_wait (pos 10) ws demo.queue ≡ some (some (drained, queue))
    pub row_list : r.rows ≡ (rows_of sodium pk sk drained.batch m).0
    pub checked : r.fifo ≡ fifo_check drained.batch

  of_report_of :
      (pk sk : Bytes) (n : ℕ) (got : Option (Option (Drained × TxQueue))) (m : CMemory)
      (r : DemoReport)
      → report_of sodium pk sk n got m ≡ some (reported r)
      → (d : Drained) × (q : TxQueue) × (got ≡ some (some (d, q)))
        × (r.rows ≡ (rows_of sodium pk sk d.batch m).0)
        × (r.fifo ≡ fifo_check d.batch)
  unfolding demo_main
  of_report_of pk sk n none m r h = cc
  of_report_of pk sk n (some none) m r h = cc
  of_report_of pk sk n (some (some (d, q))) m r h = (d, q, refl, cc, cc)

  of_drain_and_report :
      (pk sk : Bytes) (es : List DemoEvent) (ws : List Wake) (m : CMemory) (r : DemoReport)
      (g g' : Rng)
      → (new_sequencer_keys sodium g).0 ≡ ok (pk, sk)
      → drain_and_report sodium pk sk ws m (run_demo sodium pk es (start sodium g'))
        ≡ some (reported r)
      → IsReported es ws m r
  unfolding demo_main num_clients
  of_drain_and_report pk sk es ws m r g g' keys h =
      elim (Option-cases (run_demo sodium pk es (start sodium g'))) [
        | inl stuck ↦ cc (rw (stuck, drain_and_report) at h)
        | inr (s, ran) ↦ elim (Bool-cases (all_finished s.clients && all_alone ws)) [
          | inr early ↦ cc (rw (ran, drain_and_report, early) at h)
          | inl over ↦
              let (d, q, waited, row_list, checked) =
                of_report_of pk sk (queue_len s.queue) (drain_wait (pos 10) ws s.queue) m r
                  (rw (ran, drain_and_report, over) at h) in
              record {
                pk = pk;
                sk = sk;
                keys_before = g;
                rng = g';
                demo = s;
                drained = d;
                queue = q;
                keys = keys;
                ran = ran;
                alone = and_right (all_finished s.clients) (all_alone ws) over;
                waited = waited;
                row_list = row_list;
                checked = checked;
              }
        ]
      ]

  pub of_demo_main :
      (es : List DemoEvent) (ws : List Wake) (g : Rng) (m : CMemory) (r : DemoReport)
      → demo_main sodium es ws g m ≡ some (reported r)
      → IsReported es ws m r
  unfolding demo_main
  of_demo_main es ws g m r h =
      let g1 = (init sodium g).1 in
      elim (Option-cases (init sodium g).0) [
        | inr (e, failed) ↦ cc (rw (failed, demo_main) at h)
        | inl ready ↦ elim (Result-cases (new_sequencer_keys sodium g1).0) [
          | inr (e, failed) ↦ cc (rw (ready, failed, demo_main) at h)
          | inl (keys, made) ↦
              of_drain_and_report keys.0 keys.1 es ws m r g1 _ made
                (rw (ready, made, demo_main) at h)
        ]
      ]

  -- The queue that main leaves behind: the batch is all that was taken from it.
  pub record IsDrained (es : List DemoEvent) (ws : List Wake) (pk : Bytes)
      (batch : List EncryptedTransaction) : Type 0 where
    pub final : TxQueue
    pub reached : IsReached (IsSealed sodium pk) (length es + length ws) (new_tx_queue 64) final
    pub whole : final.taken ≡ batch

  pub IsReported-IsDrained :
      (es : List DemoEvent) (ws : List Wake) (m : CMemory) (r : DemoReport)
      (i : IsReported es ws m r)
      → All HasTime es
      → IsDrained es ws i.pk i.drained.batch
  unfolding start new_tx_queue
  IsReported-IsDrained es ws m r i times =
      let before =
        run_demo-IsRun sodium i.pk es (start sodium i.rng) i.demo times
          (start-IsMadeClient sodium i.pk i.rng) i.ran in
      let (sole, quiet) = all_alone-quiet (IsSealed sodium i.pk) ws i.alone in
      let got = drain_wait-batch 10 ws i.demo.queue i.queue i.drained sole i.waited in
      record {
        final = i.queue;
        reached =
            IsReached-append (IsSealed sodium i.pk) (length es) (length ws) (length es + length ws)
              (new_tx_queue 64) i.demo.queue i.queue (omega arith) before.reached
              (drain_wait-IsReached (IsSealed sodium i.pk) 10 ws i.demo.queue i.queue i.drained
                quiet i.waited);
        whole = rw before.untaken at got.0;
      }

  -- The check passes, over every schedule of fewer than 2^64 steps.
  pub demo_main-fifo :
      (es : List DemoEvent) (ws : List Wake) (g : Rng) (m : CMemory) (r : DemoReport)
      → length es + length ws < 2 ^ 64
      → All HasTime es
      → demo_main sodium es ws g m ≡ some (reported r)
      → r.fifo ≡ true
  demo_main-fifo es ws g m r fits times h =
      let i = of_demo_main es ws g m r h in
      let d = IsReported-IsDrained es ws m r i times in
      let grows =
        run-Between 64 d.reached.events d.final (omega (arith, fits, d.reached.short))
          d.reached.possible in
      i.checked
      ∙ fifo_check-Between 0 d.final.next_id i.drained.batch d.final.ch (rw d.whole at grows)
