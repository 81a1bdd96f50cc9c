-- ===== src/Commands/LiveDemo/Ending.antt =====
-- When the live demo ends.
use secureorder.Prelude.{
  ◌+◌, ◌≤◌, List, [], ◌∷◌, some, ◌≡◌, refl, arith, length, length-append, of_some, of_none,
  Option-cases, inl, inr,
}
use secureorder.Error.{Bytes}
use secureorder.Privacy.Sodium.{Sodium}
use secureorder.Privacy.Memory.{CMemory}
use secureorder.Sequencing.Queue.Counting.{history-calls}
use secureorder.Commands.LiveDemo.{
  stopped, LiveEvent, seals, calls, records, admits, ticks, receives, is_handed, ends_tick, Live,
  new_live, live_step, run_live,
}
use secureorder.Commands.LiveDemo.Account.{
  IsLive, new_live-IsLive, seal_trade-IsLive, call_submit-IsLive, record_submission-IsLive,
}
use secureorder.Commands.LiveDemo.Draining.{
  admit-IsLive, start_tick-IsLive, receive-IsLive, receive_directly-IsLive, end_tick-IsLive,
}

none_left {ℓ} : {A : Type ℓ} (xs : List A) → length xs ≤ 0 → xs ≡ []
none_left [] h = refl
none_left (x ∷ xs) h = absurd (omega arith)

module _ (sodium : Sodium) where
  open sodium use {Rng}

  live_step-IsLive :
      (pk sk : Bytes) (e : LiveEvent) (s s' : Live sodium)
      → IsLive sodium s
      → live_step sodium pk sk e s ≡ some s'
      → IsLive sodium s'
  unfolding live_step
  live_step-IsLive pk sk (seals d nanos) s s' h st =
      seal_trade-IsLive sodium pk d nanos s.submitter s s' refl h st
  live_step-IsLive pk sk (calls e) s s' h st =
      call_submit-IsLive sodium e s.submitter s s' refl h st
  live_step-IsLive pk sk records s s' h st =
      record_submission-IsLive sodium s.submitter s s' refl h st
  live_step-IsLive pk sk (admits e) s s' h st = admit-IsLive sodium e s s' h st
  live_step-IsLive pk sk ticks s s' h st = start_tick-IsLive sodium s.display s s' refl h st
  live_step-IsLive pk sk receives s s' h st = receive-IsLive sodium s.display s s' refl h st
  live_step-IsLive pk sk is_handed s s' h st =
      receive_directly-IsLive sodium s.display s s' refl h st
  live_step-IsLive pk sk ends_tick s s' h st = end_tick-IsLive sodium pk sk s.display s s' refl h st

  run_live-IsLive :
      (pk sk : Bytes) (es : List LiveEvent) (s s' : Live sodium)
      → IsLive sodium s
      → run_live sodium pk sk es s ≡ some s'
      → IsLive sodium s'
  unfolding run_live
  run_live-IsLive pk sk [] s s' h run = of_some (IsLive sodium) run h
  run_live-IsLive pk sk (e ∷ es) s s' h run = elim (Option-cases (live_step sodium pk sk e s)) [
    | inl stuck ↦ of_none (IsLive sodium) (rw (stuck, run_live) at run)
    | inr (p, st) ↦
        run_live-IsLive pk sk es p s' (live_step-IsLive pk sk e s p h st) (rw (st, run_live) at run)
  ]

  -- Over every schedule, the live demo stops only when all fifty submissions are through: then exactly
  -- fifty transactions are processed, nothing is left in the queue's channel, and no iteration had
  -- a seal error. So after a single seal error main's loop never ends.
  pub run_live-stopped :
      (pk sk : Bytes) (es : List LiveEvent) (g : Rng) (m : CMemory) (s : Live sodium)
      → run_live sodium pk sk es (new_live sodium g m) ≡ some s
      → s.display ≡ stopped
      → (s.processed ≡ 50) × (s.seal_errors ≡ []) × (s.queue.ch ≡ [])
  run_live-stopped pk sk es g m s run at =
      let h = run_live-IsLive pk sk es (new_live sodium g m) s (new_live-IsLive sodium g m) run in
      let most = history-calls s.queue h.accounted in
      let split = length-append s.queue.taken s.queue.ch in
      let over : 50 ≤ s.processed = rw at at h.over in
      let drained : s.processed + 0 ≡ length s.queue.taken = rw at at h.drained in
      (
        omega (arith, most, split, over, drained, h.counted),
        none_left s.seal_errors (omega (arith, most, split, over, drained, h.counted)),
        none_left s.queue.ch (omega (arith, most, split, over, drained, h.counted)),
      )
