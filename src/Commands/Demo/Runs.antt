-- ===== src/Commands/Demo/Runs.antt =====
-- The queue of the demo, over every schedule of its goroutines.
use secureorder.Prelude.{
  ℕ, ◌≤◌, List, [], ◌∷◌, Option, none, some, ◌≡◌, refl, ◌∙◌, arith, length, get_elem?, All,
  All-get_elem?, All-set, of_some, of_none, Option-cases, inl, inr,
}
use secureorder.Prelude.{Result, ok, err}
use secureorder.Prelude.Int.{ℤ, IsInt64}
use secureorder.Error.{Bytes, GoError}
use secureorder.Privacy.Sodium.{Sodium}
use secureorder.Privacy.Decrypt.{seal}
use secureorder.Sequencing.Queue.{admission, run}
use secureorder.Sequencing.Queue.Calls.{CallEvent}
use secureorder.Sequencing.Queue.Waits.{step-taken}
use secureorder.Sequencing.Queue.WaitSteps.{
  IsReached, IsReached-refl, IsReached-cons, IsReached-append,
}
use secureorder.Sequencing.Queue.Submitters.{IsMadeCall, call_step-IsCallMove}
use secureorder.Commands.Background.{admits_alone, calls_alone, of_admits_alone, of_calls_alone}
use secureorder.Commands.Demo.{
  payload, Client, starting, calling, gave_up, client_ids, DemoEvent, seals, calls, admits, Demo,
  start, seals_with, sealed, moved, calls_with, admitted, demo_step, run_demo,
}

-- Time is an int64.
abbrev pub HasTime : DemoEvent → Type 0
HasTime (seals i now) = IsInt64 now
HasTime (calls i e) = Unit
HasTime (admits e) = Unit

module _ (sodium : Sodium) (pk : Bytes) where
  open sodium use {Rng}

  -- SealTransaction has made this ciphertext from the payload of one of the ten clients.
  pub record IsSealed (ct : Bytes) : Type 0 where
    pub id : ℕ
    pub first : 1 ≤ id
    pub last : id ≤ 10
    pub now : ℤ
    pub at_time : IsInt64 now
    pub rng : Rng
    pub made : (seal sodium (payload id now) pk rng).0 ≡ ok ct

  abbrev pub IsMadeClient : Client → Type 0
  IsMadeClient (starting id) = (1 ≤ id) × (id ≤ 10)
  IsMadeClient (calling c) = IsMadeCall IsSealed c
  IsMadeClient (gave_up e) = Unit

  pub record IsRun (n : ℕ) (s s' : Demo sodium) : Type 0 where
    pub reached : IsReached IsSealed n s.queue s'.queue
    pub untaken : s'.queue.taken ≡ s.queue.taken
    pub made : All IsMadeClient s'.clients

  sealed-IsMadeClient :
      (id : ℕ) (now : ℤ) (g : Rng) (r : Result GoError Bytes)
      → 1 ≤ id
      → id ≤ 10
      → IsInt64 now
      → (seal sodium (payload id now) pk g).0 ≡ r
      → IsMadeClient (sealed sodium r)
  unfolding demo_step
  sealed-IsMadeClient id now g (ok ct) lo hi t e = record {
    id = id;
    first = lo;
    last = hi;
    now = now;
    at_time = t;
    rng = g;
    made = e;
  }
  sealed-IsMadeClient id now g (err x) lo hi t e = tt

  seals_with-IsRun :
      (i : ℕ) (now : ℤ) (c : Option Client) (s s' : Demo sodium)
      → IsInt64 now
      → All IsMadeClient s.clients
      → get_elem? s.clients i ≡ c
      → seals_with sodium pk i now c s ≡ some s'
      → IsRun 1 s s'
  unfolding demo_step
  seals_with-IsRun i now (some (starting id)) s s' t h g st = of_some (IsRun 1 s) st (record {
    reached = IsReached-refl IsSealed 1 s.queue;
    untaken = refl;
    made =
        let (lo, hi) = All-get_elem? IsMadeClient s.clients i (starting id) h g in
        All-set IsMadeClient s.clients i _ h (sealed-IsMadeClient id now s.rng _ lo hi t refl);
  })
  seals_with-IsRun i now (some (calling c)) s s' t h g st = of_none (IsRun 1 s) st
  seals_with-IsRun i now (some (gave_up e)) s s' t h g st = of_none (IsRun 1 s) st
  seals_with-IsRun i now none s s' t h g st = of_none (IsRun 1 s) st

  calls_with-IsRun :
      (i : ℕ) (e : CallEvent) (c : Option Client) (s s' : Demo sodium)
      → All IsMadeClient s.clients
      → get_elem? s.clients i ≡ c
      → calls_with sodium i e c s ≡ some s'
      → IsRun 1 s s'
  unfolding demo_step
  calls_with-IsRun i e (some (calling c)) s s' h g st =
      elim (Option-cases (calls_alone c e s.queue)) [
        | inl stuck ↦ of_none (IsRun 1 s) (rw (stuck, moved) at st)
        | inr ((c', q), goes) ↦
            let m =
              call_step-IsCallMove IsSealed c e s.queue (c', q)
                (All-get_elem? IsMadeClient s.clients i (calling c) h g)
                (of_calls_alone c e s.queue (c', q) goes) in
            of_some (IsRun 1 s) (rw (goes, moved) at st) (record {
              reached = m.reached;
              untaken = m.untaken;
              made = All-set IsMadeClient s.clients i (calling c') h m.made;
            })
      ]
  calls_with-IsRun i e (some (starting id)) s s' h g st = of_none (IsRun 1 s) st
  calls_with-IsRun i e (some (gave_up x)) s s' h g st = of_none (IsRun 1 s) st
  calls_with-IsRun i e none s s' h g st = of_none (IsRun 1 s) st

  demo_step-IsRun :
      (e : DemoEvent) (s s' : Demo sodium)
      → HasTime e
      → All IsMadeClient s.clients
      → demo_step sodium pk e s ≡ some s'
      → IsRun 1 s s'
  unfolding demo_step
  demo_step-IsRun (seals i now) s s' t h st = seals_with-IsRun i now _ s s' t h refl st
  demo_step-IsRun (calls i e) s s' t h st = calls_with-IsRun i e _ s s' h refl st
  demo_step-IsRun (admits e) s s' t h st = elim (Option-cases (admits_alone e s.queue)) [
    | inl stuck ↦ of_none (IsRun 1 s) (rw (stuck, admitted) at st)
    | inr (q, goes) ↦
        let (moves, others) = of_admits_alone e s.queue q goes in
        of_some (IsRun 1 s) (rw (goes, admitted) at st) (record {
          reached =
              IsReached-cons IsSealed 0 s.queue q q (admission e) tt moves
                (IsReached-refl IsSealed 0 q);
          untaken = step-taken s.queue q (admission e) others moves;
          made = h;
        })
  ]

  pub run_demo-IsRun :
      (es : List DemoEvent) (s s' : Demo sodium)
      → All HasTime es
      → All IsMadeClient s.clients
      → run_demo sodium pk es s ≡ some s'
      → IsRun (length es) s s'
  unfolding run_demo
  run_demo-IsRun [] s s' t h run =
      of_some (IsRun 0 s) run
        (record { reached = IsReached-refl IsSealed 0 s.queue; untaken = refl; made = h })
  run_demo-IsRun (e ∷ es) s s' t h run = elim (Option-cases (demo_step sodium pk e s)) [
    | inl stuck ↦ of_none (IsRun (length (e ∷ es)) s) (rw (stuck, run_demo) at run)
    | inr (p, st) ↦
        let first = demo_step-IsRun e s p t.0 h st in
        let rest = run_demo-IsRun es p s' t.1 first.made (rw (st, run_demo) at run) in
        record {
          reached =
              IsReached-append IsSealed 1 (length es) (length (e ∷ es)) s.queue p.queue s'.queue
                (omega arith) first.reached rest.reached;
          untaken = rest.untaken ∙ first.untaken;
          made = rest.made;
        }
  ]

  pub start-IsMadeClient : (g : Rng) → All IsMadeClient (start sodium g).clients
  unfolding start client_ids
  start-IsMadeClient g = grind arith
