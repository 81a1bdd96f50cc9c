-- ===== src/Commands/LoadTest/Counts.antt =====
-- The counters of the load test.
use secureorder.Prelude.{
  ℕ, suc, ◌+◌, ◌-◌, ◌^◌, ◌≤◌, ◌<◌, List, [], ◌∷◌, Bool, true, false, Option, none, some, ◌≡◌, refl,
  arith, get_elem?, set, of_some, of_none, Option-cases, inl, inr,
}
use secureorder.Prelude.{Result, ok, err}
use secureorder.Prelude.Int.{ℤ}
use secureorder.Error.{Bytes, GoError}
use secureorder.Privacy.Sodium.{Sodium}
use secureorder.Privacy.Decrypt.{seal}
use secureorder.Commands.LoadTest.{
  add64, payload, Client, dialing, requesting, waiting, finished, LoadEvent, dials, seals, replies,
  next_request, LoadTest, goes_to, dial, dialed, sealed, seal_request, counted, reply, load_step,
  run_load,
}
use secureorder.Commands.LoadTest.Left.{
  left, all_left, IsGoing, AreGoing, all_left-set, AreGoing-get_elem?, AreGoing-set, add64_small,
  next_request-left, next_request-IsGoing,
}

module _ (sodium : Sodium) (total requests : ℕ) where
  open sodium use {Rng}

  -- Each request is counted as accepted, counted as failed, or left to count.
  pub record IsCounted (s : LoadTest sodium) : Type 0 where
    pub sum : s.success + s.failed + all_left requests s.clients ≡ total
    pub going : AreGoing requests s.clients

  module _ (small : total < 2 ^ 63) (fits : requests < 2 ^ 63) where
    -- A client moves on with `a` more requests accepted and `b` more failed.
    goes_to-IsCounted :
        (i a b : ℕ) (c c' : Client) (s s' : LoadTest sodium)
        → IsCounted s
        → get_elem? s.clients i ≡ some c
        → IsGoing requests c'
        → left requests c' + a + b ≡ left requests c
        → s'.clients ≡ set s.clients i c'
        → s'.success ≡ s.success + a
        → s'.failed ≡ s.failed + b
        → IsCounted s'
    goes_to-IsCounted i a b c c' s s' h g going l clients success failed = record {
      sum =
          rw (clients, success, failed)
            (omega (arith, all_left-set requests i c c' s.clients g, h.sum, l));
      going = rw clients (AreGoing-set requests i c' s.clients h.going going);
    }

    -- A counter has room for what the client has left.
    left-fits :
        (i n x : ℕ) (c : Client) (s : LoadTest sodium)
        → IsCounted s
        → get_elem? s.clients i ≡ some c
        → n ≤ left requests c
        → x ≤ s.success + s.failed
        → add64 x n ≡ x + n
    left-fits i n x c s h g le below =
        add64_small x n (omega (arith, h.sum, all_left-set requests i c finished s.clients g))

    dialed-IsCounted :
        (i : ℕ) (up : Bool) (s : LoadTest sodium)
        → IsCounted s
        → get_elem? s.clients i ≡ some dialing
        → IsCounted (dialed sodium requests i up s)
    unfolding load_step
    dialed-IsCounted i true s h g =
        goes_to-IsCounted i 0 0 dialing (next_request requests 0) s _ h g
          (next_request-IsGoing requests 0 fits) (omega (arith, next_request-left requests 0 fits))
          refl (omega arith) (omega arith)
    dialed-IsCounted i false s h g =
        goes_to-IsCounted i 0 requests dialing finished s _ h g tt (omega arith) refl (omega arith)
          (left-fits i requests s.failed dialing s h g (omega arith) (omega arith))

    dial-IsCounted :
        (i : ℕ) (up : Bool) (c : Option Client) (s s' : LoadTest sodium)
        → IsCounted s
        → get_elem? s.clients i ≡ c
        → dial sodium requests i up c s ≡ some s'
        → IsCounted s'
    unfolding load_step
    dial-IsCounted i up (some dialing) s s' h g st =
        of_some IsCounted st (dialed-IsCounted i up s h g)
    dial-IsCounted i up none s s' h g st = of_none IsCounted st
    dial-IsCounted i up (some (requesting j)) s s' h g st = of_none IsCounted st
    dial-IsCounted i up (some (waiting j ct)) s s' h g st = of_none IsCounted st
    dial-IsCounted i up (some finished) s s' h g st = of_none IsCounted st

    -- A request that is in hand is counted, and the client goes on with the next one.
    next-IsCounted :
        (i j a b : ℕ) (c : Client) (s s' : LoadTest sodium)
        → IsCounted s
        → get_elem? s.clients i ≡ some c
        → left requests c ≡ requests - j
        → j < requests
        → a + b ≡ 1
        → s'.clients ≡ set s.clients i (next_request requests (suc j))
        → s'.success ≡ s.success + a
        → s'.failed ≡ s.failed + b
        → IsCounted s'
    next-IsCounted i j a b c s s' h g l more one clients success failed =
        goes_to-IsCounted i a b c (next_request requests (suc j)) s s' h g
          (next_request-IsGoing requests (suc j) fits)
          (omega (arith, next_request-left requests (suc j) fits)) clients success failed

    requesting-left :
        (i j : ℕ) (s : LoadTest sodium)
        → IsCounted s
        → get_elem? s.clients i ≡ some (requesting j)
        → 1 ≤ requests - j
    requesting-left i j s h g =
        omega (arith, AreGoing-get_elem? requests i (requesting j) s.clients h.going g)

    sealed-IsCounted :
        (i j : ℕ) (r : Result GoError Bytes) (s : LoadTest sodium) (g' : Rng)
        → IsCounted s
        → get_elem? s.clients i ≡ some (requesting j)
        → IsCounted (sealed sodium requests i j r (record s { rng = g' }))
    unfolding load_step
    sealed-IsCounted i j (ok ct) s g' h g =
        goes_to-IsCounted i 0 0 (requesting j) (waiting j ct) s _ h g
          (AreGoing-get_elem? requests i (requesting j) s.clients h.going g) (omega arith) refl
          (omega arith) (omega arith)
    sealed-IsCounted i j (err e) s g' h g =
        next-IsCounted i j 0 1 (requesting j) s _ h g refl
          (AreGoing-get_elem? requests i (requesting j) s.clients h.going g) (omega arith) refl
          (omega arith)
          (left-fits i 1 s.failed (requesting j) s h g (requesting-left i j s h g) (omega arith))

    seal_request-IsCounted :
        (pk : Bytes) (i : ℕ) (nanos : ℤ) (c : Option Client) (s s' : LoadTest sodium)
        → IsCounted s
        → get_elem? s.clients i ≡ c
        → seal_request sodium pk requests i nanos c s ≡ some s'
        → IsCounted s'
    unfolding load_step
    seal_request-IsCounted pk i nanos (some (requesting j)) s s' h g st =
        let r = seal sodium (payload i j nanos) pk s.rng in
        of_some IsCounted st (sealed-IsCounted i j r.0 s r.1 h g)
    seal_request-IsCounted pk i nanos none s s' h g st = of_none IsCounted st
    seal_request-IsCounted pk i nanos (some dialing) s s' h g st = of_none IsCounted st
    seal_request-IsCounted pk i nanos (some (waiting j ct)) s s' h g st = of_none IsCounted st
    seal_request-IsCounted pk i nanos (some finished) s s' h g st = of_none IsCounted st

    -- An answer is counted.
    answered-IsCounted :
        (i j : ℕ) (ct : Bytes) (r : Result GoError Bool) (s : LoadTest sodium)
        → IsCounted s
        → get_elem? s.clients i ≡ some (waiting j ct)
        → IsCounted (goes_to sodium i (next_request requests (suc j)) (counted sodium r s))
    unfolding load_step
    answered-IsCounted i j ct r s h g = by_answer r
      where
        more : j < requests
        more = AreGoing-get_elem? requests i (waiting j ct) s.clients h.going g

        one_failed : add64 s.failed 1 ≡ s.failed + 1
        one_failed = left-fits i 1 s.failed (waiting j ct) s h g (omega (arith, more)) (omega arith)

        by_answer :
            (r : Result GoError Bool)
            → IsCounted (goes_to sodium i (next_request requests (suc j)) (counted sodium r s))
        by_answer (ok true) =
            next-IsCounted i j 1 0 (waiting j ct) s _ h g refl more (omega arith) refl
              (left-fits i 1 s.success (waiting j ct) s h g (omega (arith, more)) (omega arith))
              (omega arith)
        by_answer (ok false) =
            next-IsCounted i j 0 1 (waiting j ct) s _ h g refl more (omega arith) refl (omega arith)
              one_failed
        by_answer (err e) =
            next-IsCounted i j 0 1 (waiting j ct) s _ h g refl more (omega arith) refl (omega arith)
              one_failed

    reply-IsCounted :
        (i : ℕ) (r : Result GoError Bool) (c : Option Client) (s s' : LoadTest sodium)
        → IsCounted s
        → get_elem? s.clients i ≡ c
        → reply sodium requests i r c s ≡ some s'
        → IsCounted s'
    unfolding load_step
    reply-IsCounted i r (some (waiting j ct)) s s' h g st =
        of_some IsCounted st (answered-IsCounted i j ct r s h g)
    reply-IsCounted i r none s s' h g st = of_none IsCounted st
    reply-IsCounted i r (some dialing) s s' h g st = of_none IsCounted st
    reply-IsCounted i r (some (requesting j)) s s' h g st = of_none IsCounted st
    reply-IsCounted i r (some finished) s s' h g st = of_none IsCounted st

    load_step-IsCounted :
        (pk : Bytes) (e : LoadEvent) (s s' : LoadTest sodium)
        → IsCounted s
        → load_step sodium pk requests e s ≡ some s'
        → IsCounted s'
    unfolding load_step
    load_step-IsCounted pk (dials i up) s s' h st = dial-IsCounted i up _ s s' h refl st
    load_step-IsCounted pk (seals i nanos) s s' h st =
        seal_request-IsCounted pk i nanos _ s s' h refl st
    load_step-IsCounted pk (replies i r) s s' h st = reply-IsCounted i r _ s s' h refl st

    pub run_load-IsCounted :
        (pk : Bytes) (es : List LoadEvent) (s s' : LoadTest sodium)
        → IsCounted s
        → run_load sodium pk requests es s ≡ some s'
        → IsCounted s'
    unfolding run_load
    run_load-IsCounted pk [] s s' h run = of_some IsCounted run h
    run_load-IsCounted pk (e ∷ es) s s' h run =
        elim (Option-cases (load_step sodium pk requests e s)) [
          | inl stuck ↦ of_none IsCounted (rw (stuck, run_load) at run)
          | inr (p, st) ↦
              run_load-IsCounted pk es p s' (load_step-IsCounted pk e s p h st)
                (rw (st, run_load) at run)
        ]
