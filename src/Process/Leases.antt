-- ===== src/Process/Leases.antt =====
-- When the lease goroutine gives up the leadership.
use secureorder.Prelude.{
  ℕ, ◌-◌, ◌≤◌, ◌<◌, List, [], ◌∷◌, ◌++◌, true, false, ◌≡◌, refl, arith, All, map,
}
use secureorder.Process.{Lease, Tick, lease_tick, lease_run}

-- A tick that finds the node leading, with `lease` not used up since `start`.
abbrev pub IsWithin : ℕ → ℕ → Tick → Type 0
IsWithin lease start t = (t.leads ≡ true) × (t.later - start ≤ lease)

lease_tick_kept :
    (lease start : ℕ) (t : Tick)
    → IsWithin lease start t
    → lease_tick lease t (record { leader_start_time = start; was_leader = true })
      ≡ (false, record { leader_start_time = start; was_leader = true })
unfolding lease_tick
lease_tick_kept lease start t h = ground arith

lease_tick_over :
    (lease start : ℕ) (t : Tick)
    → t.leads ≡ true
    → lease < t.later - start
    → lease_tick lease t (record { leader_start_time = start; was_leader = true })
      ≡ (true, record { leader_start_time = start; was_leader = false })
unfolding lease_tick
lease_tick_over lease start t h over = ground arith

lease_run_leading :
    (lease start : ℕ) (ts : List Tick) (t : Tick)
    → All (IsWithin lease start) ts
    → t.leads ≡ true
    → lease < t.later - start
    → lease_run lease (ts ++ t ∷ []) (record { leader_start_time = start; was_leader = true })
      ≡ (map (λ u. false) ts ++ true ∷ [], record { leader_start_time = start; was_leader = false })
unfolding lease_run
lease_run_leading lease start [] t h leads over = rw (lease_tick_over lease start t leads over) refl
lease_run_leading lease start (u ∷ ts) t h leads over =
    rw (lease_tick_kept lease start u h.0, lease_run_leading lease start ts t h.1 leads over) refl

-- A node that finds itself leading at a tick, and at every tick since, gives up the leadership at
-- just the first tick that lies more than the lease behind the clock reading of that one, and not
-- before; its next tick as a leader starts a new lease.
pub lease_run_expires :
    (lease : ℕ) (l : Lease) (first : Tick) (ts : List Tick) (t : Tick)
    → l.was_leader ≡ false
    → IsWithin lease first.now first
    → All (IsWithin lease first.now) ts
    → t.leads ≡ true
    → lease < t.later - first.now
    → lease_run lease (first ∷ ts ++ t ∷ []) l ≡ (
      false ∷ map (λ u. false) ts ++ true ∷ [],
      record { leader_start_time = first.now; was_leader = false },
    )
unfolding lease_run
lease_run_expires lease l first ts t fresh h hs leads over =
    rw (first_tick, lease_run_leading lease first.now ts t hs leads over) refl
  where
    first_tick :
        lease_tick lease first l
        ≡ (false, record { leader_start_time = first.now; was_leader = true })
    first_tick = unfold lease_tick in ground arith
