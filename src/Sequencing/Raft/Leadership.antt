-- ===== src/Sequencing/Raft/Leadership.antt =====
-- IsLeader, LeaderAddress, AddVoter and StepDown of raft_log.go over a node of the Raft library, whose calls
-- are parameters.
use secureorder.Prelude.{ℕ, Bool, true, false, Option, none, if◌then◌else◌}
use secureorder.Error.{Bytes, GoError}

-- `raft.RaftState`
pub data RaftState : Type 0 where
  follower : RaftState
  candidate : RaftState
  leader : RaftState
  shutdown : RaftState

unfoldable pub is_leader : RaftState → Bool
is_leader leader = true
is_leader _ = false

-- raft.LeaderWithID gives the address and the ID; both are empty where no leader is known.
unfoldable pub leader_address : Bytes × Bytes → Bytes
leader_address (addr, id) = addr

-- The error of the future is that of the call, which names no previous index and no timeout.
unfoldable pub add_voter {ℓ} :
    {Raft : Type ℓ}
    → (Bytes → Bytes → ℕ → ℕ → Raft → Option GoError × Raft)
    → Bytes
    → Bytes
    → Raft
    → Option GoError × Raft
add_voter raft_add_voter id address r = raft_add_voter id address 0 0 r

-- StepDown: nothing on a node that is not the leader.
unfoldable pub step_down {ℓ} :
    {Raft : Type ℓ}
    → (Raft → RaftState)
    → (Raft → Option GoError × Raft)
    → Raft
    → Option GoError × Raft
unfolding is_leader
step_down state leadership_transfer r =
    if is_leader (state r) then leadership_transfer r else (none, r)
