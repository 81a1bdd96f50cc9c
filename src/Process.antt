-- ===== src/Process.antt =====
-- cmd/sequencer/main.go: the -raft-peers flag and the goroutine of the leader lease, and in modules
-- of their own the start of the process and its two loops.
pub mod Peers
pub mod Leases
pub mod KeySetup
pub mod Startup
pub mod Shutdown
pub mod Pipeline
mod Tests
use secureorder.Prelude.{
  ℕ, ◌-◌, List, [], ◌∷◌, ◌++◌, Bool, true, false, Option, none, some, ◌&&◌, not, ltb, if◌then◌else◌,
  is_empty,
}
use secureorder.Prelude.{Result, ok, err}
use secureorder.Text.{codes, trim_space, split, split_first}
use secureorder.Error.{Bytes, GoError, message}
use secureorder.Sequencing.Raft.Bootstrap.{RaftPeer}

-- The two fields of an entry, `nodeID=host:port`; `%q` in the error's text is abridged to the part.
parse_fields : Bytes → Bytes × Option Bytes → Result GoError (List RaftPeer)
parse_fields part (id, none) =
    err (message (codes "invalid raft peer " ++ part ++ codes ", expected nodeID=host:port"))
parse_fields part (id, some address) =
    ok (record { peer_id = trim_space id; address = trim_space address } ∷ [])

-- One trimmed part: no peer if it is empty.
parse_part : Bytes → Result GoError (List RaftPeer)
unfolding parse_fields
parse_part part = if is_empty part then ok [] else parse_fields part (split_first b'=' part)

-- The loop over the parts.
parse_parts : List Bytes → List RaftPeer → Result GoError (List RaftPeer)
unfolding parse_part
parse_parts [] peers = ok peers
parse_parts (part ∷ parts) peers = elim (parse_part (trim_space part)) [
  | err e ↦ err e
  | ok found ↦ parse_parts parts (peers ++ found)
]

parse_trimmed : Bytes → Result GoError (List RaftPeer)
unfolding parse_parts
parse_trimmed spec = if is_empty spec then ok [] else parse_parts (split b',' spec) []

unfoldable pub parse_raft_peers : Bytes → Result GoError (List RaftPeer)
unfolding parse_trimmed
parse_raft_peers spec = parse_trimmed (trim_space spec)

-- The lease goroutine's variables; times are readings of the clock in nanoseconds.
pub record Lease : Type 0 where
  pub leader_start_time : ℕ
  pub was_leader : Bool

-- A tick with a Raft log: whether the node leads, and the clock at `time.Now()` and `time.Since`.
pub record Tick : Type 0 where
  pub leads : Bool
  pub now : ℕ
  pub later : ℕ

started : Tick → Lease → Lease
started t l = if t.leads && not l.was_leader then record l { leader_start_time = t.now } else l

checked : ℕ → Tick → Lease → Bool × Lease
checked lease t l =
    if t.leads && ltb lease (t.later - l.leader_start_time)
    then (true, record l { was_leader = false })
    else (false, record l { was_leader = t.leads })

-- One tick: whether StepDown is called, and the variables after it.
unfoldable pub lease_tick : ℕ → Tick → Lease → Bool × Lease
unfolding started checked
lease_tick lease t l = checked lease t (started t l)

unfoldable pub lease_run : ℕ → List Tick → Lease → List Bool × Lease
unfolding lease_tick
lease_run lease [] l = ([], l)
lease_run lease (t ∷ ts) l =
    let (down, l') = lease_tick lease t l in
    let (downs, l'') = lease_run lease ts l' in (down ∷ downs, l'')
