-- ===== src/Sequencing/Raft.antt =====
-- pkg/sequencing/raft_log.go: the replicated log's state machine and the node around it. The Raft
-- library (elections, replication, the futures of its calls), encoding/json and the stores on disk
-- are parameters: what they return comes in as arguments.
pub mod Opening
pub mod Replica
pub mod Node
pub mod Leadership
pub mod Bootstrap
pub mod Waits
mod Tests
use secureorder.Prelude.{
  ℕ, zero, suc, List, [], ◌∷◌, ◌++◌, Bool, true, false, Option, none, some, ltb, if◌then◌else◌,
  length, ◌&&◌, not,
}
use secureorder.Prelude.{Result, ok, err}
use secureorder.Prelude.Int.{ℤ}
use secureorder.Error.{Bytes, GoError}
use secureorder.Sequencing.Transaction.{EncryptedTransaction}

-- `raftProposal`.
pub record RaftProposal : Type 0 where
  pub submitted_at_unix_nano : ℤ
  pub ciphertext : Bytes

-- What `Apply` reads of a committed `raft.Log`.
pub record LogEntry : Type 0 where
  pub index : ℕ
  pub content : Bytes

-- A replica's state machine: the channel `committed` with its capacity, and whether `done` is closed.
-- `delivered` lists what Apply sent on the channel, taken or not, which the code does not keep.
pub record RaftFsm : Type 0 where
  pub capacity : ℕ
  pub committed : List EncryptedTransaction
  pub done : Bool
  pub delivered : List EncryptedTransaction

-- Which case of its `select` Apply takes: the send, into the buffer or to a consumer that waits for
-- it (`sent`), or the closed channel (`discarded`).
pub data SelectCase : Type 0 where
  sent : SelectCase
  discarded : SelectCase

-- What the proposal of a log entry becomes: the ID is the entry's index, the arrival time the one
-- that the submitter proposed.
unfoldable pub entry_tx : LogEntry → RaftProposal → EncryptedTransaction
entry_tx log p = record {
  seq = log.index;
  ciphertext = p.ciphertext;
  arrived_at = p.submitted_at_unix_nano;
}

-- The two cases of the `select`, where they are possible.
pub deliver : SelectCase → EncryptedTransaction → RaftFsm → Option RaftFsm
deliver sent tx f =
    if ltb (length f.committed) f.capacity
    then some (record f { committed = f.committed ++ tx ∷ []; delivered = f.delivered ++ tx ∷ [] })
    else none
deliver discarded tx f = if f.done then some f else none

module _ (unmarshal : Bytes → Result GoError RaftProposal) where
  pub applied :
      LogEntry
      → SelectCase
      → RaftFsm
      → Result GoError RaftProposal
      → Option (Result GoError EncryptedTransaction × RaftFsm)
  unfolding deliver entry_tx
  applied log c f (err e) = some (err e, f)
  applied log c f (ok p) = elim (deliver c (entry_tx log p) f) [
    | none ↦ none
    | some f' ↦ some (ok (entry_tx log p), f')
  ]

  -- `Apply`: its response, and the state machine. `none`: the `select` cannot take this case (yet).
  unfoldable pub apply :
      LogEntry → SelectCase → RaftFsm → Option (Result GoError EncryptedTransaction × RaftFsm)
  unfolding applied
  apply log c f = applied log c f (unmarshal log.content)

-- A receive by DrainWait or another consumer.
unfoldable pub take_committed : RaftFsm → Option (EncryptedTransaction × RaftFsm)
take_committed f = elim f.committed [
  | [] ↦ none
  | tx ∷ rest ↦ some (tx, record f { committed = rest })
]

-- Snapshot persists nothing, and Restore changes nothing.
unfoldable pub snapshot : RaftFsm → Bytes
snapshot f = []

unfoldable pub restore : Bytes → RaftFsm → RaftFsm
restore content f = f
