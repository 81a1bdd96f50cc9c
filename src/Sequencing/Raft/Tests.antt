-- ===== src/Sequencing/Raft/Tests.antt =====
-- The Raft log on concrete inputs; proposals are marshalled as a sign, the time and the payload.
use secureorder.Sequencing.Raft.Opening.{
  Ledger, Outcomes, transport, log_store, stable_store, new_raft_ordered_log, open_and_close,
}
use secureorder.Sequencing.Raft.Opening.Released.{IsReleased, open_and_close-IsReleased}
use secureorder.Sequencing.Log.{IsOrderedLog}
use secureorder.Sequencing.Log.Raft.{raft_log, raft_log-IsOrderedLog}
use secureorder.Prelude.{
  ℕ, zero, suc, Option, List, [], ◌∷◌, ◌++◌, Bool, true, false, none, some, ◌≡◌, refl, bytes_eq,
  arith,
}
use secureorder.Prelude.{Result, ok, err}
use secureorder.Prelude.Int.{ℤ, pos, negsuc}
use secureorder.Text.{codes, trim_space}
use secureorder.Error.{Bytes, GoError, message, canceled}
use secureorder.Sequencing.Transaction.{EncryptedTransaction, Between}
use secureorder.Sequencing.Raft.{
  RaftProposal, LogEntry, RaftFsm, sent, entry_tx, apply, snapshot, restore, take_committed,
}
use secureorder.Sequencing.Raft.Replica.{
  FsmEvent, apply_entry, install_snapshot, consume, applied_entries, new_fsm, fsm_run, fsm_step,
  log_txs, fsm_run-Between, replicas_agree, snapshot_skips,
}
use secureorder.Sequencing.Raft.Leadership.{follower, is_leader, step_down}
use secureorder.Sequencing.Raft.Node.{Response, Moment}
use secureorder.Sequencing.Raft.Bootstrap.{
  RaftOrderedLogConfig, RaftServer, check_config, bootstrap_servers,
}
use secureorder.Sequencing.Raft.Waits.{applied_entry, receive, Wake, drain_wait}

abbrev encode : ℤ → Bytes → Bytes
encode (pos n) ct = zero ∷ n ∷ ct
encode (negsuc n) ct = suc zero ∷ n ∷ ct

abbrev marshal : RaftProposal → Result GoError Bytes
marshal p = ok (encode p.submitted_at_unix_nano p.ciphertext)

abbrev unmarshal : Bytes → Result GoError RaftProposal
unmarshal [] = err (message (codes "unexpected end of JSON input"))
unmarshal (s ∷ []) = err (message (codes "unexpected end of JSON input"))
unmarshal (zero ∷ n ∷ ct) = ok (record { submitted_at_unix_nano = pos n; ciphertext = ct })
unmarshal (suc s ∷ n ∷ ct) = ok (record { submitted_at_unix_nano = negsuc n; ciphertext = ct })

abbrev entry : ℕ → LogEntry
entry n = record { index = n; content = 0 ∷ 7 ∷ n ∷ [] }

abbrev tx : ℕ → EncryptedTransaction
tx n = record { seq = n; ciphertext = n ∷ []; arrived_at = pos 7 }

abbrev fsm : List EncryptedTransaction → List EncryptedTransaction → RaftFsm
fsm committed delivered = record {
  capacity = 2;
  committed = committed;
  done = false;
  delivered = delivered;
}

abbrev life : List FsmEvent
life =
    apply_entry (entry 2)
    ∷ consume
    ∷ apply_entry (record { index = 3; content = [] })
    ∷ apply_entry (entry 5)
    ∷ []

life_runs : fsm_run unmarshal (new_fsm 2) life ≡ some (fsm (tx 5 ∷ []) (tx 2 ∷ tx 5 ∷ []))
unfolding fsm_run apply fsm_step take_committed
life_runs = refl

abbrev short_life : List FsmEvent
short_life = apply_entry (entry 2) ∷ []

short_life_runs :
    fsm_run unmarshal (new_fsm 1) short_life
    ≡ some (record { capacity = 1; committed = tx 2 ∷ []; done = false; delivered = tx 2 ∷ [] })
unfolding fsm_run apply fsm_step
short_life_runs = refl

fsm_run-Between_example :
    (tx 2 ∷ tx 5 ∷ [] ≡ log_txs unmarshal (applied_entries life)) × Between 0 5 (tx 2 ∷ tx 5 ∷ [])
fsm_run-Between_example =
    fsm_run-Between unmarshal 2 life _ life_runs (omega arith, (omega arith, (omega arith, _)))

replicas_agree_example :
    tx 2 ∷ tx 5 ∷ []
    ≡ (tx 2 ∷ []) ++ log_txs unmarshal (record { index = 3; content = [] } ∷ entry 5 ∷ [])
replicas_agree_example =
    replicas_agree unmarshal 1 2 short_life life _ _ _ short_life_runs life_runs refl

abbrev late_life : List FsmEvent
late_life = apply_entry (entry 5) ∷ []

late_life_runs :
    fsm_run unmarshal (new_fsm 2) (install_snapshot (snapshot (new_fsm 2)) ∷ late_life)
    ≡ some (fsm (tx 5 ∷ []) (tx 5 ∷ []))
unfolding fsm_run apply fsm_step restore
late_life_runs = refl

snapshot_skips_example :
    tx 2 ∷ tx 5 ∷ []
    ≡ log_txs unmarshal (entry 2 ∷ record { index = 3; content = [] } ∷ []) ++ (tx 5 ∷ [])
snapshot_skips_example =
    snapshot_skips unmarshal 2 2 life late_life _ _ _ (new_fsm 2) life_runs late_life_runs refl

-- A log whose fourth entry is the proposal below; it has no answer to another one.
abbrev proposal : RaftProposal
proposal = record { submitted_at_unix_nano = pos 7; ciphertext = codes "ct" }

abbrev fourth : LogEntry
fourth = record { index = 4; content = encode (pos 7) (codes "ct") }

abbrev answer_to : Bool → Result GoError Response
answer_to true = ok (ok (entry_tx fourth proposal))
answer_to false = err canceled

abbrev raft_apply : Bytes → ℤ → Result GoError Response
raft_apply b timeout = answer_to (bytes_eq b fourth.content)

abbrev entries : List LogEntry
entries = entry 2 ∷ fourth ∷ []

abbrev committing : RaftFsm
committing = record { capacity = 1; committed = []; done = false; delivered = [] }

abbrev committed_one : RaftFsm
committed_one = record committing {
  committed = entry_tx fourth proposal ∷ [];
  delivered = entry_tx fourth proposal ∷ [];
}

abbrev moment : Moment
moment = record { expired = none; now = pos 7; time_left = some (pos 9); late_error = canceled }

abbrev receipt : ℕ → EncryptedTransaction
receipt n = record { seq = n; ciphertext = codes "ct"; arrived_at = pos 7 }

abbrev wakes : List Wake
wakes = applied_entry (entry 5) sent ∷ receive ∷ applied_entry (entry 6) sent ∷ receive ∷ []

waits_for_two :
    drain_wait unmarshal (pos 2) wakes (fsm (tx 2 ∷ []) (tx 2 ∷ []))
    ≡ some (
      record { batch = tx 2 ∷ tx 5 ∷ []; error = none },
      fsm (tx 6 ∷ []) (tx 2 ∷ tx 5 ∷ tx 6 ∷ []),
    )
unfolding drain_wait apply
waits_for_two = refl

abbrev no_error : Option GoError
no_error = none

abbrev config : RaftOrderedLogConfig
config = record {
  node_id = codes "node-1";
  bind_address = codes "127.0.0.1:7000";
  bootstrap = true;
  peers =
      record { peer_id = codes "node-2"; address = codes "h:7000" }
      ∷ record { peer_id = codes "node-3"; address = codes "" }
      ∷ [];
  commit_buffer = pos 0;
  data_dir = codes "data";
}

abbrev self_server : RaftServer
self_server = record { server_id = codes "node-1"; server_address = codes "127.0.0.1:7000" }

two_voters :
    bootstrap_servers config (codes "127.0.0.1:7000")
    ≡ record { server_id = codes "node-2"; server_address = codes "h:7000" } ∷ self_server ∷ []
unfolding bootstrap_servers trim_space
two_voters = refl

buffer_default : check_config config ≡ ok (record config { commit_buffer = pos 1024 })
unfolding check_config trim_space
buffer_default = refl

follower_keeps : step_down (λ (n : ℕ). follower) (λ n. (some canceled, n)) 3 ≡ (none, 3)
unfolding step_down is_leader
follower_keeps = refl

raft_log-IsOrderedLog_example : IsOrderedLog (raft_log unmarshal)
raft_log-IsOrderedLog_example = raft_log-IsOrderedLog unmarshal

abbrev nothing_open : Ledger
nothing_open = record { opened = []; closed = []; bootstrapped = [] }

-- The snapshot store cannot be opened.
abbrev no_snapshots : Outcomes
no_snapshots = record {
  resolve_tcp_addr = none;
  new_tcp_transport = none;
  mkdir_all = none;
  new_log_store = none;
  new_stable_store = none;
  new_snapshot_store = some canceled;
  new_raft = none;
  bootstrap_cluster = none;
  local_addr = codes "127.0.0.1:7000";
}

open_and_close-IsReleased_example :
    IsReleased nothing_open (open_and_close config no_snapshots nothing_open)
open_and_close-IsReleased_example = open_and_close-IsReleased config no_snapshots nothing_open

stores_left_open : open_and_close config no_snapshots nothing_open ≡ record {
  opened = stable_store ∷ log_store ∷ transport ∷ [];
  closed = transport ∷ [];
  bootstrapped = [];
}
unfolding open_and_close new_raft_ordered_log check_config trim_space
stores_left_open = refl
