-- ===== src/Process/Startup.antt =====
-- cmd/sequencer/main.go up to the start of the loops: newOrderedLog, attemptJoin and their calls in
-- main. The file system, the other nodes and package filepath are parameters. A call of log.Fatalf,
-- which ends the program, is an error.
pub mod Joining
use secureorder.Prelude.{
  List, [], ◌∷◌, ◌++◌, Bool, true, false, Option, none, some, not, ◌&&◌, if◌then◌else◌, is_empty,
  bytes_eq,
}
use secureorder.Prelude.{Result, ok, err}
use secureorder.Prelude.Int.{pos}
use secureorder.Text.{codes}
use secureorder.Error.{Bytes, GoError, message, wrap}
use secureorder.Rpc.{JoinResponse}
use secureorder.Sequencing.Queue.{TxQueue, new_tx_queue}
use secureorder.Sequencing.Raft.Bootstrap.{RaftPeer, RaftOrderedLogConfig}
use secureorder.Sequencing.Raft.Opening.{Outcomes, Ledger, RaftOrderedLog, new_raft_ordered_log}
use secureorder.Process.{parse_raft_peers}

-- The flags that matter here.
pub record Flags : Type 0 where
  pub ordering_mode : Bytes
  pub raft_node_id : Bytes
  pub raft_bind : Bytes
  pub raft_data_dir : Bytes
  pub raft_bootstrap : Bool
  pub raft_peers : Bytes
  pub raft_join_addr : Bytes

-- What becomes of a JoinCluster call: no connection, an error of gRPC, or a response.
pub data JoinAnswer : Type 0 where
  dial_failed : GoError → JoinAnswer
  rpc_failed : GoError → JoinAnswer
  answered : JoinResponse → JoinAnswer

-- `join_cluster` takes the address that is called, the node ID and its Raft address.
pub record Host : Type 0 where
  pub filepath_join : List Bytes → Bytes
  pub path_exists : Bytes → Bool
  pub join_cluster : Bytes → Bytes → Bytes → JoinAnswer
  pub outcomes : Outcomes
  pub ledger : Ledger

-- The ordering backend.
pub data OrderingBackend : Type 0 where
  local_queue : TxQueue → OrderingBackend
  raft_backed : RaftOrderedLog → OrderingBackend

-- The backend, and the addresses that were asked to let this node join.
pub record Started : Type 0 where
  pub backend : OrderingBackend
  pub asked : List Bytes

unfoldable pub default_raft_data_dir : Host → Bytes → Bytes
default_raft_data_dir h node_id =
    h.filepath_join (codes ".local" ∷ codes "raft" ∷ codes "data" ∷ node_id ∷ [])

unfoldable pub data_dir : Host → Flags → Bytes
unfolding default_raft_data_dir
data_dir h f =
    if is_empty f.raft_data_dir then default_raft_data_dir h f.raft_node_id else f.raft_data_dir

pub joined : JoinAnswer → Option GoError
joined (dial_failed e) = some (wrap (codes "dial join address: ") e)
joined (rpc_failed e) = some (wrap (codes "join cluster rpc: ") e)
joined (answered r) =
    if not r.success
    then some (message (codes "join cluster failed: " ++ r.error_message))
    else none

unfoldable pub attempt_join : Host → Bytes → Bytes → Bytes → Option GoError
unfolding joined
attempt_join h join_addr node_id raft_addr = joined (h.join_cluster join_addr node_id raft_addr)

-- A node that neither bootstraps nor has a log of its own, and was told whom to ask.
unfoldable pub must_join : Host → Flags → Bool
unfolding data_dir
must_join h f =
    (bytes_eq f.ordering_mode (codes "raft")
      && not f.raft_bootstrap
      && not (is_empty f.raft_join_addr))
    && not (h.path_exists (h.filepath_join (data_dir h f ∷ codes "raft-log.bolt" ∷ [])))

-- The addresses that were asked.
unfoldable pub join_if_fresh : Host → Flags → Result GoError (List Bytes)
unfolding must_join attempt_join
join_if_fresh h f =
    if must_join h f
    then elim (attempt_join h f.raft_join_addr f.raft_node_id f.raft_bind) [
      | some e ↦ err (wrap (codes "failed to join cluster: ") e)
      | none ↦ ok (f.raft_join_addr ∷ [])
    ]
    else ok []

abbrev pub raft_config : Host → Flags → List RaftPeer → RaftOrderedLogConfig
unfolding data_dir
raft_config h f peers = record {
  node_id = f.raft_node_id;
  bind_address = f.raft_bind;
  bootstrap = f.raft_bootstrap;
  peers = peers;
  commit_buffer = pos 0;
  data_dir = data_dir h f;
}

pub raft_backend : Result GoError RaftOrderedLog × Ledger → Result GoError OrderingBackend
raft_backend (err e, w) = err e
raft_backend (ok l, w) = ok (raft_backed l)

unfoldable pub new_ordered_log : Host → Flags → Result GoError OrderingBackend
unfolding raft_config raft_backend
new_ordered_log h f =
    if bytes_eq f.ordering_mode (codes "local")
    then ok (local_queue (new_tx_queue 100))
    else if bytes_eq f.ordering_mode (codes "raft")
    then elim (parse_raft_peers f.raft_peers) [
      | err e ↦ err e
      | ok peers ↦ raft_backend (new_raft_ordered_log (raft_config h f peers) h.outcomes h.ledger)
    ]
    else err (message (codes "unsupported ordering mode " ++ f.ordering_mode))

pub start_backend : List Bytes → Result GoError OrderingBackend → Result GoError Started
start_backend asked (err e) = err (wrap (codes "failed to initialize ordering backend: ") e)
start_backend asked (ok b) = ok (record { backend = b; asked = asked })

-- From parseRaftPeers in main to the ordering backend.
unfoldable pub start_up : Host → Flags → Result GoError Started
unfolding start_backend join_if_fresh new_ordered_log
start_up h f = elim (parse_raft_peers f.raft_peers) [
  | err e ↦ err (wrap (codes "invalid raft peer configuration: ") e)
  | ok peers ↦ elim (join_if_fresh h f) [
    | err e ↦ err e
    | ok asked ↦ start_backend asked (new_ordered_log h f)
  ]
]
