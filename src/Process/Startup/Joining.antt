-- ===== src/Process/Startup/Joining.antt =====
-- What a successful start of the process means.
use secureorder.Prelude.{List, [], ◌∷◌, true, false, if◌then◌else◌, is_empty, ◌≡◌, ◌⊎◌, bytes_eq}
use secureorder.Prelude.{ok}
use secureorder.Text.{codes}
use secureorder.Error.{Bytes}
use secureorder.Rpc.{JoinResponse}
use secureorder.Sequencing.Queue.{new_tx_queue}
use secureorder.Prelude.Int.{pos}
use secureorder.Sequencing.Raft.Bootstrap.{RaftPeer, RaftOrderedLogConfig}
use secureorder.Sequencing.Raft.Opening.{RaftOrderedLog, new_raft_ordered_log}
use secureorder.Process.{parse_raft_peers}
use secureorder.Process.Startup.{Flags, answered, Host, OrderingBackend, local_queue, raft_backed}

module _ (h : Host) (f : Flags) where
  -- The directory of the node's own files: that of the flag, or `.local/raft/data/<node>`.
  abbrev pub own_dir : Bytes
  own_dir =
      if is_empty f.raft_data_dir
      then h.filepath_join (codes ".local" ∷ codes "raft" ∷ codes "data" ∷ f.raft_node_id ∷ [])
      else f.raft_data_dir

  -- What the Raft log is opened with.
  abbrev pub own_config : List RaftPeer → RaftOrderedLogConfig
  own_config peers = record {
    node_id = f.raft_node_id;
    bind_address = f.raft_bind;
    bootstrap = f.raft_bootstrap;
    peers = peers;
    commit_buffer = pos 0;
    data_dir = own_dir;
  }

  -- A node runs Raft, does not bootstrap, was given an address and has no log of its own.
  abbrev pub IsFresh : Type 0
  IsFresh =
      (bytes_eq f.ordering_mode (codes "raft") ≡ true)
      × (f.raft_bootstrap ≡ false)
      × (is_empty f.raft_join_addr ≡ false)
      × (h.path_exists (h.filepath_join (own_dir ∷ codes "raft-log.bolt" ∷ [])) ≡ false)

  abbrev pub IsSettled : Type 0
  IsSettled =
      (bytes_eq f.ordering_mode (codes "raft") ≡ false)
      ⊎ (f.raft_bootstrap ≡ true)
      ⊎ (is_empty f.raft_join_addr ≡ true)
      ⊎ (h.path_exists (h.filepath_join (own_dir ∷ codes "raft-log.bolt" ∷ [])) ≡ true)

  -- The backend that the flags ask for.
  abbrev pub IsBackend : OrderingBackend → Type 0
  IsBackend b =
      ((bytes_eq f.ordering_mode (codes "local") ≡ true) × (b ≡ local_queue (new_tx_queue 100)))
      ⊎ ((bytes_eq f.ordering_mode (codes "raft") ≡ true)
          × (peers : List RaftPeer) × (l : RaftOrderedLog) × (parse_raft_peers f.raft_peers
              ≡ ok peers)
          × ((new_raft_ordered_log (own_config peers) h.outcomes h.ledger).0 ≡ ok l)
          × (b ≡ raft_backed l))

  -- Who was asked, and with what answer.
  abbrev pub IsAsked : List Bytes → Type 0
  IsAsked asked =
      (IsSettled × (asked ≡ []))
      ⊎ (IsFresh
          × (asked ≡ f.raft_join_addr ∷ [])
          × (r : JoinResponse) × (h.join_cluster f.raft_join_addr f.raft_node_id f.raft_bind
              ≡ answered r)
          × (r.success ≡ true))
