-- ===== src/Process/Tests.antt =====
-- The -raft-peers flag and the leader lease on concrete inputs.
use secureorder.Prelude.Int.{pos}
use secureorder.Process.Startup.{Flags, Host, Started, answered, raft_backed}
use secureorder.Prelude.{ℕ, [], ◌∷◌, ◌++◌, true, false, ◌≡◌, refl, arith, map, replicate, none}
use secureorder.Prelude.{ok, err}
use secureorder.Text.{codes, trim_space, split, split_first}
use secureorder.Sequencing.Raft.Bootstrap.{RaftPeer}
use secureorder.Process.{parse_raft_peers, Tick, lease_run}
use secureorder.Process.Peers.{IsSpelled, parse_raft_peers-format_peers}
use secureorder.Privacy.Toy.{toy, toy_documented}
use secureorder.Privacy.Keys.{
  Files, readable, written, not_opened, cut_off, read_file, save_key, load_key, load_key_from_file,
  save_key_to_file, new_sequencer_keys,
}
use secureorder.Privacy.Native.{generate_sequencer_keys}
use secureorder.Process.KeySetup.{pub_path, sec_path, load_or_create_sequencer_keys}
use secureorder.Process.KeySetup.Restarts.{
  load_or_create_sequencer_keys_again, load_or_create_sequencer_keys_mixed,
}
use secureorder.Error.{message}
use secureorder.Process.Leases.{lease_run_expires}

abbrev peer : RaftPeer
peer = record { peer_id = codes "n1"; address = codes "h:1" }

abbrev other_peer : RaftPeer
other_peer = record { peer_id = codes "n2"; address = codes "g:1" }

peer-IsSpelled : IsSpelled peer
peer-IsSpelled = (
  ((refl, (refl, _)), (refl, (refl, _)), (refl, (refl, _))),
  ((refl, (refl, (refl, _))), (refl, (refl, (refl, _)))),
)

other_peer-IsSpelled : IsSpelled other_peer
other_peer-IsSpelled = (
  ((refl, (refl, _)), (refl, (refl, _)), (refl, (refl, _))),
  ((refl, (refl, (refl, _))), (refl, (refl, (refl, _)))),
)

parse_raft_peers-format_peers_example :
    parse_raft_peers (codes "n1=h:1,n2=g:1") ≡ ok (peer ∷ other_peer ∷ [])
parse_raft_peers-format_peers_example =
    parse_raft_peers-format_peers peer (other_peer ∷ []) (peer-IsSpelled, (other_peer-IsSpelled, _))

blanks_skipped : parse_raft_peers (codes " n1 = h:1 , , ") ≡ ok (peer ∷ [])
unfolding parse_raft_peers trim_space split split_first
blanks_skipped = refl

abbrev tick : ℕ → Tick
tick n = record { leads = true; now = n; later = n }

lease_run_expires_example :
    lease_run 3
      (tick 10 ∷ (tick 12 ∷ []) ++ tick 14 ∷ [])
      (record { leader_start_time = 0; was_leader = false })
    ≡ (
      false ∷ map (λ u. false) (tick 12 ∷ []) ++ true ∷ [],
      record { leader_start_time = 10; was_leader = false },
    )
lease_run_expires_example =
    lease_run_expires 3 (record { leader_start_time = 0; was_leader = false }) (tick 10)
      (tick 12 ∷ []) (tick 14) refl (refl, omega arith) ((refl, omega arith), _) refl (omega arith)

abbrev no_files : Files
no_files = record { content = []; reads = λ path. readable }

-- The private key that an earlier run has left.
abbrev old_secret : Files
old_secret = record { content = (sec_path, replicate 32 9) ∷ []; reads = λ path. readable }

load_or_create_sequencer_keys_again_example :
    let after = (load_or_create_sequencer_keys toy none written written 7 no_files).2 in
    load_or_create_sequencer_keys toy none not_opened (cut_off 3) 20 after
    ≡ (ok (replicate 32 7, replicate 32 8), 20, after)
unfolding load_or_create_sequencer_keys load_key_from_file load_key read_file save_key_to_file
    save_key new_sequencer_keys generate_sequencer_keys
load_or_create_sequencer_keys_again_example =
    load_or_create_sequencer_keys_again toy toy_documented written written not_opened (cut_off 3) 7
      20 no_files (replicate 32 7) (replicate 32 8) (λ n e. cc) (λ n e. cc) (refl, refl) refl

load_or_create_sequencer_keys_mixed_example :
    let first = load_or_create_sequencer_keys toy none written not_opened 7 old_secret in
    (first.0 ≡ err (message (codes "failed to save key: " ++ sec_path)))
    × (load_or_create_sequencer_keys toy none written written 20 first.2
        ≡ (ok (replicate 32 7, replicate 32 9), 20, first.2))
unfolding load_key_from_file load_key read_file new_sequencer_keys generate_sequencer_keys
load_or_create_sequencer_keys_mixed_example =
    load_or_create_sequencer_keys_mixed toy toy_documented written written 7 8 20 old_secret
      (replicate 32 7) (replicate 32 8) (replicate 32 9)
      (message (codes "failed to load key: " ++ pub_path)) refl refl refl refl

-- A fresh node that is told to join through another one.
abbrev fresh_flags : Flags
fresh_flags = record {
  ordering_mode = codes "raft";
  raft_node_id = codes "n1";
  raft_bind = codes "h:1";
  raft_data_dir = codes "d";
  raft_bootstrap = false;
  raft_peers = [];
  raft_join_addr = codes "g:1";
}

abbrev welcoming : Host
welcoming = record {
  filepath_join = λ parts. codes "d/raft-log.bolt";
  path_exists = λ path. false;
  join_cluster = λ addr id raft_addr. answered (record { success = true; error_message = [] });
  outcomes = record {
    resolve_tcp_addr = none;
    new_tcp_transport = none;
    mkdir_all = none;
    new_log_store = none;
    new_stable_store = none;
    new_snapshot_store = none;
    new_raft = none;
    bootstrap_cluster = none;
    local_addr = codes "h:1";
  };
  ledger = record { opened = []; closed = []; bootstrapped = [] };
}

abbrev started : Started
started = record {
  backend = raft_backed (record { commit_buffer = pos 1024; done = false; closed_once = false });
  asked = codes "g:1" ∷ [];
}
