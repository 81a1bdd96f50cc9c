-- ===== src/Sequencing/Raft/Opening.antt =====
-- NewRaftOrderedLog and Close of raft_log.go: what they open, and what they close again. The
-- outcomes of the calls of package net, the file system, the Raft library and its stores are
-- arguments.
pub mod Released
use secureorder.Prelude.{
  ℕ, List, [], ◌∷◌, ◌++◌, Bool, true, false, Option, none, some, ◌≡◌, refl, if◌then◌else◌,
}
use secureorder.Prelude.{Result, ok, err}
use secureorder.Prelude.Int.{ℤ}
use secureorder.Text.{codes}
use secureorder.Error.{Bytes, GoError, wrap}
use secureorder.Sequencing.Raft.Bootstrap.{
  RaftOrderedLogConfig, RaftServer, check_config, bootstrap_servers,
}

-- What a process holds open.
pub data Resource : Type 0 where
  transport : Resource
  log_store : Resource
  stable_store : Resource
  raft_node : Resource

-- What was opened and closed so far, newest first, and the configurations given to BootstrapCluster.
pub record Ledger : Type 0 where
  pub opened : List Resource
  pub closed : List Resource
  pub bootstrapped : List (List RaftServer)

pub data BootstrapError : Type 0 where
  cant_bootstrap : BootstrapError
  other_error : GoError → BootstrapError

-- The errors of the calls that NewRaftOrderedLog makes, if it comes to them, and LocalAddr's answer.
pub record Outcomes : Type 0 where
  pub resolve_tcp_addr : Option GoError
  pub new_tcp_transport : Option GoError
  pub mkdir_all : Option GoError
  pub new_log_store : Option GoError
  pub new_stable_store : Option GoError
  pub new_snapshot_store : Option GoError
  pub new_raft : Option GoError
  pub bootstrap_cluster : Option BootstrapError
  pub local_addr : Bytes

-- `closed_once` is the state of closeOnce; `done` tells whether the channel is closed.
pub record RaftOrderedLog : Type 0 where
  pub commit_buffer : ℤ
  pub done : Bool
  pub closed_once : Bool

pub opens : Resource → Ledger → Ledger
opens r w = record w { opened = r ∷ w.opened }

pub closes : Resource → Ledger → Ledger
closes r w = record w { closed = r ∷ w.closed }

unfoldable pub close_log : RaftOrderedLog → Ledger → RaftOrderedLog × Ledger
unfolding closes
close_log l w =
    if l.closed_once
    then (l, w)
    else (record l { done = true; closed_once = true }, closes transport (closes raft_node w))

pub bootstrapping :
    RaftOrderedLog → Option BootstrapError → Ledger → Result GoError RaftOrderedLog × Ledger
unfolding close_log
bootstrapping l none w = (ok l, w)
bootstrapping l (some cant_bootstrap) w = (ok l, w)
bootstrapping l (some (other_error e)) w =
    let (l', w') = close_log l w in (err (wrap (codes "bootstrap raft cluster: ") e), w')

pub start_node : RaftOrderedLogConfig → Outcomes → Ledger → Result GoError RaftOrderedLog × Ledger
unfolding bootstrapping opens closes
start_node cfg o w = elim o.new_raft [
  | some e ↦ (err (wrap (codes "create raft node: ") e), closes transport w)
  | none ↦
      let l : RaftOrderedLog = record {
        commit_buffer = cfg.commit_buffer;
        done = false;
        closed_once = false;
      } in
      let w' = opens raft_node w in
      if cfg.bootstrap
      then bootstrapping l o.bootstrap_cluster
          (record w' { bootstrapped = bootstrap_servers cfg o.local_addr ∷ w'.bootstrapped })
      else (ok l, w')
]

pub open_stores : RaftOrderedLogConfig → Outcomes → Ledger → Result GoError RaftOrderedLog × Ledger
unfolding start_node
open_stores cfg o w = elim o.mkdir_all [
  | some e ↦ (err (wrap (codes "create raft data dir: ") e), closes transport w)
  | none ↦ elim o.new_log_store [
    | some e ↦ (err (wrap (codes "create raft log store: ") e), closes transport w)
    | none ↦ elim o.new_stable_store [
      | some e ↦
          (err (wrap (codes "create raft stable store: ") e), closes transport (opens log_store w))
      | none ↦ elim o.new_snapshot_store [
        | some e ↦ (
          err (wrap (codes "create raft snapshot store: ") e),
          closes transport (opens stable_store (opens log_store w)),
        )
        | none ↦ start_node cfg o (opens stable_store (opens log_store w))
      ]
    ]
  ]
]

pub listen : RaftOrderedLogConfig → Outcomes → Ledger → Result GoError RaftOrderedLog × Ledger
unfolding open_stores
listen cfg o w = elim o.resolve_tcp_addr [
  | some e ↦ (err (wrap (codes "resolve raft bind address: ") e), w)
  | none ↦ elim o.new_tcp_transport [
    | some e ↦ (err (wrap (codes "create raft transport: ") e), w)
    | none ↦ open_stores cfg o (opens transport w)
  ]
]

unfoldable pub new_raft_ordered_log :
    RaftOrderedLogConfig → Outcomes → Ledger → Result GoError RaftOrderedLog × Ledger
unfolding listen
new_raft_ordered_log cfg o w = elim (check_config cfg) [
  | err e ↦ (err e, w)
  | ok cfg' ↦ listen cfg' o w
]

-- Behind NewRaftOrderedLog: if it gave a log, two calls of Close.
pub close_twice : Result GoError RaftOrderedLog × Ledger → Ledger
close_twice (err e, w) = w
close_twice (ok l, w) = let (l', w') = close_log l w in (close_log l' w').1

unfoldable pub open_and_close : RaftOrderedLogConfig → Outcomes → Ledger → Ledger
unfolding close_twice
open_and_close cfg o w = close_twice (new_raft_ordered_log cfg o w)
