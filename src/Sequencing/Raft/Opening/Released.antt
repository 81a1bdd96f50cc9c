-- ===== src/Sequencing/Raft/Opening/Released.antt =====
-- Which of the resources of a Raft log are released again.
use mathlib.Core.List.{Perm}
use mathlib.Core.List.Perm
use secureorder.Prelude.{
  List, [], ◌∷◌, ◌++◌, true, false, Option, none, some, ◌≡◌, refl, sym, ap, ◌∙◌, append_assoc, inl,
  inr, Option-cases, Bool-cases,
}
use secureorder.Prelude.{ok, Result-cases}
use secureorder.Sequencing.Raft.Bootstrap.{RaftOrderedLogConfig, check_config, bootstrap_servers}
use secureorder.Sequencing.Raft.Opening.{
  Resource, transport, log_store, stable_store, raft_node, Ledger, BootstrapError, cant_bootstrap,
  other_error, Outcomes, RaftOrderedLog, opens, closes, close_log, bootstrapping, start_node,
  open_stores, listen, new_raft_ordered_log, close_twice, open_and_close,
}

-- The transports and nodes among some resources.
unfoldable pub network : List Resource → List Resource
network [] = []
network (transport ∷ rs) = transport ∷ network rs
network (raft_node ∷ rs) = raft_node ∷ network rs
network (_ ∷ rs) = network rs

-- Of what was opened on the way, just the transports and nodes were closed, each once.
pub record IsReleased (w w' : Ledger) : Type 0 where
  pub opened_now : List Resource
  pub closed_now : List Resource
  pub opened_first : w'.opened ≡ opened_now ++ w.opened
  pub closed_first : w'.closed ≡ closed_now ++ w.closed
  pub released : Perm (network opened_now) closed_now

-- The end of every path on which the node was started.
both-IsReleased :
    (w w' : Ledger)
    → w'.opened ≡ raft_node ∷ stable_store ∷ log_store ∷ transport ∷ w.opened
    → w'.closed ≡ transport ∷ raft_node ∷ w.closed
    → IsReleased w w'
unfolding network
both-IsReleased w w' o c = record {
  opened_now = raft_node ∷ stable_store ∷ log_store ∷ transport ∷ [];
  closed_now = transport ∷ raft_node ∷ [];
  opened_first = o;
  closed_first = c;
  released = Perm.swap transport raft_node [];
}

-- The end of a path on which only the transport and some stores were opened.
transport-IsReleased :
    (stores : List Resource) (w w' : Ledger)
    → network stores ≡ []
    → w'.opened ≡ stores ++ transport ∷ w.opened
    → w'.closed ≡ transport ∷ w.closed
    → network (stores ++ transport ∷ []) ≡ transport ∷ []
    → IsReleased w w'
transport-IsReleased stores w w' n o c only = record {
  opened_now = stores ++ transport ∷ [];
  closed_now = transport ∷ [];
  opened_first = o ∙ sym (append_assoc stores (transport ∷ []) w.opened);
  closed_first = c;
  released = rw only (Perm.refl (transport ∷ []));
}

untouched : (w : Ledger) → IsReleased w w
unfolding network
untouched w = record {
  opened_now = [];
  closed_now = [];
  opened_first = refl;
  closed_first = refl;
  released = Perm.refl [];
}

closed_twice :
    (l : RaftOrderedLog) (w w' : Ledger)
    → l.closed_once ≡ false
    → w'.opened ≡ raft_node ∷ stable_store ∷ log_store ∷ transport ∷ w.opened
    → w'.closed ≡ w.closed
    → IsReleased w (close_twice (ok l, w'))
unfolding open_and_close close_log
closed_twice l w w' fresh o c =
    rw (fresh, close_twice, close_log)
      (both-IsReleased w (closes transport (closes raft_node w')) o
        (ap (λ rs. transport ∷ raft_node ∷ rs) c))

bootstrapping-IsReleased :
    (l : RaftOrderedLog) (e : Option BootstrapError) (w w' : Ledger)
    → l.closed_once ≡ false
    → w'.opened ≡ raft_node ∷ stable_store ∷ log_store ∷ transport ∷ w.opened
    → w'.closed ≡ w.closed
    → IsReleased w (close_twice (bootstrapping l e w'))
unfolding open_and_close close_log bootstrapping
bootstrapping-IsReleased l none w w' fresh o c = closed_twice l w w' fresh o c
bootstrapping-IsReleased l (some cant_bootstrap) w w' fresh o c = closed_twice l w w' fresh o c
bootstrapping-IsReleased l (some (other_error e)) w w' fresh o c =
    rw (fresh, close_twice, close_log)
      (both-IsReleased w (closes transport (closes raft_node w')) o
        (ap (λ rs. transport ∷ raft_node ∷ rs) c))

module _ (cfg : RaftOrderedLogConfig) (o : Outcomes) (w : Ledger) where
  start_node-IsReleased :
      IsReleased w
        (close_twice (start_node cfg o (opens stable_store (opens log_store (opens transport w)))))
  unfolding open_and_close network start_node bootstrapping
  start_node-IsReleased = elim (Option-cases o.new_raft) [
    | inr (e, failed) ↦
        rw (failed, start_node)
          (transport-IsReleased (stable_store ∷ log_store ∷ []) w
            (closes transport (opens stable_store (opens log_store (opens transport w)))) refl refl
            refl refl)
    | inl started ↦ elim (Bool-cases cfg.bootstrap) [
      | inl first ↦
          rw (started, first, start_node)
            (bootstrapping-IsReleased
              (record { commit_buffer = cfg.commit_buffer; done = false; closed_once = false })
              o.bootstrap_cluster w
              (record {
                opened = raft_node ∷ stable_store ∷ log_store ∷ transport ∷ w.opened;
                closed = w.closed;
                bootstrapped =
                    bootstrap_servers (record cfg { bootstrap = true }) o.local_addr
                    ∷ w.bootstrapped;
              })
              refl refl refl)
      | inr joins ↦ rw (started, joins, start_node) (both-IsReleased w _ refl refl)
    ]
  ]

  open_stores-IsReleased : IsReleased w (close_twice (open_stores cfg o (opens transport w)))
  unfolding open_and_close network open_stores start_node
  open_stores-IsReleased = elim (Option-cases o.mkdir_all) [
    | inr (e, failed) ↦
        rw (failed, open_stores)
          (transport-IsReleased [] w (closes transport (opens transport w)) refl refl refl refl)
    | inl made ↦ elim (Option-cases o.new_log_store) [
      | inr (e, failed) ↦
          rw (made, failed, open_stores)
            (transport-IsReleased [] w (closes transport (opens transport w)) refl refl refl refl)
      | inl log ↦ elim (Option-cases o.new_stable_store) [
        | inr (e, failed) ↦
            rw (made, log, failed, open_stores)
              (transport-IsReleased (log_store ∷ []) w
                (closes transport (opens log_store (opens transport w))) refl refl refl refl)
        | inl stable ↦ elim (Option-cases o.new_snapshot_store) [
          | inr (e, failed) ↦
              rw (made, log, stable, failed, open_stores)
                (transport-IsReleased (stable_store ∷ log_store ∷ []) w
                  (closes transport (opens stable_store (opens log_store (opens transport w)))) refl
                  refl refl refl)
          | inl snapshots ↦ rw (made, log, stable, snapshots, open_stores) start_node-IsReleased
        ]
      ]
    ]
  ]

  listen-IsReleased : IsReleased w (close_twice (listen cfg o w))
  unfolding open_and_close listen open_stores
  listen-IsReleased = elim (Option-cases o.resolve_tcp_addr) [
    | inr (e, failed) ↦ rw (failed, listen) (untouched w)
    | inl resolved ↦ elim (Option-cases o.new_tcp_transport) [
      | inr (e, failed) ↦ rw (resolved, failed, listen) (untouched w)
      | inl listening ↦ rw (resolved, listening, listen) open_stores-IsReleased
    ]
  ]

-- Whichever of its calls fail: once NewRaftOrderedLog has returned an error, or Close was called on
-- its log, be it once or twice, the transport and the Raft node are closed, each once if it was
-- opened at all, and nothing else is: the two stores stay open.
pub open_and_close-IsReleased :
    (cfg : RaftOrderedLogConfig) (o : Outcomes) (w : Ledger) → IsReleased w (open_and_close cfg o w)
unfolding open_and_close new_raft_ordered_log
open_and_close-IsReleased cfg o w = elim (Result-cases (check_config cfg)) [
  | inr (e, refused) ↦ rw (refused, new_raft_ordered_log) (untouched w)
  | inl (cfg', checked) ↦ rw (checked, new_raft_ordered_log) (listen-IsReleased cfg' o w)
]
