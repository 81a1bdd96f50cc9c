-- ===== src/Sequencing/Raft/Bootstrap.antt =====
-- NewRaftOrderedLog of raft_log.go: its checks of the configuration, and the initial voters that a
-- bootstrapping node writes.
use secureorder.Prelude.{
  List, [], ◌∷◌, ◌++◌, Bool, true, false, ◌≡◌, refl, ap, ◌∙◌, if◌then◌else◌, ◌||◌, is_empty,
  bytes_eq, bytes_eq→eq, append_snoc, append-nil, Bool-cases, ◌⊎◌, inl, inr,
}
use secureorder.Prelude.{Result, ok, err}
use secureorder.Prelude.Int.{ℤ, pos, is_nonpos}
use secureorder.Text.{codes, trim_space}
use secureorder.Error.{Bytes, GoError, message}

pub record RaftPeer : Type 0 where
  pub peer_id : Bytes
  pub address : Bytes

pub record RaftOrderedLogConfig : Type 0 where
  pub node_id : Bytes
  pub bind_address : Bytes
  pub bootstrap : Bool
  pub peers : List RaftPeer
  pub commit_buffer : ℤ
  pub data_dir : Bytes

is_blank : Bytes → Bool
is_blank s = is_empty (trim_space s)

-- The checks before anything is opened, and the default of the buffer.
unfoldable pub check_config : RaftOrderedLogConfig → Result GoError RaftOrderedLogConfig
unfolding is_blank
check_config cfg =
    if is_blank cfg.node_id
    then err (message (codes "raft node ID is required"))
    else if is_blank cfg.bind_address
    then err (message (codes "raft bind address is required"))
    else if is_blank cfg.data_dir
    then err (message (codes "raft data directory is required"))
    else if is_nonpos cfg.commit_buffer
    then ok (record cfg { commit_buffer = pos 1024 })
    else ok cfg

-- `raft.Server`.
pub record RaftServer : Type 0 where
  pub server_id : Bytes
  pub server_address : Bytes

-- The loop over the configured peers.
collect : Bytes → List RaftPeer → List RaftServer → Bool → List RaftServer × Bool
unfolding is_blank
collect node_id [] servers seen_self = (servers, seen_self)
collect node_id (p ∷ ps) servers seen_self =
    if is_blank p.peer_id || is_blank p.address
    then collect node_id ps servers seen_self
    else collect node_id ps
        (servers ++ record { server_id = p.peer_id; server_address = p.address } ∷ [])
        (bytes_eq p.peer_id node_id || seen_self)

-- The node itself, where the peers did not name it, and once more where there is still no server.
add_self : RaftServer → List RaftServer × Bool → List RaftServer
add_self self (servers, seen_self) =
    let with_self = if seen_self then servers else servers ++ self ∷ [] in
    if is_empty with_self then with_self ++ self ∷ [] else with_self

unfoldable pub bootstrap_servers : RaftOrderedLogConfig → Bytes → List RaftServer
unfolding collect add_self
bootstrap_servers cfg local_addr =
    add_self (record { server_id = cfg.node_id; server_address = local_addr })
      (collect cfg.node_id cfg.peers [] false)

-- The peers that are configured with an ID and an address.
unfoldable pub usable : List RaftPeer → List RaftServer
unfolding is_blank
usable [] = []
usable (p ∷ ps) =
    if is_blank p.peer_id || is_blank p.address
    then usable ps
    else record { server_id = p.peer_id; server_address = p.address } ∷ usable ps

names_or : Bytes → List RaftServer → Bool → Bool
names_or node_id [] seen = seen
names_or node_id (s ∷ ss) seen = names_or node_id ss (bytes_eq s.server_id node_id || seen)

-- Some server has the node's ID.
unfoldable pub names : Bytes → List RaftServer → Bool
unfolding names_or
names node_id ss = names_or node_id ss false

collect-usable :
    (node_id : Bytes) (ps : List RaftPeer) (servers : List RaftServer) (seen : Bool)
    → collect node_id ps servers seen ≡ (servers ++ usable ps, names_or node_id (usable ps) seen)
unfolding collect usable names
collect-usable node_id [] servers seen = rw append-nil
collect-usable node_id (p ∷ ps) servers seen =
    elim (Bool-cases (is_blank p.peer_id || is_blank p.address)) [
      | inl skip ↦ rw skip (collect-usable node_id ps servers seen)
      | inr keep ↦ rw keep (
          collect-usable node_id ps _ _
          ∙ ap (λ ss. (ss, names_or node_id (usable ps) (bytes_eq p.peer_id node_id || seen)))
              (append_snoc servers _ (usable ps)))
    ]

-- A place in the list of servers that holds this ID.
abbrev pub HasVoter : Bytes → List RaftServer → Type 0
HasVoter node_id servers =
    (before : List RaftServer) × (voter : RaftServer) × (after : List RaftServer) × (servers
      ≡ before ++ voter ∷ after)
    × (voter.server_id ≡ node_id)

HasVoter-cons :
    (node_id : Bytes) (s : RaftServer) (ss : List RaftServer)
    → HasVoter node_id ss
    → HasVoter node_id (s ∷ ss)
HasVoter-cons node_id s ss (before, voter, after, e, same) =
    (s ∷ before, voter, after, ap (λ l. s ∷ l) e, same)

HasVoter-names :
    (node_id : Bytes) (ss : List RaftServer) (seen : Bool)
    → names_or node_id ss seen ≡ true
    → (seen ≡ true) ⊎ HasVoter node_id ss
unfolding names
HasVoter-names node_id [] seen h = inl h
HasVoter-names node_id (s ∷ ss) seen h =
    elim (HasVoter-names node_id ss (bytes_eq s.server_id node_id || seen) h) [
      | inr found ↦ inr (HasVoter-cons node_id s ss found)
      | inl here ↦ elim (Bool-cases (bytes_eq s.server_id node_id)) [
        | inl same ↦ inr ([], s, ss, refl, bytes_eq→eq s.server_id node_id same)
        | inr other ↦ inl (rw other at here)
      ]
    ]

add_self-names :
    (self : RaftServer) (ss : List RaftServer) (seen : Bool)
    → (seen ≡ true → HasVoter self.server_id ss)
    → (add_self self (ss, seen) ≡ (if seen then ss else ss ++ self ∷ []))
      × HasVoter self.server_id (add_self self (ss, seen))
unfolding add_self
add_self-names self [] true h = absurd (no_voter (h refl))
  where
    no_voter : ¬ HasVoter self.server_id []
    no_voter ([], voter, after, e, same) = cc
    no_voter (b ∷ bs, voter, after, e, same) = cc
add_self-names self (s ∷ ss) true h = (refl, h refl)
add_self-names self [] false h = (refl, ([], self, [], refl, refl))
add_self-names self (s ∷ ss) false h = (refl, (s ∷ ss, self, [], refl, refl))

-- The initial voters are the peers configured with an ID and an address, in their order, and the
-- node itself behind them exactly if none of them has its ID; so the node is always among its own
-- voters, and the list is never empty.
pub bootstrap_servers_lem :
    (cfg : RaftOrderedLogConfig) (local_addr : Bytes)
    → (bootstrap_servers cfg local_addr ≡ (
        if names cfg.node_id (usable cfg.peers)
        then usable cfg.peers
        else usable cfg.peers
          ++ record { server_id = cfg.node_id; server_address = local_addr } ∷ []))
      × HasVoter cfg.node_id (bootstrap_servers cfg local_addr)
unfolding bootstrap_servers names
bootstrap_servers_lem cfg local_addr = rw (collect-usable cfg.node_id cfg.peers [] false) (
    add_self-names (record { server_id = cfg.node_id; server_address = local_addr })
      (usable cfg.peers) (names_or cfg.node_id (usable cfg.peers) false) found)
  where
    found :
        names_or cfg.node_id (usable cfg.peers) false ≡ true
        → HasVoter cfg.node_id (usable cfg.peers)
    found h = elim (HasVoter-names cfg.node_id (usable cfg.peers) false h) [
      | inl f ↦ cc
      | inr v ↦ v
    ]
