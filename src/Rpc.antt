-- ===== src/Rpc.antt =====
-- internal/rpc/server.go: the gRPC handlers in front of the ordered log. A follower passes a request
-- on to the leader, over a connection that it keeps. The ordered log, the Raft node's view of its
-- leader, dialing and the calls to other nodes are parameters.
pub mod Address
pub mod Proxy
pub mod Submit
pub mod Join
mod Tests
use secureorder.Prelude.{
  map, ℕ, List, [], ◌∷◌, ◌++◌, Bool, true, false, Option, none, some, ◌==◌, ◌||◌, ◌&&◌, not,
  if◌then◌else◌, is_empty, bytes_eq,
}
use secureorder.Prelude.{Result, ok, err}
use secureorder.Text.{codes}
use secureorder.Text.HostPort.{split_host, join_host_port}
use secureorder.Error.{Bytes, GoError, message, wrap}
use secureorder.Sequencing.Transaction.{EncryptedTransaction}
use secureorder.Sequencing.Commitment.{ReceptionProof, generate_reception_commitment}
use secureorder.Sequencing.Receptions.{ReceptionStore, new_reception_store, add_proof, count_proofs}

-- An address that does not split is used as the host.
abbrev pub host_or : Bytes → Option Bytes → Bytes
host_or raft_addr none = raft_addr
host_or raft_addr (some host) = host

-- The gRPC address of the leader, from its Raft address.
unfoldable pub leader_grpc_addr : Bytes → Bytes
leader_grpc_addr raft_addr =
    join_host_port (host_or raft_addr (split_host raft_addr)) (codes "12345")

-- `SubmitAck`, and the two results of a handler.
pub record SubmitAck : Type 0 where
  pub accepted : Bool

abbrev pub SubmitReply : Type 0
SubmitReply = Option SubmitAck × Option GoError

-- `JoinResponse`; a result of JoinCluster.
pub record JoinResponse : Type 0 where
  pub success : Bool
  pub error_message : Bytes

abbrev pub JoinReply : Type 0
JoinReply = Option JoinResponse × Option GoError

-- What a server meets: the state of the ordered log and of the other nodes, which every call may
-- change, and the calls.
pub record Cluster : Type 1 where
  pub World : Type 0
  pub Conn : Type 0
  pub Client : Type 0
  pub dial : Bytes → World → Result GoError Conn × World
  pub new_client : Conn → Client
  pub remote_submit : Client → Bytes → World → SubmitReply × World
  pub remote_join : Client → Bytes → Bytes → World → JoinReply × World
  pub submit_with_receipt : Bytes → World → Result GoError EncryptedTransaction × World
  pub is_leader : World → Bool
  pub leader_address : World → Bytes
  pub add_voter : Bytes → Bytes → World → Option GoError × World
  pub error_text : GoError → Bytes
  pub sha256 : Bytes → Bytes

-- The two implementations of OrderedLog, which the handlers tell apart.
pub data Backend : Type 0 where
  tx_queue : Backend
  raft_log : Backend

-- A map from addresses, with the newest entry in front.
abbrev pub AddrMap : Type 0 → Type 0
AddrMap V = List (Bytes × V)

module _ {V : Type 0} where
  unfoldable pub lookup : Bytes → AddrMap V → Option V
  lookup addr [] = none
  lookup addr ((key, v) ∷ m) =
      let rest = lookup addr m in if bytes_eq key addr then some v else rest

  unfoldable pub delete : Bytes → AddrMap V → AddrMap V
  delete addr [] = []
  delete addr ((key, v) ∷ m) =
      let rest = delete addr m in if bytes_eq key addr then rest else (key, v) ∷ rest

  -- `m[addr] = v`.
  unfoldable pub put : Bytes → V → AddrMap V → AddrMap V
  unfolding delete
  put addr v m = (addr, v) ∷ delete addr m

module _ (cl : Cluster) where
  open cl use {
    World, Conn, Client, dial, new_client, remote_submit, remote_join, submit_with_receipt,
    is_leader, leader_address, add_voter, error_text, sha256,
  }

  -- `Server`, less the log and the publisher, which stay as they are; `done`: its channel is closed.
  -- `dialed` lists the connections that were ever opened, the newest first, and `closed` those that
  -- were closed, which the code does not keep.
  pub record Server : Type 0 where
    pub proofs : ReceptionStore
    pub proxy_cache : AddrMap Client
    pub conns : AddrMap Conn
    pub done : Bool
    pub dialed : List Conn
    pub closed : List Conn

  unfoldable pub new_server : Server
  new_server = record {
    proofs = new_reception_store;
    proxy_cache = [];
    conns = [];
    done = false;
    dialed = [];
    closed = [];
  }

  keep_conn : Bytes → Result GoError Conn × World → Server → Result GoError Client × Server × World
  keep_conn addr (err e, w) s = (err e, s, w)
  keep_conn addr (ok conn, w) s = (
    ok (new_client conn),
    record s {
      proxy_cache = put addr (new_client conn) s.proxy_cache;
      conns = put addr conn s.conns;
      dialed = conn ∷ s.dialed;
    },
    w,
  )

  -- Under the write lock: look again, and dial.
  dial_once : Bytes → Option Client → Server → World → Result GoError Client × Server × World
  unfolding keep_conn
  dial_once addr (some client) s w = (ok client, s, w)
  dial_once addr none s w = keep_conn addr (dial addr w) s

  -- `seen` is the cache as the read lock found it; other calls may have run since.
  unfoldable pub get_proxy_client :
      Bytes → AddrMap Client → Server → World → Result GoError Client × Server × World
  unfolding dial_once
  get_proxy_client addr seen s w = elim (lookup addr seen) [
    | some client ↦ (ok client, s, w)
    | none ↦ dial_once addr (lookup addr s.proxy_cache) s w
  ]

  -- Close: a second one closes the closed channel `done`, which panics (`none`). The range over the
  -- connections is given in the order of the map's list; Go leaves it open.
  unfoldable pub close_server : Server → Option Server
  close_server s =
      if s.done
      then none
      else some (record s { done = true; closed = s.closed ++ map (λ c. c.1) s.conns })

  forward_failed : Bytes → GoError → SubmitReply
  forward_failed addr e = (
    none,
    some (wrap (codes "failed to connect to leader " ++ addr ++ codes " for proxying: ") e),
  )

  proof_of : EncryptedTransaction → ReceptionProof
  proof_of tx = record {
    sequence_id = tx.seq;
    arrived_unix = tx.arrived_at;
    commitment = generate_reception_commitment sha256 tx;
  }

  -- Where a goroutine that handles SubmitTx stands: at its start; where it asks for the leader's
  -- address; at getProxyClient for this address; at the call of the leader; at SubmitWithReceipt; at
  -- `proofs.Add` with the receipt; or it has returned. Other handlers run in between.
  pub data SubmitStage : Type 0 where
    received : Bytes → SubmitStage
    following : Bytes → SubmitStage
    connecting : Bytes → Bytes → SubmitStage
    forwarding : Bytes → Client → SubmitStage
    committing : Bytes → SubmitStage
    accepted : EncryptedTransaction → SubmitStage
    replied : SubmitReply → SubmitStage

  -- IsLeader is asked only of a Raft log.
  route : Backend → Bytes → World → SubmitStage
  route tx_queue ct w = committing ct
  route raft_log ct w = if is_leader w then committing ct else following ct

  connected : Bytes → Bytes → Result GoError Client × Server × World → SubmitStage × Server × World
  unfolding forward_failed
  connected addr ct (err e, s, w) = (replied (forward_failed addr e), s, w)
  connected addr ct (ok client, s, w) = (forwarding ct client, s, w)

  log_answered : Result GoError EncryptedTransaction × World → SubmitStage × World
  log_answered (err e, w) = (
    replied (
      some (record { accepted = false }),
      some (wrap (codes "failed to submit transaction: ") e),
    ),
    w,
  )
  log_answered (ok tx, w) = (accepted tx, w)

  -- SubmitTx, from where it stands to the next access to something that it shares.
  unfoldable pub submit_step :
      Backend → AddrMap Client → SubmitStage → Server → World → SubmitStage × Server × World
  unfolding proof_of route connected log_answered get_proxy_client
  submit_step backend seen (received ct) s w = (route backend ct w, s, w)
  submit_step backend seen (following ct) s w =
      if is_empty (leader_address w)
      then (replied (none, some (message (codes "no leader available in cluster"))), s, w)
      else (connecting ct (leader_grpc_addr (leader_address w)), s, w)
  submit_step backend seen (connecting ct addr) s w =
      connected addr ct (get_proxy_client addr seen s w)
  submit_step backend seen (forwarding ct client) s w =
      let (reply, w') = remote_submit client ct w in (replied reply, s, w')
  submit_step backend seen (committing ct) s w =
      let (stage, w') = log_answered (submit_with_receipt ct w) in (stage, s, w')
  submit_step backend seen (accepted tx) s w = (
    replied (some (record { accepted = true }), none),
    record s { proofs = add_proof (proof_of tx) s.proofs },
    w,
  )
  submit_step backend seen (replied reply) s w = (replied reply, s, w)

  failed_join : Bytes → JoinReply
  failed_join text = (some (record { success = false; error_message = text }), none)

  forward_join :
      Bytes → Bytes → Bytes → Result GoError Client × Server × World → JoinReply × Server × World
  forward_join addr node_id raft_address (err e, s, w) = (
    (
      none,
      some (wrap (codes "failed to connect to leader " ++ addr ++ codes " for proxying join: ") e),
    ),
    s,
    w,
  )
  forward_join addr node_id raft_address (ok client, s, w) =
      let (reply, w') = remote_join client node_id raft_address w in (reply, s, w')

  voter_added : Option GoError × World → Server → JoinReply × Server × World
  unfolding failed_join
  voter_added (none, w) s = ((some (record { success = true; error_message = [] }), none), s, w)
  voter_added (some e, w) s = (failed_join (codes "failed to add voter: " ++ error_text e), s, w)

  unfoldable pub join_cluster :
      Backend → Bytes → Bytes → AddrMap Client → Server → World → JoinReply × Server × World
  unfolding failed_join forward_join voter_added get_proxy_client
  join_cluster tx_queue node_id raft_address seen s w =
      (failed_join (codes "ordering backend does not support dynamic joins"), s, w)
  join_cluster raft_log node_id raft_address seen s w =
      if is_leader w
      then voter_added (add_voter node_id raft_address w) s
      else if is_empty (leader_address w)
      then (failed_join (codes "no leader available in cluster"), s, w)
      else let addr = leader_grpc_addr (leader_address w) in
        forward_join addr node_id raft_address (get_proxy_client addr seen s w)

  unfoldable pub proof_count : Server → ℕ
  proof_count s = count_proofs s.proofs
