-- ===== src/Rpc/Join.antt =====
-- When JoinCluster reports success.
use secureorder.Prelude.{
  true, false, Option, none, some, ◌≡◌, refl, ◌⊎◌, inl, inr, is_empty, Bool-cases,
}
use secureorder.Prelude.{Result, ok, err}
use secureorder.Error.{Bytes, GoError}
use secureorder.Rpc.{
  Backend, tx_queue, raft_log, AddrMap, Cluster, Server, JoinResponse, JoinReply, join_cluster,
  voter_added, forward_join, failed_join, get_proxy_client, leader_grpc_addr,
}

module _ (cl : Cluster) (node_id raft_address : Bytes) (seen : AddrMap cl.Client) (s : Server cl)
    (w : cl.World) where
  open cl use {World, Client, remote_join, is_leader, leader_address, add_voter}

  -- The reply says that the node has joined.
  abbrev pub IsJoined : JoinReply → Type 0
  IsJoined reply = (r : JoinResponse) × (reply ≡ (some r, none)) × (r.success ≡ true)

  failed_join-IsJoined : {P : Type 0} (text : Bytes) → IsJoined (failed_join cl text) → P
  unfolding join_cluster
  failed_join-IsJoined text (r, e, joined) = cc

  voter_added-IsJoined : (a : Option GoError × World) → IsJoined (voter_added cl a s).0 → a.0 ≡ none
  unfolding join_cluster
  voter_added-IsJoined (none, w') h = refl
  voter_added-IsJoined (some e, w') h = failed_join-IsJoined _ h

  forward_join-IsJoined :
      (addr : Bytes) (q : Result GoError Client × Server cl × World)
      → IsJoined (forward_join cl addr node_id raft_address q).0
      → (client : Client) × (w' : World) × (q.0 ≡ ok client)
        × IsJoined (remote_join client node_id raft_address w').0
  unfolding join_cluster
  forward_join-IsJoined addr (ok client, s', w') h = (client, w', refl, h)
  forward_join-IsJoined addr (err e, s', w') (r, same, joined) = cc

  -- JoinCluster reports success only over a Raft log, and then either this node leads and AddVoter
  -- succeeded, or it knows a leader, reached it at its gRPC address, and that node's own JoinCluster
  -- reported success.
  pub join_cluster-IsJoined :
      (backend : Backend)
      → IsJoined (join_cluster cl backend node_id raft_address seen s w).0
      → (backend ≡ raft_log)
        × (((is_leader w ≡ true) × ((add_voter node_id raft_address w).0 ≡ none))
            ⊎ ((is_leader w ≡ false)
                × (is_empty (leader_address w) ≡ false)
                × (client : Client) × (w' : World) × ((get_proxy_client cl
                      (leader_grpc_addr (leader_address w))
                      seen
                      s
                      w).0
                    ≡ ok client)
                × IsJoined (remote_join client node_id raft_address w').0))
  unfolding join_cluster
  join_cluster-IsJoined tx_queue h = failed_join-IsJoined _ h
  join_cluster-IsJoined raft_log h = elim (Bool-cases (is_leader w)) [
    | inl leads ↦
        (refl, inl (leads, voter_added-IsJoined (add_voter node_id raft_address w) (rw leads at h)))
    | inr follows ↦ elim (Bool-cases (is_empty (leader_address w))) [
      | inl no_leader ↦ failed_join-IsJoined _ (rw (follows, no_leader) at h)
      | inr led ↦
          let (client, w', reached, told) =
            forward_join-IsJoined _
              (get_proxy_client cl (leader_grpc_addr (leader_address w)) seen s w)
              (rw (follows, led) at h) in
          (refl, inr (follows, led, client, w', reached, told))
    ]
  ]
