-- ===== src/Rpc/Address.antt =====
-- The address to which a follower forwards a request.
use secureorder.Prelude.{◌∷◌, ◌++◌, true, Option, ◌≡◌, refl, ap, ◌∙◌}
use secureorder.Text.{codes, contains_byte}
use secureorder.Error.{Bytes}
use secureorder.Text.HostPort.{
  IsPlain, IsUnbracketed, join_host_port, split_host, split_host-append, split_host_bracketed,
  split_host_portless, join_host_port_bare,
}
use secureorder.Rpc.{leader_grpc_addr, host_or}

joined :
    (raft_addr : Bytes) (h : Option Bytes)
    → split_host raft_addr ≡ h
    → leader_grpc_addr raft_addr ≡ join_host_port (host_or raft_addr h) (codes "12345")
unfolding leader_grpc_addr
joined raft_addr h e = ap (λ h'. join_host_port (host_or raft_addr h') (codes "12345")) e

-- A follower reaches the leader on the host of its Raft address, at port 12345: whether the host is
-- a name or an IPv4 address, an IPv6 address in brackets, which stay, or the address has no port;
-- the host and the port hold no brackets, and no colon but those of the IPv6 address.
pub leader_grpc_addr-host :
    (host host6 port : Bytes)
    → IsPlain host
    → IsPlain port
    → IsUnbracketed host6
    → contains_byte b':' host6 ≡ true
    → (leader_grpc_addr (host ++ b':' ∷ port) ≡ host ++ codes ":12345")
      × (leader_grpc_addr (b'[' ∷ host6 ++ b']' ∷ b':' ∷ port) ≡ b'[' ∷ host6 ++ codes "]:12345")
      × (leader_grpc_addr host ≡ host ++ codes ":12345")
unfolding join_host_port
leader_grpc_addr-host host host6 port hh hp h6 colon = (
  joined _ _ (split_host-append host port hh hp) ∙ join_host_port_bare host (codes "12345") hh.0,
  joined _ _ (split_host_bracketed host6 port h6 hp) ∙ rw colon refl,
  joined _ _ (split_host_portless host hh) ∙ join_host_port_bare host (codes "12345") hh.0,
)
