-- ===== src/Process/Peers.antt =====
-- The -raft-peers flag reads back the peers that it spells.
use secureorder.Prelude.{
  ℕ, List, [], ◌∷◌, ◌++◌, false, ◌≡◌, refl, ap, ◌∙◌, All, All-append, is_empty, append_snoc,
}
use secureorder.Prelude.{ok}
use secureorder.Text.{split}
use secureorder.Text.Trim.{IsSolid, trim_space_solid}
use secureorder.Text.Cut.{Lacks, split-append, split_whole, split_first-append}
use secureorder.Error.{Bytes}
use secureorder.Sequencing.Raft.Bootstrap.{RaftPeer}
use secureorder.Process.{parse_raft_peers, parse_parts, parse_part, parse_fields, parse_trimmed}

-- A peer that the flag can spell: no white space or comma, and no `=` in the ID.
abbrev pub IsSpelled : RaftPeer → Type 0
IsSpelled p =
    (IsSolid p.peer_id × Lacks b',' p.peer_id × Lacks b'=' p.peer_id)
    × (IsSolid p.address × Lacks b',' p.address)

abbrev pub format_peer : RaftPeer → Bytes
format_peer p = p.peer_id ++ b'=' ∷ p.address

-- The peers, with commas between them.
abbrev pub format_peers : RaftPeer → List RaftPeer → Bytes
format_peers p [] = format_peer p
format_peers p (q ∷ ps) = format_peer p ++ b',' ∷ format_peers q ps

abbrev formatted : RaftPeer → List RaftPeer → List Bytes
formatted p [] = format_peer p ∷ []
formatted p (q ∷ ps) = format_peer p ∷ formatted q ps

format_peer-IsSolid : (p : RaftPeer) → IsSpelled p → IsSolid (format_peer p)
format_peer-IsSolid p h = All-append _ p.peer_id (b'=' ∷ p.address) h.0.0 (refl, h.1.0)

format_peer-Lacks : (p : RaftPeer) → IsSpelled p → Lacks b',' (format_peer p)
format_peer-Lacks p h = All-append _ p.peer_id (b'=' ∷ p.address) h.0.1 (refl, h.1.1)

format_peers-IsSolid :
    (p : RaftPeer) (ps : List RaftPeer) → All IsSpelled (p ∷ ps) → IsSolid (format_peers p ps)
format_peers-IsSolid p [] h = format_peer-IsSolid p h.0
format_peers-IsSolid p (q ∷ ps) h =
    All-append _ (format_peer p) (b',' ∷ format_peers q ps) (format_peer-IsSolid p h.0)
      (refl, format_peers-IsSolid q ps h.1)

split-format_peers :
    (p : RaftPeer) (ps : List RaftPeer)
    → All IsSpelled (p ∷ ps)
    → split b',' (format_peers p ps) ≡ formatted p ps
split-format_peers p [] h = split_whole b',' (format_peer p) (format_peer-Lacks p h.0)
split-format_peers p (q ∷ ps) h =
    split-append b',' (format_peer p) (format_peers q ps) (format_peer-Lacks p h.0)
    ∙ ap (λ l. format_peer p ∷ l) (split-format_peers q ps h.1)

nonempty : (s t : Bytes) (c : ℕ) → is_empty (s ++ c ∷ t) ≡ false
nonempty [] t c = refl
nonempty (d ∷ s) t c = refl

format_peers_nonempty : (p : RaftPeer) (ps : List RaftPeer) → is_empty (format_peers p ps) ≡ false
format_peers_nonempty p [] = nonempty p.peer_id p.address b'='
format_peers_nonempty p (q ∷ ps) = nonempty (format_peer p) (format_peers q ps) b','

parse_part-format_peer : (p : RaftPeer) → IsSpelled p → parse_part (format_peer p) ≡ ok (p ∷ [])
unfolding parse_raft_peers
parse_part-format_peer p h = rw (nonempty p.peer_id p.address b'=') (
    ap (parse_fields (format_peer p)) (split_first-append b'=' p.peer_id p.address h.0.2)
    ∙ rw (parse_fields, trim_space_solid p.peer_id h.0.0, trim_space_solid p.address h.1.0) refl)

parse_parts-cons :
    (p : RaftPeer) (parts : List Bytes) (peers : List RaftPeer)
    → IsSpelled p
    → parse_parts (format_peer p ∷ parts) peers ≡ parse_parts parts (peers ++ p ∷ [])
unfolding parse_raft_peers
parse_parts-cons p parts peers h =
    rw
      (
        parse_parts,
        ap parse_part (trim_space_solid (format_peer p) (format_peer-IsSolid p h))
            ∙ parse_part-format_peer p h,
      )
      refl

parse_parts-formatted :
    (p : RaftPeer) (ps peers : List RaftPeer)
    → All IsSpelled (p ∷ ps)
    → parse_parts (formatted p ps) peers ≡ ok (peers ++ p ∷ ps)
unfolding parse_raft_peers
parse_parts-formatted p [] peers h = parse_parts-cons p [] peers h.0
parse_parts-formatted p (q ∷ ps) peers h =
    parse_parts-cons p (formatted q ps) peers h.0
    ∙ parse_parts-formatted q ps (peers ++ p ∷ []) h.1
    ∙ ap ok (append_snoc peers p (q ∷ ps))

-- parseRaftPeers reads back, in their order, every non-empty list of peers spelled `id=address` with
-- commas between, if no ID or address holds white space or a comma and no ID holds `=`; an address
-- may.
pub parse_raft_peers-format_peers :
    (p : RaftPeer) (ps : List RaftPeer)
    → All IsSpelled (p ∷ ps)
    → parse_raft_peers (format_peers p ps) ≡ ok (p ∷ ps)
unfolding parse_raft_peers
parse_raft_peers-format_peers p ps h =
    ap parse_trimmed (trim_space_solid (format_peers p ps) (format_peers-IsSolid p ps h))
    ∙ rw (format_peers_nonempty p ps) (
        ap (λ parts. parse_parts parts []) (split-format_peers p ps h)
        ∙ parse_parts-formatted p ps [] h)
