-- ===== src/Rpc/Tests.antt =====
-- The handlers in a small cluster: its state counts the committed transactions, and this node leads
-- as soon as there is one.
use secureorder.Prelude.{
  ℕ, ◌+◌, List, [], ◌∷◌, ◌++◌, true, not, Option, none, some, ◌==◌, ◌≡◌, refl, map,
}
use secureorder.Prelude.{ok}
use secureorder.Prelude.Int.{pos}
use secureorder.Text.{codes, contains_byte}
use secureorder.Error.{Bytes, GoError}
use secureorder.Text.HostPort.{IsPlain, IsUnbracketed}
use secureorder.Rpc.{
  Cluster, Server, accepted, replied, submit_step, new_server, raft_log, lookup, get_proxy_client,
  close_server, put, put, join_cluster,
}
use secureorder.Rpc.Proxy.{Lookup, get_all, get_all-Tracked, HasDistinctKeys, map_values}
use secureorder.Rpc.Submit.{
  HandlerEvent, arrives, goes_on, world_changes, Handlers, start, run_handlers, pending, tally,
  reception_proof, run_handlers-proofs,
}
use secureorder.Sequencing.Transaction.{EncryptedTransaction}
use secureorder.Sequencing.Receptions.{add_proof, new_reception_store}
use secureorder.Rpc.Join.{IsJoined}

abbrev cluster : Cluster
cluster = record {
  World = ℕ;
  Conn = Bytes;
  Client = Bytes;
  dial = λ addr w. (ok addr, w);
  new_client = λ conn. conn;
  remote_submit = λ client ct w. ((some (record { accepted = true }), none), w + 1);
  remote_join = λ client n a w. ((some (record { success = true; error_message = [] }), none), w);
  submit_with_receipt =
      λ ct w. (ok (record { seq = w; ciphertext = ct; arrived_at = pos 7 }), w + 1);
  is_leader = λ w. not (w == 0);
  leader_address = λ w. codes "h:7000";
  add_voter = λ n a w. (none, w);
  error_text = λ e. [];
  sha256 = λ m. m;
}

-- Two handlers; the second gets its receipt before the first, and has not stored it at the end.
abbrev events : List (HandlerEvent cluster)
events =
    arrives (codes "a")
    ∷ arrives (codes "b")
    ∷ world_changes 4
    ∷ goes_on 0 []
    ∷ goes_on 1 []
    ∷ goes_on 1 []
    ∷ goes_on 0 []
    ∷ goes_on 0 []
    ∷ []

abbrev accepted_tx : ℕ → Bytes → EncryptedTransaction
accepted_tx n ct = record { seq = n; ciphertext = ct; arrived_at = pos 7 }

abbrev after : Handlers cluster
after = record {
  server = record (new_server cluster) {
    proofs = record { proofs = reception_proof cluster (accepted_tx 5 (codes "a")) ∷ [] };
  };
  stages =
      replied (some (record { accepted = true }), none) ∷ accepted (accepted_tx 4 (codes "b")) ∷ [];
  world = 6;
  granted = accepted_tx 4 (codes "b") ∷ accepted_tx 5 (codes "a") ∷ [];
}

handled : run_handlers cluster raft_log events (start cluster (new_server cluster) 0) ≡ some after
unfolding run_handlers submit_step start new_server add_proof new_reception_store
handled = refl

run_handlers-proofs_example :
    tally (λ p. p.sequence_id == 5) (after.server.proofs.proofs ++ pending cluster after.stages)
    ≡ tally
        (λ p. p.sequence_id == 5)
        ((new_server cluster).proofs.proofs ++ map (reception_proof cluster) after.granted)
run_handlers-proofs_example =
    run_handlers-proofs cluster raft_log events (new_server cluster) 0 after
      (λ p. p.sequence_id == 5) handled

abbrev lookups : List (Lookup cluster)
lookups =
    record { address = codes "h:12345"; seen = []; met = 0 }
    ∷ record { address = codes "h:12345"; seen = []; met = 0 }
    ∷ record { address = codes "g:12345"; seen = []; met = 0 }
    ∷ []

abbrev cached : Server cluster
cached = get_all cluster lookups (new_server cluster)

two_dialed : cached.dialed ≡ codes "g:12345" ∷ codes "h:12345" ∷ []
unfolding get_all get_proxy_client lookup new_server put
two_dialed = refl

get_all-Tracked_example :
    HasDistinctKeys cached.conns
    × (cached.proxy_cache ≡ map_values (λ conn. conn) cached.conns)
    × (s : Server cluster) × (close_server cluster cached ≡ some s)
    × (s.closed ≡ cached.dialed)
    × (close_server cluster s ≡ none)
get_all-Tracked_example = get_all-Tracked cluster lookups

bare_host : IsPlain (codes "h")
bare_host = ((refl, _), ((refl, _), (refl, _)))

bare_port : IsPlain (codes "70")
bare_port = ((refl, (refl, _)), ((refl, (refl, _)), (refl, (refl, _))))

bare_v6 : IsUnbracketed (codes "::1")
bare_v6 = ((refl, (refl, (refl, _))), (refl, (refl, (refl, _))))

colon_v6 : contains_byte b':' (codes "::1") ≡ true
unfolding contains_byte
colon_v6 = refl

forwarded :
    IsJoined cluster
      (codes "n2")
      (codes "g:7000")
      []
      (new_server cluster)
      0
      (join_cluster cluster raft_log (codes "n2") (codes "g:7000") [] (new_server cluster) 0).0
unfolding join_cluster get_proxy_client lookup new_server
forwarded = (_, refl, refl)

abbrev no_error : Option GoError
no_error = none
