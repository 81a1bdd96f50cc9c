-- ===== src/Rpc/Submit.antt =====
-- What SubmitTx records, over every interleaving of the goroutines that handle it.
use secureorder.Prelude.{
  ℕ, zero, suc, ◌+◌, List, [], ◌∷◌, ◌++◌, Bool, Option, none, some, ◌≡◌, refl, ap, arith, map,
  map-append, if◌then◌else◌, Bool-cases, Option-cases, inl, inr, of_some, of_none, is_empty,
}
use secureorder.Prelude.{Result, ok, err}
use secureorder.Error.{Bytes, GoError}
use secureorder.Sequencing.Transaction.{EncryptedTransaction}
use secureorder.Sequencing.Commitment.{ReceptionProof, generate_reception_commitment}
use secureorder.Sequencing.Receptions.{add_proof}
use secureorder.Rpc.{
  Backend, tx_queue, raft_log, AddrMap, lookup, Cluster, Server, SubmitStage, received, following,
  connecting, forwarding, committing, accepted, replied, submit_step, get_proxy_client, keep_conn,
  dial_once, route, connected, log_answered,
}

-- How many proofs pass a test.
abbrev pub tally : (ReceptionProof → Bool) → List ReceptionProof → ℕ
tally test [] = 0
tally test (p ∷ ps) = (if test p then 1 else 0) + tally test ps

tally-append :
    (test : ReceptionProof → Bool) (ps qs : List ReceptionProof)
    → tally test (ps ++ qs) ≡ tally test ps + tally test qs
tally-append test [] qs = omega arith
tally-append test (p ∷ ps) qs = omega (arith, tally-append test ps qs)

module _ (cl : Cluster) where
  open cl use {World, Client, Conn, sha256, submit_with_receipt, dial, leader_address, is_leader}

  -- The server, its handlers in the order in which their requests came, and the cluster. `granted`
  -- lists what SubmitWithReceipt has returned to them, which the code does not keep.
  pub record Handlers : Type 0 where
    pub server : Server cl
    pub stages : List (SubmitStage cl)
    pub world : World
    pub granted : List EncryptedTransaction

  -- A request comes; a handler goes on, with the cache as its read lock finds it; another node or
  -- the log changes the state of the cluster.
  pub data HandlerEvent : Type 0 where
    arrives : Bytes → HandlerEvent
    goes_on : ℕ → AddrMap Client → HandlerEvent
    world_changes : World → HandlerEvent

  unfoldable pub start : Server cl → World → Handlers
  start s w = record { server = s; stages = []; world = w; granted = [] }

  granted_by : Result GoError EncryptedTransaction → List EncryptedTransaction
  granted_by (ok tx) = tx ∷ []
  granted_by (err e) = []

  -- What SubmitWithReceipt returns to a handler that stands before it.
  grants : SubmitStage cl → World → List EncryptedTransaction
  unfolding granted_by
  grants (committing ct) w = granted_by (submit_with_receipt ct w).0
  grants _ w = []

  -- The `i`-th handler goes on.
  unfoldable pub handler_step :
      Backend → ℕ → AddrMap Client → List (SubmitStage cl) → Handlers → Option Handlers
  unfolding grants
  handler_step backend i seen [] h = none
  handler_step backend zero seen (stage ∷ stages) h =
      let (stage', s, w) = submit_step cl backend seen stage h.server h.world in
      some (record {
        server = s;
        stages = stage' ∷ stages;
        world = w;
        granted = h.granted ++ grants stage h.world;
      })
  handler_step backend (suc i) seen (stage ∷ stages) h =
      elim (handler_step backend i seen stages h) [
        | none ↦ none
        | some h' ↦ some (record h' { stages = stage ∷ h'.stages })
      ]

  unfoldable pub handlers_step : Backend → HandlerEvent → Handlers → Option Handlers
  unfolding handler_step
  handlers_step backend (arrives ct) h = some (record h { stages = h.stages ++ received ct ∷ [] })
  handlers_step backend (goes_on i seen) h = handler_step backend i seen h.stages h
  handlers_step backend (world_changes w) h = some (record h { world = w })

  unfoldable pub run_handlers : Backend → List HandlerEvent → Handlers → Option Handlers
  unfolding handlers_step
  run_handlers backend [] h = some h
  run_handlers backend (e ∷ es) h = elim (handlers_step backend e h) [
    | none ↦ none
    | some h' ↦ run_handlers backend es h'
  ]

  -- The proof of reception of one transaction.
  abbrev pub reception_proof : EncryptedTransaction → ReceptionProof
  reception_proof tx = record {
    sequence_id = tx.seq;
    arrived_unix = tx.arrived_at;
    commitment = generate_reception_commitment sha256 tx;
  }

  pub in_hand : SubmitStage cl → List ReceptionProof
  in_hand (accepted tx) = reception_proof tx ∷ []
  in_hand _ = []

  -- The proofs of the receipts that handlers hold before they have added them.
  unfoldable pub pending : List (SubmitStage cl) → List ReceptionProof
  unfolding in_hand
  pending [] = []
  pending (stage ∷ stages) = in_hand stage ++ pending stages

  dial_once-proofs :
      (addr : Bytes) (found : Option Client) (s : Server cl) (w : World)
      → (dial_once cl addr found s w).1.proofs ≡ s.proofs
  unfolding get_proxy_client
  dial_once-proofs addr (some client) s w = refl
  dial_once-proofs addr none s w = kept (dial addr w)
    where
      kept : (r : Result GoError Conn × World) → (keep_conn cl addr r s).1.proofs ≡ s.proofs
      kept (ok conn, w') = refl
      kept (err e, w') = refl

  get_proxy_client-proofs :
      (addr : Bytes) (seen : AddrMap Client) (s : Server cl) (w : World)
      → (get_proxy_client cl addr seen s w).1.proofs ≡ s.proofs
  unfolding get_proxy_client
  get_proxy_client-proofs addr seen s w = elim (Option-cases (lookup addr seen)) [
    | inl absent ↦
        rw (absent, get_proxy_client) (dial_once-proofs addr (lookup addr s.proxy_cache) s w)
    | inr (client, found) ↦ rw (found, get_proxy_client) refl
  ]

  module _ (backend : Backend) (test : ReceptionProof → Bool) where
    -- The proofs in the store and in the handlers' hands that pass the test.
    abbrev weight : Server cl → List ReceptionProof → ℕ
    weight s ps = tally test s.proofs.proofs + tally test ps

    abbrev worth : List EncryptedTransaction → ℕ
    worth txs = tally test (map reception_proof txs)

    -- A step of a handler: what it holds and stores afterwards is what it did before and was granted.
    abbrev IsKept :
        Server cl
        → List ReceptionProof
        → List EncryptedTransaction
        → SubmitStage cl × Server cl × World
        → Type 0
    IsKept s ps txs r = weight r.1 (in_hand r.0) ≡ weight s ps + worth txs

    connected-IsKept :
        (addr ct : Bytes) (s : Server cl) (r : Result GoError Client × Server cl × World)
        → r.1.proofs ≡ s.proofs
        → IsKept s [] [] (connected cl addr ct r)
    unfolding submit_step pending
    connected-IsKept addr ct s (err e, s', w) same = rw same (omega arith)
    connected-IsKept addr ct s (ok client, s', w) same = rw same (omega arith)

    log_answered-IsKept :
        (s : Server cl) (r : Result GoError EncryptedTransaction × World)
        → IsKept s [] (granted_by r.0) ((log_answered cl r).0, s, (log_answered cl r).1)
    unfolding submit_step pending handlers_step
    log_answered-IsKept s (err e, w) = omega arith
    log_answered-IsKept s (ok tx, w) = omega arith

    route-IsKept :
        (b : Backend) (ct : Bytes) (s : Server cl) (w : World)
        → IsKept s [] [] (route cl b ct w, s, w)
    unfolding submit_step pending
    route-IsKept tx_queue ct s w = omega arith
    route-IsKept raft_log ct s w = elim (Bool-cases (is_leader w)) [
      | inl leads ↦ rw leads (omega arith)
      | inr follows ↦ rw follows (omega arith)
    ]

    submit_step-IsKept :
        (seen : AddrMap Client) (stage : SubmitStage cl) (s : Server cl) (w : World)
        → IsKept s (in_hand stage) (grants stage w) (submit_step cl backend seen stage s w)
    unfolding submit_step pending handlers_step add_proof
    submit_step-IsKept seen (received ct) s w = route-IsKept backend ct s w
    submit_step-IsKept seen (following ct) s w = elim (Bool-cases (is_empty (leader_address w))) [
      | inl no_leader ↦ rw no_leader (omega arith)
      | inr led ↦ rw led (omega arith)
    ]
    submit_step-IsKept seen (connecting ct addr) s w =
        connected-IsKept addr ct s (get_proxy_client cl addr seen s w)
          (get_proxy_client-proofs addr seen s w)
    submit_step-IsKept seen (forwarding ct client) s w = omega arith
    submit_step-IsKept seen (committing ct) s w = log_answered-IsKept s (submit_with_receipt ct w)
    submit_step-IsKept seen (accepted tx) s w =
        omega (arith, tally-append test s.proofs.proofs (reception_proof tx ∷ []))
    submit_step-IsKept seen (replied reply) s w = omega arith

    worth-append : (xs ys : List EncryptedTransaction) → worth (xs ++ ys) ≡ worth xs + worth ys
    worth-append xs ys =
        rw (map-append reception_proof xs ys)
          (tally-append test (map reception_proof xs) (map reception_proof ys))

    -- Between two states, the second with these handlers in place of those: as much came into the
    -- store and the handlers' hands as was granted.
    abbrev IsBooked : List (SubmitStage cl) → Handlers → Handlers → Type 0
    IsBooked stages h h' =
        weight h'.server (pending h'.stages) + worth h.granted
        ≡ weight h.server (pending stages) + worth h'.granted

    handler_step-IsBooked :
        (i : ℕ) (seen : AddrMap Client) (stages : List (SubmitStage cl)) (h h' : Handlers)
        → handler_step backend i seen stages h ≡ some h'
        → IsBooked stages h h'
    unfolding handlers_step pending
    handler_step-IsBooked i seen [] h h' e = of_none (IsBooked [] h) e
    handler_step-IsBooked zero seen (stage ∷ stages) h h' e =
        let r = submit_step cl backend seen stage h.server h.world in
        of_some (IsBooked (stage ∷ stages) h) e (
          omega (
            arith,
            submit_step-IsKept seen stage h.server h.world,
            worth-append h.granted (grants stage h.world),
            tally-append test (in_hand stage) (pending stages),
            tally-append test (in_hand r.0) (pending stages),
          ))
    handler_step-IsBooked (suc i) seen (stage ∷ stages) h h' e =
        elim (Option-cases (handler_step backend i seen stages h)) [
          | inl stuck ↦ cc (rw (stuck, handler_step) at e)
          | inr (p, done) ↦ of_some (IsBooked (stage ∷ stages) h) (rw (done, handler_step) at e) (
              omega (
                arith,
                handler_step-IsBooked i seen stages h p done,
                tally-append test (in_hand stage) (pending stages),
                tally-append test (in_hand stage) (pending p.stages),
              ))
        ]

    pending-received :
        (ct : Bytes) (stages : List (SubmitStage cl))
        → pending (stages ++ received ct ∷ []) ≡ pending stages
    unfolding pending
    pending-received ct [] = refl
    pending-received ct (stage ∷ stages) =
        ap (λ ps. in_hand stage ++ ps) (pending-received ct stages)

    handlers_step-IsBooked :
        (e : HandlerEvent) (h h' : Handlers)
        → handlers_step backend e h ≡ some h'
        → IsBooked h.stages h h'
    unfolding handlers_step
    handlers_step-IsBooked (arrives ct) h h' st =
        of_some (IsBooked h.stages h) st (rw (pending-received ct h.stages) (omega arith))
    handlers_step-IsBooked (goes_on i seen) h h' st = handler_step-IsBooked i seen h.stages h h' st
    handlers_step-IsBooked (world_changes w) h h' st =
        of_some (IsBooked h.stages h) st (omega arith)

    run_handlers-IsBooked :
        (es : List HandlerEvent) (h h' : Handlers)
        → run_handlers backend es h ≡ some h'
        → IsBooked h.stages h h'
    unfolding run_handlers
    run_handlers-IsBooked [] h h' run = of_some (IsBooked h.stages h) run (omega arith)
    run_handlers-IsBooked (e ∷ es) h h' run = elim (Option-cases (handlers_step backend e h)) [
      | inl stuck ↦ cc (rw (stuck, run_handlers) at run)
      | inr (p, st) ↦ omega (
        arith,
        handlers_step-IsBooked e h p st,
        run_handlers-IsBooked es p h' (rw (st, run_handlers) at run),
      )
    ]

  -- Over every interleaving of the goroutines that handle SubmitTx, whoever leads at each step and
  -- whatever the log and the other nodes do meanwhile: the proofs in the reception store and those
  -- of the receipts that handlers still hold are, in some order, the ones that the store held
  -- before and one for each transaction that this node's own log granted, with its ID, its time and
  -- its commitment; for every test on proofs, as many of the ones pass as of the others.
  pub run_handlers-proofs :
      (backend : Backend) (es : List HandlerEvent) (s : Server cl) (w : World) (h : Handlers)
      (test : ReceptionProof → Bool)
      → run_handlers backend es (start s w) ≡ some h
      → tally test (h.server.proofs.proofs ++ pending h.stages)
        ≡ tally test (s.proofs.proofs ++ map reception_proof h.granted)
  unfolding start pending
  run_handlers-proofs backend es s w h test run = omega (
    arith,
    run_handlers-IsBooked backend test es (start s w) h run,
    tally-append test h.server.proofs.proofs (pending h.stages),
    tally-append test s.proofs.proofs (map reception_proof h.granted),
  )
