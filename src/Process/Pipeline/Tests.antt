-- ===== src/Process/Pipeline/Tests.antt =====
-- The two loops on concrete logs: a queue with 1000 transactions becomes one batch.
use Prim.{tt}
use secureorder.Prelude.{
  ℕ, zero, suc, List, [], ◌∷◌, ◌++◌, false, some, ◌≡◌, refl, replicate, All, All-replicate,
  All-append, map, length, append-nil, append_snoc, ◌∙◌, ◌⊎◌, sym, arith,
}
use secureorder.Prelude.Int.{pos}
use secureorder.Error.{Bytes}
use secureorder.Sequencing.Transaction.{EncryptedTransaction}
use secureorder.Sequencing.Queue.{TxQueue, waiting}
use secureorder.Sequencing.Queue.Drain.{receive_ch, drain_wait, drain_wait_loop}
use secureorder.Sequencing.Mempool.{add, try_drain, new_encrypted_mempool}
use secureorder.Sequencing.Log.Queue.{tx_queue_log, tx_queue_log-IsOrderedLog}
use secureorder.Sequencing.Commitment.{generate_batch_commitment}
use secureorder.Process.Pipeline.Agreement.{revealed_batches, batches_agree}
use secureorder.Process.Pipeline.Reports.{refused_ids, refused_by_single}
use secureorder.Process.Pipeline.Reports.Runs.{
  IsLongTx, IsSealedTx, run_pipeline-refused, run_pipeline-sealed,
}
use secureorder.Privacy.Decrypt.{seal}
use secureorder.Privacy.Native.{seal_transaction}
use secureorder.Privacy.Toy.{toy_documented, toy_keys, toy, zeros}
use secureorder.Privacy.Memory.{CMemory}
use secureorder.Process.Pipeline.{
  Pipeline, PipelineEvent, ingress_drains, ingress_adds, reveal_checks, batch_opened, reveal_polls,
  reveals, draining, checking, run_pipeline, new_pipeline, decrypt_stage,
}
use secureorder.Process.Pipeline.Marks.{leader_answers}
use secureorder.Process.Pipeline.Views.{batches_of, commitments, IsFull}
use secureorder.Process.Pipeline.Steps.{in_flight}
use secureorder.Process.Pipeline.Order.{run_pipeline-IsInOrder}

abbrev tx : EncryptedTransaction
tx = record { seq = 1; ciphertext = zeros ++ 5 ∷ []; arrived_at = pos 5 }

-- A queue that has committed `n` transactions.
abbrev filled : ℕ → TxQueue
filled n = record {
  capacity = 1000;
  ch = replicate n tx;
  ch_closed = false;
  submit_ch = [];
  done = false;
  next_id = 1;
  loop = waiting;
  calls = 0;
  taken = [];
  responses = [];
}

abbrev no_memory : CMemory
no_memory = record { next = 0; mallocs = []; frees = [] }

abbrev fixed_hash : Bytes → Bytes
fixed_hash m = 5 ∷ []

abbrev Node : Type 0
Node = Pipeline tx_queue_log false fixed_hash toy (replicate 32 7) (replicate 32 8)

abbrev Step : Type 0
Step = PipelineEvent tx_queue_log false fixed_hash toy (replicate 32 7) (replicate 32 8)

collected : ℕ → List Step → List Step
unfolding tx_queue_log
collected zero after = after
collected (suc n) after =
    ingress_drains (receive_ch ∷ [], tt) ∷ ingress_adds ∷ ingress_adds ∷ collected n after

evs : List Step
unfolding collected
evs = collected 1000 (reveal_checks ∷ reveal_polls ∷ reveals false 4 ∷ [])

-- A local node between two transactions, with these in its queue and its mempool, and those taken.
between : List EncryptedTransaction → List EncryptedTransaction → List EncryptedTransaction → Node
unfolding tx_queue_log
between ch items taken = record {
  log = record (filled 0) { ch = ch; taken = taken };
  ingress = draining;
  mempool = record { items = items };
  reveal = checking;
  cancelled = false;
  memory = no_memory;
  revealed = [];
  published = [];
  reports = [];
}

collects :
    (n : ℕ) (items taken : List EncryptedTransaction) (after : List Step)
    → run_pipeline tx_queue_log false fixed_hash toy
        (replicate 32 7)
        (replicate 32 8)
        (collected n after)
        (between (replicate n tx) items taken)
      ≡ run_pipeline tx_queue_log false fixed_hash toy
          (replicate 32 7)
          (replicate 32 8)
          after
          (between [] (items ++ replicate n tx) (taken ++ replicate n tx))
unfolding between collected run_pipeline tx_queue_log drain_wait drain_wait_loop add
collects zero items taken after = rw (append-nil items, append-nil taken) refl
collects (suc n) items taken after =
    collects n (items ++ tx ∷ []) (taken ++ tx ∷ []) after
    ∙ rw (append_snoc items tx (replicate n tx), append_snoc taken tx (replicate n tx)) refl

node : Node
unfolding tx_queue_log
node = record {
  log = record (filled 0) { taken = replicate 1000 tx };
  ingress = draining;
  mempool = record { items = [] };
  reveal = checking;
  cancelled = false;
  memory = (decrypt_stage toy (replicate 32 7) (replicate 32 8) 4 (replicate 1000 tx) no_memory).1;
  revealed = (false, replicate 1000 tx) ∷ [];
  published = generate_batch_commitment fixed_hash (replicate 1000 tx) ∷ [];
  reports = (decrypt_stage toy (replicate 32 7) (replicate 32 8) 4 (replicate 1000 tx) no_memory).0;
}

reveals_batch :
    run_pipeline tx_queue_log false fixed_hash toy
      (replicate 32 7)
      (replicate 32 8)
      (reveal_checks ∷ reveal_polls ∷ reveals false 4 ∷ [])
      (between [] (replicate 1000 tx) (replicate 1000 tx))
    ≡ some node
unfolding node between run_pipeline try_drain
reveals_batch = refl

full_queue : tx_queue_log.Log
unfolding tx_queue_log
full_queue = filled 1000

ran :
    run_pipeline tx_queue_log false fixed_hash toy (replicate 32 7) (replicate 32 8) evs (
      new_pipeline tx_queue_log false fixed_hash toy
        (replicate 32 7)
        (replicate 32 8)
        full_queue
        no_memory)
    ≡ some node
unfolding between full_queue new_pipeline new_encrypted_mempool tx_queue_log evs collected
ran = collects 1000 [] [] (reveal_checks ∷ reveal_polls ∷ reveals false 4 ∷ []) ∙ reveals_batch

run_pipeline-IsInOrder_example :
    (tx_queue_log.stream node.log
      ≡ batches_of node.revealed
        ++ (in_flight tx_queue_log tx_queue_log-IsOrderedLog false fixed_hash toy
              (replicate 32 7)
              (replicate 32 8)
              node
            ++ tx_queue_log.ahead node.log))
    × All IsFull node.revealed
    × (map (λ r. r.0) node.revealed
        ≡ leader_answers tx_queue_log false fixed_hash toy (replicate 32 7) (replicate 32 8) evs)
    × (node.published ≡ commitments false fixed_hash node.revealed)
unfolding full_queue tx_queue_log
run_pipeline-IsInOrder_example =
    run_pipeline-IsInOrder tx_queue_log tx_queue_log-IsOrderedLog false fixed_hash toy
      (replicate 32 7) (replicate 32 8) evs full_queue no_memory node refl ran

batches_agree_example :
    ((later : List (List EncryptedTransaction)) × (revealed_batches node.revealed
        ≡ revealed_batches node.revealed ++ later))
    ⊎ ((later : List (List EncryptedTransaction)) × (revealed_batches node.revealed
          ≡ revealed_batches node.revealed ++ later))
unfolding full_queue tx_queue_log
batches_agree_example =
    batches_agree tx_queue_log tx_queue_log tx_queue_log-IsOrderedLog tx_queue_log-IsOrderedLog
      fixed_hash false false toy toy (replicate 32 7) (replicate 32 8) (replicate 32 7)
      (replicate 32 8) evs evs full_queue full_queue no_memory no_memory node node [] refl refl ran
      ran (sym (append-nil (tx_queue_log.stream node.log)))

run_pipeline-refused_example :
    refused_ids node.reports
    ≡ refused_by_single toy (replicate 32 7) (replicate 32 8) no_memory (batches_of node.revealed)
unfolding full_queue tx_queue_log node
run_pipeline-refused_example =
    run_pipeline-refused toy (replicate 32 7) (replicate 32 8) no_memory refl refl tx_queue_log
      tx_queue_log-IsOrderedLog false fixed_hash evs full_queue no_memory node refl ran
      (All-append IsLongTx (replicate 1000 tx) []
        (All-replicate IsLongTx 1000 tx (omega arith, omega arith)) tt)

run_pipeline-sealed_example : node.reports ≡ map (λ r. batch_opened (length r.1)) node.revealed
unfolding full_queue tx_queue_log node seal seal_transaction
run_pipeline-sealed_example =
    run_pipeline-sealed toy toy_documented (replicate 32 7) (replicate 32 8) toy_keys tx_queue_log
      tx_queue_log-IsOrderedLog false fixed_hash evs full_queue no_memory node refl ran
      (All-append (IsSealedTx toy toy_documented (replicate 32 7) (replicate 32 8) toy_keys)
        (replicate 1000 tx) []
        (All-replicate (IsSealedTx toy toy_documented (replicate 32 7) (replicate 32 8) toy_keys)
          1000 tx (5 ∷ [], 3, omega arith, refl))
        tt)
