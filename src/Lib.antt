-- ===== src/Lib.antt =====
-- Secure-Order: a model of the sequencer's Go sources, and what is proved of it.
--
-- The program. Clients send encrypted transactions to a sequencer over gRPC (internal/rpc/server.go).
-- The server has them committed by an ordered log (pkg/sequencing/log.go), which gives each a sequence
-- ID: a local queue (queue.go) or a log replicated by Raft (raft_log.go). The server keeps a proof of
-- reception of each (reception_store.go, commitment.go). A loop of cmd/sequencer moves committed
-- transactions into the encrypted mempool (encrypted_mempool.go) and another takes batches from it,
-- hands the commitment of each over for publication on a chain (internal/settlement), and decrypts
-- it by the privacy layer in C++ (cpp/src/privacy) behind its Go wrapper (pkg/privacy).
--
-- The files.
--   Prelude, Error, Text, Encoding: shared names and lemmas on lists, Booleans and integers; Go's
--     errors; what the program calls of packages strings (on ASCII text) and net; little-endian
--     integers, hex and decimal digits.
--   Sequencing/Transaction, Queue and its children: pkg/sequencing/queue.go. A TxQueue is the state of
--     its channels and of the admission goroutine; runAdmissionLoop, SubmitWithReceipt, Drain and Close
--     are steps on it, and a schedule of goroutines is a list of events. Sent, Calls, Submitters,
--     Payloads and Counting add the callers of SubmitWithReceipt, Drain, Waits and WaitSteps the
--     consumers, Shutdown what follows Close.
--   Sequencing/Mempool and its children: pkg/sequencing/encrypted_mempool.go.
--   Sequencing/Commitment and its children: GenerateReceptionCommitment, GenerateBatchCommitment and,
--     in Legacy, GenerateCommitment of pkg/sequencing/commitment.go. SHA-256 is a parameter.
--   Sequencing/Receptions: pkg/sequencing/reception_store.go.
--   Sequencing/Raft and its children: pkg/sequencing/raft_log.go. Raft.antt has the state machine
--     (Apply, Snapshot, Restore), Replica its life under the log, Node SubmitWithReceipt, Leadership
--     the leadership calls, Bootstrap the configuration and the first voters, Opening the rest of
--     NewRaftOrderedLog and Close, Waits DrainWait.
--   Sequencing/Log and its children: the interface OrderedLog of pkg/sequencing/log.go, for its consumer,
--     with the contract of its comment as laws; Log/Queue and Log/Raft fill it with TxQueue and
--     RaftOrderedLog.
--   Settlement and its children: internal/settlement (the factory and both builds of the Ethereum
--     publisher) and the choice that NewServer makes. The Ethereum node is a parameter.
--   Rpc and its children: SubmitTx, JoinCluster, getProxyClient, Close and ProofCount of
--     internal/rpc/server.go. The log, Raft's view of the leader and the other nodes are parameters.
--   Privacy and its children: Native has the C functions of cpp/src/privacy/encryption.cpp and keygen.cpp,
--     Memory, Keys and Decrypt pkg/privacy/privacy_cgo.go with the C memory it asks for; Sodium says what is
--     used of libsodium, and Toy is a libsodium for the tests.
--   Process and its children: cmd/sequencer/main.go, with parseRaftPeers and the leader lease;
--     loadOrCreateSequencerKeys in KeySetup; newOrderedLog, attemptJoin and the decision to join in
--     Startup; the ingress collector and the batch goroutine in Pipeline, as steps over any
--     OrderedLog, with a rule for invariants of whole runs in Pipeline/Rule; the end of main in
--     Shutdown, beside the handlers, the admission goroutine and the ingress collector of the local queue.
--   Commands and its children: the other programs of cmd. Demo (demo/main.go) and LiveDemo
--     (live-demo/main.go) drive the model of TxQueue by their own goroutines, with Background for the calls
--     that they make alike; LoadTest is rpc-loadtest/main.go with its counters as int64, and Client is
--     client/main.go.
--   The modules named Tests hold runs on concrete inputs.
--
-- How it is modelled. A goroutine's blocking operation is a step that is possible or not; a
-- function that waits returns an Option, `none` as long as it is blocked when its schedule ends.
-- Locks make what they guard one step. The clock, contexts and the choices of `select` come in
-- as events or arguments. Where a record lists what was sent, taken or answered and Go keeps no such
-- list, its comment says so. A uint64 wraps at 2 ^ 64; theorems that need fewer IDs say it. Times
-- are Unix nanoseconds. All recursion is structural but that on decimal digits of n, whose fuel is
-- n + 1, more than the digits of n. The threads of decrypt_batch_tx, which write disjoint parts of the
-- output, run one after the other. cgo ends the program if C has no memory, so an allocation always
-- succeeds. A file is its whole content; what becomes of a write is an argument, and of a read a part of
-- the state of the files. A panic of C.GoBytes, which ends the program, is an error. A handler of
-- SubmitTx goes on from one access of shared state to the next, and other handlers run in between.
--
-- Not modelled: gRPC, HashiCorp Raft, go-ethereum, libsodium, JSON, and the stores on disk, of which
-- the parameters say only what is used; the parts of the C++ sources that Go does not call; the stub
-- build of pkg/privacy, which only returns errors; the parsing of flags and the gRPC set-up of the
-- programs under cmd; the generated proto code; scripts and contracts; log output and the layout of
-- what is printed; the format of floats that are not whole numbers. Texts of errors are abridged where
-- no code reads them.
mod Prelude
mod Error
mod Text
pub mod Encoding
pub mod Sequencing
pub mod Settlement
pub mod Rpc
pub mod Privacy
pub mod Process
pub mod Commands
