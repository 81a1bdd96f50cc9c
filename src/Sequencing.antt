-- ===== src/Sequencing.antt =====
-- pkg/sequencing: the ordering stage, one module for each of its files.
pub mod Transaction
pub mod Queue
pub mod Mempool
pub mod Commitment
pub mod Receptions
pub mod Raft
pub mod Log
