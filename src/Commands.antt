-- ===== src/Commands.antt =====
-- The programs beside the sequencer, under cmd: demo, live-demo, client and rpc-loadtest.
mod Background
pub mod Demo
pub mod LiveDemo
pub mod LoadTest
pub mod Client
