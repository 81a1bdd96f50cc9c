-- ===== src/Privacy.antt =====
-- The privacy layer: the C++ functions that Go calls (cpp/src/privacy), and their Go wrapper
-- (pkg/privacy/privacy_cgo.go). libsodium and the file system are parameters.
pub mod Sodium
pub mod Native
pub mod Memory
pub mod Keys
pub mod Decrypt
pub mod RoundTrip
pub mod Batches
pub mod Buffers
pub mod Leaks
pub mod Toy
mod Tests
