-- ===== src/Encoding.antt =====
-- The byte encodings of Go's standard library that the program uses: `binary.LittleEndian.PutUint64`
-- and package encoding/hex.
pub mod Bytes
pub mod LittleEndian
pub mod Hex
pub mod Decimal
