-- ===== src/Wire.antt =====
-- The BRN0 wire format (python/src/brain_db_sdk/wire).
pub mod Crc32c
pub mod Opcode
pub mod Frame
pub mod Cbor
pub mod Value
pub mod Payload
