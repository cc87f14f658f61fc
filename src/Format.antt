-- ===== src/Format.antt =====
-- src/lumodb/storage_format.h: the fixed headers, little endian, as bytes and as records.
pub mod Codec
pub mod Headers
pub mod Legacy
pub mod Rows
