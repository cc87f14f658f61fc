-- ===== src/Rows.antt =====
-- The rows of src/lumodb/database.cpp: blocks of keys and values, and the index that leads to them.
pub mod Layout
pub mod Blocks
pub mod Shared
pub mod Protocol
pub mod Update
pub mod Slots
