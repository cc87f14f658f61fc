-- ===== src/Tests.antt =====
-- A small store on which the theorems are applied, and runs of the operations.
pub mod Fixture
mod Stores
mod Parts
mod Recovering
mod Calls
mod Prints
mod Rows
mod Sharing
mod Blocks
mod Counting
