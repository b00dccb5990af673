-- ===== src/Engine.antt =====
-- emmc-programmer/crates/programmer-engine: what the programmer can be told to do, and its state.
pub mod Command
pub mod Speed
pub mod Hex
pub mod Image
mod Tests
