-- ===== src/Protocol.antt =====
-- emmc-gui/crates/emmc-core/src/protocol.rs: the host's side of the packet protocol.
pub mod Ids
pub mod Packet
pub mod Sectors
pub mod Status
pub mod Commands
mod Tests
