-- ===== src/Companion.antt =====
-- The companion-frame protocol between the host and a MeshCore radio (crates/meshcore-companion).
pub mod Wire
pub mod Bodies
pub mod Frames
pub mod Outbound
pub mod Inbound
pub mod Stream
pub mod Region
pub mod Framing
mod Tests
