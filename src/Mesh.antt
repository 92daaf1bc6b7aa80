-- ===== src/Mesh.antt =====
-- The MeshCore transport (crates/bbs-mesh).
pub mod Session
pub mod SendTracker
