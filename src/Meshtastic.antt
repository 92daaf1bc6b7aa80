-- ===== src/Meshtastic.antt =====
-- The transport for Meshtastic radios (crates/bbs-meshtastic).
pub mod Stream
