-- ===== src/Advert.antt =====
-- crates/bbs-plugin-api/src/advert.rs: the bus of heard nodes and the protection of contacts.
pub mod Records
pub mod Upsert
pub mod Decide
pub mod Query
pub mod History
mod Select
mod Grace
mod Contract
mod Moves
mod Cap
mod Survive
mod Window
mod Evict
mod Invariant
mod Valid
mod Tests
