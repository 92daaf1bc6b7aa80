-- ===== src/Host.antt =====
-- crates/bbs-core/src/host.rs: accounts, sessions, login and moderation.
pub mod Users
pub mod State
pub mod Suspension
pub mod Throttle
pub mod Login
pub mod Barred
pub mod Moderation
pub mod Admin
pub mod Register
pub mod Replies
mod Fixture
mod Tests
