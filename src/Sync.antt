-- ===== src/Sync.antt =====
-- crates/okayeg/src/sync.rs: the sync protocol as a driver over messages.
pub mod Msg
pub mod Driver
pub mod Exchange
pub mod Live
