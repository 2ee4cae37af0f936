-- ===== src/Mount.antt =====
-- crates/eg/src/mount.rs: the FUSE view of a document. Inodes has the numbers of the nodes, and
-- Writeback the dirty buffers.
pub mod Inodes
pub mod Requests
pub mod View
pub mod Writeback
