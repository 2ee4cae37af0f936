-- ===== src/Fs.antt =====
-- crates/okayeg/src/fs.rs: paths, and the path-addressed view over the file tree of a doc.
pub mod Path
pub mod View
pub mod Edit
pub mod Slice
