-- ===== src/Net.antt =====
-- crates/okayeg-net/src: framing, control frames, the driver loop and authorization.
pub mod Frame
pub mod Control
pub mod Drive
pub mod Authz
pub mod Held
