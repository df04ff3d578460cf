-- ===== src/Repl.antt =====
-- src/repl: a leader that ships the bytes of its log, and a follower that logs and applies them.
pub mod Roles
pub mod Control
pub mod Follower
pub mod Leader
pub mod Handshake
pub mod Whole
