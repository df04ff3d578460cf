-- ===== src/Net.antt =====
-- src/net/connection.cpp and src/net/event_loop.cpp: how the bytes of a client become lines for its
-- session, and how the replies go back.
pub mod Lines
pub mod Client
pub mod Sequence
pub mod EventLoop
pub mod Connection
