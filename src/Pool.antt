-- ===== src/Pool.antt =====
-- The thread pool.
pub mod Queues
