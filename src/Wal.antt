-- ===== src/Wal.antt =====
-- src/wal: the record format of the log, the log itself, and its replay.
pub mod Record
pub mod Log
pub mod Replay
pub mod Compaction
