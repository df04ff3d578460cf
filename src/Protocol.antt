-- ===== src/Protocol.antt =====
-- src/protocol: the payloads of the log, and the text commands.
pub mod Commands
pub mod Parser
