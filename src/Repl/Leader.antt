-- ===== src/Repl/Leader.antt =====
-- src/repl/leader.cpp: what a leader keeps of one follower, and the bytes of the log that it ships.
-- Numbers of bytes stay below 2 ^ 64.
pub mod Shipping
pub mod Acks
use key_value_store.Common.{ℕ, Bool, false, [], Bytes}

-- `Leader::Session`, less its sockets and its thread.
pub record Session : Type 0 where
  pub sent_offset : ℕ
  pub acked : ℕ
  pub bytes_sent : ℕ
  pub ack_buffer : Bytes
  pub stopping : Bool
  pub finished : Bool

unfoldable pub new_session : Session
new_session = record {
  sent_offset = 0;
  acked = 0;
  bytes_sent = 0;
  ack_buffer = [];
  stopping = false;
  finished = false;
}
