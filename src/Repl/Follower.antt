-- ===== src/Repl/Follower.antt =====
-- src/repl/follower.cpp: the records that come from the leader. The store of the follower is that of
-- its applier. A chunk is what one `read` gives; the answers of the log's system calls are arguments.
pub mod Parsing
pub mod Flushing
pub mod Stream
pub mod Consuming
pub mod Catching
pub mod Replica
pub mod Resuming
use key_value_store.Common.{
  ℕ, zero, suc, ◌+◌, ◌*◌, Bool, true, false, ◌&&◌, not, ◌==◌, List, [], ◌∷◌, ◌++◌, Option, none,
  some, Bytes, codes, length, drop, ltb, if◌then◌else◌, add64, to_string, is_some,
}
use key_value_store.Store.Engine.{
  Store, append_replicated_records, log_offset, reset_for_full_resync,
}
use key_value_store.Store.Engine.Applier.{Applier, new_applier, apply, abandon_open_transaction}
use key_value_store.Protocol.Commands.{parse_begin_marker, parse_commit_marker}
use key_value_store.Wal.Record.{ParseResult, parsed, incomplete, corrupt, parse_record}
use key_value_store.Wal.Log.{Io, Outcome, returned, threw, WriteResult, write_all}

-- `kMaxBufferedTransactionBytes`
abbrev pub max_buffered_transaction_bytes : ℕ
max_buffered_transaction_bytes = 64 * 1024 * 1024

-- `sent` is what the leader's socket took.
pub record Follower : Type 0 where
  pub applier : Applier
  pub recv_buffer : Bytes
  pub pending : List Bytes
  pub pending_bytes : ℕ
  pub inside_transaction : Bool
  pub open_transaction : Bool
  pub bytes_received : ℕ
  pub records_applied : ℕ
  pub sent : Bytes

unfoldable pub new_follower : Store → Follower
new_follower s = record {
  applier = new_applier s;
  recv_buffer = [];
  pending = [];
  pending_bytes = 0;
  inside_transaction = false;
  open_transaction = false;
  bytes_received = 0;
  records_applied = 0;
  sent = [];
}

abbrev pub with_store : Store → Follower → Follower
with_store s f = record f { applier = record f.applier { store = s } }

-- Whether a transaction is open behind a record.
unfoldable pub inside_after : Bytes → Bool → Bool
inside_after payload inside =
    if is_some (parse_begin_marker payload)
    then true
    else if is_some (parse_commit_marker payload)
    then false
    else inside

unfoldable pub take_record : Bytes → Follower → Follower
take_record payload f = record f {
  inside_transaction = inside_after payload f.inside_transaction;
  pending_bytes = f.pending_bytes + length payload;
  pending = f.pending ++ (payload ∷ []);
}

-- The loop over the records in the buffer, from `offset` on: whether the link stays, and the offset
-- behind the last whole record.
pub data Parsed : Type 0 where
  drops : Follower → Parsed
  keeps : ℕ → Follower → Parsed

-- `some` where the loop goes on.
unfoldable pub parse_round : ℕ → ParseResult → Follower → Option (ℕ × Follower) × Parsed
parse_round offset incomplete f = (none, keeps offset f)
parse_round offset corrupt f = (none, drops f)
parse_round offset (parsed payload next) f =
    let f' = take_record payload f in
    if ltb max_buffered_transaction_bytes f'.pending_bytes
    then (none, drops f')
    else (some (next, f'), keeps next f')

-- Each record takes bytes of the buffer away, so as many rounds as it has are enough.
unfoldable pub parse_loop : ℕ → ℕ → Follower → Parsed
parse_loop zero offset f = keeps offset f
parse_loop (suc fuel) offset f =
    let (more, here) = parse_round offset (parse_record f.recv_buffer offset) f in
    elim more [ none ↦ here | some (next, f') ↦ parse_loop fuel next f' ]

unfoldable pub receive : Bytes → Follower → Follower
receive bytes f = record f {
  recv_buffer = f.recv_buffer ++ bytes;
  bytes_received = add64 f.bytes_received (length bytes);
}

-- Behind the loop.
unfoldable pub erase_parsed : ℕ → Follower → Follower
erase_parsed offset f = record f {
  recv_buffer = drop offset f.recv_buffer;
  open_transaction = f.inside_transaction;
}

unfoldable pub ack_line : ℕ → Bytes
ack_line offset = codes "ACK " ++ (to_string offset ++ (10 ∷ []))

unfoldable pub send_ack : List WriteResult → ℕ → Follower → Bool × Follower
send_ack script offset f =
    let (out, all) = write_all script (ack_line offset) in (all, record f { sent = f.sent ++ out })

unfoldable pub flushed : Follower → Follower
flushed f = record f { pending = []; pending_bytes = 0 }

-- What the loop of the link does when a connection ends.
unfoldable pub reset_link : Follower → Follower
reset_link f = record f {
  recv_buffer = [];
  pending = [];
  pending_bytes = 0;
  inside_transaction = false;
  open_transaction = false;
  applier = abandon_open_transaction f.applier;
}

-- A full resync, with the two answers of `truncateAll`; what it throws ends the handshake.
unfoldable pub begin_full_resync : Bool → Bool → Follower → Bool × Follower
begin_full_resync truncate_ok sync_ok f =
    let (outcome, s) = reset_for_full_resync truncate_ok sync_ok f.applier.store in
    elim outcome [
      | threw error ↦ (false, with_store s f)
      | returned u ↦
          let f' = with_store s f in
          (true, record f' { applier = abandon_open_transaction f'.applier })
    ]

-- The end of `flushPending`.
unfoldable pub check_offset : ℕ → Bool × Follower → Bool × Follower
check_offset new_offset (false, f) = (false, f)
check_offset new_offset (true, f) = (new_offset == log_offset f.applier.store, flushed f)

unfoldable pub is_empty : List Bytes → Bool
is_empty [] = true
is_empty (payload ∷ payloads) = false

unfoldable pub acknowledge : List WriteResult → Bool × Follower → Bool × Follower
acknowledge script (false, f) = (false, f)
acknowledge script (true, f) = send_ack script (log_offset f.applier.store) f

module _ (hash : Bytes → ℕ) where
  -- The loop of `flushPending` over the records.
  unfoldable pub apply_all : List Bytes → Follower → Bool × Follower
  apply_all [] f = (true, f)
  apply_all (payload ∷ payloads) f =
      let (known, a) = apply hash payload f.applier in
      let rest =
        apply_all payloads
          (record f { applier = a; records_applied = add64 f.records_applied 1 }) in
      if not known then (false, record f { applier = a }) else rest

  unfoldable pub after_log : Outcome ℕ × Store → Follower → Bool × Follower
  after_log (threw error, s) f = (false, with_store s f)
  after_log (returned new_offset, s) f =
      check_offset new_offset (apply_all f.pending (with_store s f))

  unfoldable pub flush_pending : Io → Follower → Bool × Follower
  flush_pending io f = after_log (append_replicated_records io f.pending f.applier.store) f

  unfoldable pub after_parse : Io → List WriteResult → Parsed → Bool × Follower
  after_parse io script (drops f) = (false, f)
  after_parse io script (keeps offset f) =
      let f' = erase_parsed offset f in
      if not f'.inside_transaction && not (is_empty f'.pending)
      then acknowledge script (flush_pending io f')
      else (true, f')

  -- A round of `consume`: whether the link stays.
  unfoldable pub consume_chunk : Io → List WriteResult → Bytes → Follower → Bool × Follower
  consume_chunk io script bytes f =
      let f' = receive bytes f in
      after_parse io script (parse_loop (suc (length f'.recv_buffer)) 0 f')

  -- `consume`, through the chunks that come while the link stays.
  unfoldable pub consume : List (Io × List WriteResult × Bytes) → Follower → Bool × Follower
  consume [] f = (true, f)
  consume ((io, script, bytes) ∷ chunks) f =
      let (kept, f') = consume_chunk io script bytes f in
      let rest = consume chunks f' in if kept then rest else (false, f')
