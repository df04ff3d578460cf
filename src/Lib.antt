-- ===== src/Lib.antt =====
-- A key-value store in C++: a map in shards with an LRU policy, a write-ahead log, transactions, and a
-- text protocol, as values of this library and functions on them.
--
-- The parts, from the bottom up, and where they are modelled:
--   Common      lists, words of 64 bits, strings of bytes, and `std::unordered_map` as an association
--               list.
--   Wal.Record  src/wal/record.cpp: `crc32`, `frame`, `parseRecord`.
--   Wal.Log     src/wal/wal.cpp: the log as its writer sees it, `append`, `appendBatch`, `sync`,
--               `truncateAll`, `reopenAfterCompaction`.
--   Wal.Replay  src/wal/wal.cpp: `replay`, with the handler of a record as a function on a state.
--   Wal.Compaction
--               src/wal/compactor.cpp: `Compactor::rewrite`.
--   Protocol.Commands
--               src/protocol/command.cpp and commands.cpp: what the payloads of the log are.
--   Protocol.Parser
--               src/protocol/parser.cpp: one line of the text protocol.
--   Store.Lru   src/store/lru_policy.cpp: the policy of one shard.
--   Store.Shard, Store.ShardedMap
--               src/store/sharded_map.cpp: `get`, `set`, `del`, `getMany`, `snapshot`,
--               `applyAtomically`, `clear` and the counts, in the four lock modes.
--   Store.Engine
--               src/store/store.cpp: `Store`, which writes to the log first and then to the map.
--   Store.Engine.Applier
--               src/store/record_applier.cpp, and the constructor of `Store` with its recovery.
--   Store.Recovery
--               the writes of a store as records of its log: what a run, a crash and a recovery do.
--   Transaction src/txn/transaction.cpp: the buffer of one transaction over the store.
--   Store.Stats src/store/store.cpp: `statsLine`.
--   Session     src/protocol/session.cpp: `handleLine`, over a store.
--   Net.Lines   how the bytes of a client are cut into lines, for both ways to serve it.
--   Net.Connection
--               src/net/connection.cpp: a client with a thread of its own.
--   Net.Client, Net.EventLoop
--               src/net/event_loop.cpp: a client of the event loop, through the events of the poller.
--   Repl.Roles, Repl.Control
--               src/repl/replicator.cpp, and the control lines of both ends with `std::stoull`.
--   Repl.Handshake
--               src/repl/leader.cpp: `performHandshake`; src/repl/follower.cpp: `handshake`,
--               `runOneConnection`.
--   Repl.Leader src/repl/leader.cpp: `shipPending`, `drainAcks`, `noteAck`, `onAppend`, and the
--               sessions that join, end and are reaped while an append waits.
--   Repl.Follower
--               src/repl/follower.cpp: `consume`, `flushPending`, `sendAck`.
--   Repl.Whole  a leader and a follower together.
--   Pool.Queues src/pool/task_queue.cpp: the three queues of the thread pool.
--   Tests       the theorems on concrete inputs.
--
-- How the state corresponds: an object is a record, a method is a function that returns the new state
-- beside its result, and an exception is a result (`Outcome`). A string is a list of bytes as numbers.
-- The answers of the system calls are arguments (`Io`, `ReplayIo`, `CompactionIo`), so that every
-- error path is a value; the file is the list of its bytes. `std::hash` is the parameter `hash`. An
-- operation runs under the locks of what it touches, so it is one step, and operations follow one
-- another; the lock modes differ in the shard of a key and in the order of the steps.
--
-- Bounds and fuel: counters, offsets, byte counts and the shift of `roundUpToPowerOfTwo` wrap at
-- 2 ^ 64; sizes of strings in memory are taken to stay below that. The loop of an eviction has the
-- number of entries of the policy as fuel, since each round takes one away; that of `replay` the size
-- of the file and one more, since each round that goes on moves past a header; and that of
-- `roundUpToPowerOfTwo` 63 rounds, which double up to 2 ^ 63. The loops over the lines of a
-- client's input and over the records of a follower's buffer have the bytes of the buffer as fuel,
-- since each round takes one at least; that of `shipPending` the offset to ship to and the answers
-- that are given, since each round ships a byte or takes an answer.
--
-- What is not modelled: the system calls behind sockets and pollers, which are arguments; the table of
-- clients of the event loop, the server and its accepting thread; the workers of the thread pool; the
-- threads of a leader that accept followers and run their sessions, apart from what they do to its
-- sessions during an append, and the loop that connects a follower again; the statistics lines of replication, `replicationToken`, and the main program, which
-- print or start the parts; the thread that syncs the log now and then, each of whose rounds is a
-- `sync`.
mod Common
pub mod Wal
pub mod Store
pub mod Protocol
pub mod Transaction
pub mod Session
pub mod Repl
pub mod Net
pub mod Pool
mod Tests
