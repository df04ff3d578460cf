-- ===== src/Repl/Whole.antt =====
-- A leader that ships its log, and a follower that starts anew with what comes: src/repl/leader.cpp
-- and src/repl/follower.cpp together.
use key_value_store.Common.{
  ℕ, ◌≤◌, ◌≡◌, refl, sym, ap, ◌∙◌, List, [], ◌++◌, some, Bytes, length, drop, arith, All,
  append-nil, drop_of_length-le,
}
use key_value_store.Repl.Follower.{new_follower, consume, max_buffered_transaction_bytes}
use key_value_store.Repl.Follower.Parsing.{payload_bytes}
use key_value_store.Repl.Follower.Stream.{bytes_of}
use key_value_store.Repl.Follower.Catching.{ChunkWorks, consume-CatchesUp}
use key_value_store.Repl.Leader.{Session}
use key_value_store.Repl.Leader.Shipping.{ShipRound, ship_pending}
use key_value_store.Repl.Leader.Shipping.Arriving.{RoundWorks, ship_pending-succeeds}
use key_value_store.Repl.Leader.Shipping.Streams.{ship_pending-Ships}
use key_value_store.Store.Engine.{Store, log_offset}
use key_value_store.Store.Recovery.{Write, IsWritable, journal, run_all}
use key_value_store.Store.Recovery.Crash.{IsJournaled}
use key_value_store.Store.ShardedMap.{ShardedMap}
use key_value_store.Wal.Log.{Io, Log, WriteResult}
use key_value_store.Wal.Replay.Scanning.{AreSmall}

-- A session that shipped a whole log from its begin on, wrote that log.
ship_pending_whole :
    (target : ℕ) (file : Bytes) (rounds : List ShipRound) (s : Session)
    → target ≡ length file
    → All RoundWorks rounds
    → s.sent_offset ≡ 0
    → (ship_pending target file rounds s).2 ≡ file
ship_pending_whole target file rounds s at_end works fresh =
    let y = ship_pending target file rounds s in
    let (goes, reached) =
      (ship_pending-Ships target file rounds s).done
        (ship_pending-succeeds target file rounds s works (omega (arith, at_end))) in
    sym (append-nil y.2)
    ∙ (ap (λ z. y.2 ++ z)
          (sym (drop_of_length-le y.1.sent_offset file (omega (arith, reached, at_end))))
        ∙ (goes.bytes ∙ ap (λ (n : ℕ). drop n file) fresh))

-- A leader whose log holds the records of the writes that made its map from a first map, and ends
-- at its offset, ships that log to a fresh session with reads and writes of any sizes; a follower
-- whose map was the first one gets these bytes in any chunks. Where the calls of both succeed, the
-- records are not too long for the log and fit the buffer of the follower, the follower has the map
-- of the leader.
pub replication-converges :
    (hash : Bytes → ℕ) (start : ShardedMap) (ws : List Write) (leader replica : Store)
    (journaled : IsJournaled hash start ws leader) (log : Log) (rounds : List ShipRound)
    (session : Session) (chunks : List (Io × List WriteResult × Bytes))
    → All IsWritable ws
    → AreSmall (journal ws)
    → payload_bytes (journal ws) ≤ max_buffered_transaction_bytes
    → log_offset leader ≡ length journaled.log.file
    → replica.log ≡ some log
    → replica.map ≡ start
    → All RoundWorks rounds
    → session.sent_offset ≡ 0
    → All ChunkWorks chunks
    → bytes_of chunks ≡ (ship_pending (log_offset leader) journaled.log.file rounds session).2
    → (consume hash chunks (new_follower replica)).1.applier.store.map ≡ leader.map
replication-converges hash start ws leader replica journaled log rounds session chunks writable
      small room at_end logged same shipping fresh receiving sent =
    let whole =
      ship_pending_whole (log_offset leader) journaled.log.file rounds session at_end shipping
        fresh in
    let (kept, x) =
      consume-CatchesUp hash ws replica log writable chunks [] small logged
        (append-nil (bytes_of chunks) ∙ (sent ∙ (whole ∙ journaled.file))) room receiving in
    (x.current refl).1 ∙ (ap (run_all hash ws) same ∙ sym journaled.map_is)
