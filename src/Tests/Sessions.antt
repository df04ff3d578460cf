-- ===== src/Tests/Sessions.antt =====
-- Tests of a session, and of a client of the event loop and of a thread.
use key_value_store.Common.{
  ℕ, suc, ◌≡◌, refl, arith, true, false, none, some, [], ◌∷◌, ◌++◌, Bytes, codes, List,
}
use key_value_store.Store.ShardedMap.{sharded, new_map}
use key_value_store.Store.ShardedMap.Sizing.{new_map-IsValid}
use key_value_store.Store.ShardedMap.Valid.{view}
use key_value_store.Store.Engine.{Store, new_store}
use key_value_store.Protocol.Parser.{parse}
use key_value_store.Session.{LineIo, new_session, handle_line}
use key_value_store.Session.Promised.{Client, Represents}
use key_value_store.Session.Answering.{ServesAt}
use key_value_store.Session.Serving.{handle_line-Serves}
use key_value_store.Session.ReadOnly.{Reads, handle_lines, handle_lines-Reads}
use key_value_store.Net.Lines.{split_line, strip_return, Peer, session_handler, Handler}
use key_value_store.Net.Client.{
  Turn, unsent, read_from, refuse_long, trim, write_out, update_interest, note_end, Event, EventIo,
  took, would_block, received, new_turn,
}
use key_value_store.Net.EventLoop.{
  serve_client, handle_client, handle_readable, handle_input, process_input, process_loop,
  process_round, split_round, reply_round, after_flush, after_input, after_event, flush, flush_end,
  tidy, check_backlog, finish_event,
}
use key_value_store.Net.EventLoop.Rounds
use key_value_store.Net.EventLoop.Replies.{NoneWaits, serve_client-Ends}
use key_value_store.Net.EventLoop.Interest.{AwakeAfter}
use key_value_store.Net.EventLoop.Awake.{serve_client-IsAwake}
use key_value_store.Net.EventLoop.Backlog.{BoundedAfter, serve_client-IsBounded}
use key_value_store.Net.Connection.{
  Connection, run_round, after_round, after_lines, drain_lines, split_progress, reply_line,
  end_round, read_more, Round, got, timeout, run, new_connection,
}
use key_value_store.Net.Connection.Following
use key_value_store.Net.Connection.Agreement.{serve_client-run}
use key_value_store.Wal.Log.{returned, write_all}
use key_value_store.Tests.Samples.{length_hash, io, empty_log}

abbrev line_io : LineIo
line_io = record {
  log = io;
  compaction = record { open_ok = true; writes = []; sync_ok = true; rename_ok = true };
  reopen_ok = true;
  lseek_ok = true;
  error_text = codes "No space left on device";
  replicator_line = [];
}

abbrev store : Store
store = record (new_store sharded 4 0 false) { log = some empty_log }

abbrev replica : Store
replica = record (new_store sharded 4 0 true) { log = some empty_log }

abbrev user : Client
user = record { finds = view length_hash store.map; buffered = none }

represented : Represents length_hash none store.map store.read_only user
unfolding new_store
represented = record {
  valid = (new_map-IsValid length_hash sharded 4 0 (omega arith)).0;
  finds = λ k. refl;
  off = unfold new_map in refl;
  writable = refl;
  buffers = tt;
}

handle_line-Serves_example :
    ServesAt length_hash
      (parse (codes "SET k1 v1")).type
      (parse (codes "SET k1 v1"))
      user
      (handle_line length_hash line_io (codes "SET k1 v1") new_session store)
unfolding new_session
handle_line-Serves_example =
    handle_line-Serves length_hash line_io (codes "SET k1 v1") new_session store user represented

replica-Reads : Reads length_hash (view length_hash replica.map) (some empty_log) none none replica
unfolding new_store
replica-Reads = record {
  read_only = refl;
  valid = (new_map-IsValid length_hash sharded 4 0 (omega arith)).0;
  finds = λ k. refl;
  logged = refl;
  called = refl;
  empty = tt;
}

abbrev lines : List (LineIo × Bytes)
lines = (line_io, codes "SET k1 v1") ∷ (line_io, codes "GET k1") ∷ []

handle_lines-Reads_example :
    Reads length_hash
      (view length_hash replica.map)
      (some empty_log)
      none
      (handle_lines length_hash lines new_session replica).0.transaction
      (handle_lines length_hash lines new_session replica).1
unfolding new_session
handle_lines-Reads_example =
    handle_lines-Reads length_hash (view length_hash replica.map) (some empty_log) none lines
      new_session replica replica-Reads

abbrev peer : Peer
peer = record { session = new_session; store = store; answers = line_io ∷ [] }

abbrev handler : Handler Peer
handler = session_handler length_hash line_io

-- A line in two pieces, whose reply the socket takes in part.
abbrev events : List (Event × EventIo)
events =
    (
      record { readable = true; writable = false; closed = false },
      record { first_writes = []; reads = received (codes "GET ") ∷ []; writes = [] },
    )
    ∷ (
      record { readable = true; writable = false; closed = false },
      record {
        first_writes = [];
        reads = received (codes "k1" ++ (10 ∷ [])) ∷ [];
        writes = took 2 ∷ would_block ∷ [];
      },
    )
    ∷ []

serve_client-Ends_example :
    let y = serve_client handler events (new_turn peer) in
    Rounds.Ends handler peer y.0 y.1 × NoneWaits handler peer y.0 y.1
serve_client-Ends_example = serve_client-Ends handler peer events

serve_client-IsAwake_example :
    let y = serve_client handler events (new_turn peer) in AwakeAfter y.0 y.1
serve_client-IsAwake_example = serve_client-IsAwake handler events peer

serve_client-IsBounded_example :
    let y = serve_client handler events (new_turn peer) in BoundedAfter y.0 y.1
serve_client-IsBounded_example = serve_client-IsBounded handler events peer

abbrev rounds : List Round
rounds =
    record { writes = []; shutting_down = false; read = got (codes "GET k1" ++ (10 ∷ [])) }
    ∷ record { writes = []; shutting_down = false; read = timeout }
    ∷ []

-- Two lines and the start of a third in one piece.
abbrev pipelined : List Round
pipelined =
    record {
      writes = [];
      shutting_down = false;
      read = got (codes "SET k1 v1" ++ 10 ∷ codes "GET k1" ++ 10 ∷ codes "GE");
    }
    ∷ record { writes = []; shutting_down = false; read = timeout }
    ∷ []

-- A handler that counts its lines and sends them back.
abbrev echo : Handler ℕ
echo line n = (returned (line ++ (10 ∷ []), false), suc n)

abbrev turn : Turn ℕ
turn = (serve_client echo events (new_turn 0)).1

abbrev connection : Connection ℕ
connection = (run echo rounds (new_connection 0)).1

served : serve_client echo events (new_turn 0) ≡ (returned false, turn)
unfolding serve_client handle_client handle_readable handle_input read_from process_input
    process_loop process_round split_round split_line strip_return refuse_long reply_round
    after_flush after_input after_event flush flush_end tidy trim write_out check_backlog
    update_interest finish_event note_end new_turn
served = refl

ran : run echo rounds (new_connection 0) ≡ (returned true, connection)
unfolding run run_round after_round after_lines drain_lines split_progress split_line strip_return
    reply_line write_all end_round read_more new_connection
ran = refl

serve_client-run_example :
    (turn.wire ++ unsent turn.client ≡ connection.wire) × (turn.peer ≡ connection.peer)
unfolding serve_client handle_client handle_readable handle_input read_from process_input
    process_loop process_round split_round split_line strip_return refuse_long reply_round
    after_flush after_input after_event flush flush_end tidy trim write_out check_backlog
    update_interest finish_event note_end new_turn run run_round after_round after_lines drain_lines
    split_progress reply_line write_all end_round read_more new_connection
serve_client-run_example =
    serve_client-run echo 0 events rounds turn connection served ran refl refl tt refl
