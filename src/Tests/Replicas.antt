-- ===== src/Tests/Replicas.antt =====
-- Followers, run and used at concrete inputs.
use key_value_store.Common.{
  ◌-◌, ◌^◌, max, ◌<◌, bytes_eq, to_string, decimal_before, length, ◌≤◌, ◌≡◌, refl, ap, ◌∙◌, true,
  false, [], ◌∷◌, ◌++◌, List, some, Bytes, take, drop, arith, All, append-nil, take-drop, codes,
}
use key_value_store.Store.Recovery.Crash.{IsJournaled}
use key_value_store.Net.Lines.{strip_return}
use key_value_store.Store.Engine.Applier.{new_applier}
use key_value_store.Repl.Control.{
  three_words, cut_at, read_control, stoull, signed_digits, unsigned_digits, digits_value,
}
use key_value_store.Repl.Leader.{new_session}
use key_value_store.Repl.Leader.Shipping.{ShipRound, got, read_interrupted, ship_pending}
use key_value_store.Repl.Leader.Shipping.Arriving.{RoundWorks}
use key_value_store.Repl.Leader.Shipping.Exact.{ShipsAll, ship_pending-ShipsAll}
use key_value_store.Repl.Leader.Acks.{
  Lag, Leader, Meanwhile, drains, received, drain_acks, note_ack, on_append, push_pending,
  all_happen, at_once, finishes, joins, reaps,
}
use key_value_store.Repl.Leader.Acks.Waiting.{drain_acks-ack_line}
use key_value_store.Repl.Leader.Acks.Ending.{Returns, on_append-Returns}
use key_value_store.Repl.Whole.{replication-converges}
use key_value_store.Repl.Handshake.{
  answer_line, answer_request, parse_request, request_of, can_resume, full_reply, refuse,
  resume_reply, start_from, sync_token, word_front, read_word, Link, ResyncIo, Shaken,
  load_leader_token, perform_handshake, sync_request, handshake,
}
use key_value_store.Repl.Handshake.Requests.{no_separators-IsWord}
use key_value_store.Repl.Handshake.Agreement.{handshake-Agrees}
use key_value_store.Repl.Handshake.Resyncing.{AgreesIf}
use key_value_store.Repl.Roles.{synchronous}
use key_value_store.Store.Engine.{log_offset, Store, transaction_payloads, command_of}
use key_value_store.Protocol.Commands.{
  serialize, blob_bytes, u32_bytes, u64_bytes, u64_bytes_from, serialize_begin_marker,
  serialize_commit_marker,
}
use key_value_store.Store.Recovery.{run_all, journal, records}
use key_value_store.Wal.Log.{write_all, Log, Io, WriteResult, interrupted, frames}
use key_value_store.Repl.Follower.{
  reset_link, ack_line, Follower, new_follower, consume, max_buffered_transaction_bytes,
}
use key_value_store.Repl.Follower.Parsing.{payload_bytes}
use key_value_store.Repl.Follower.Stream.{bytes_of}
use key_value_store.Repl.Follower.Replica.{Replicates, consume-Replicates}
use key_value_store.Repl.Follower.Resuming.{consume-resumes}
use key_value_store.Repl.Follower.Catching.{ChunkWorks, goes_through, consume-CatchesUp}
use key_value_store.Tests.Recoveries.{same_map, store, transaction, writable, small}
use key_value_store.Tests.Samples.{start, length_hash, io, empty_log}

abbrev stream : Bytes
stream = frames (journal (transaction ∷ []))

-- The first chunk ends inside of a record.
abbrev chunks : List (Io × List WriteResult × Bytes)
chunks = (io, [], take 20 stream) ∷ (io, interrupted ∷ [], drop 20 stream) ∷ []

abbrev reached : Follower
reached = (consume length_hash chunks (new_follower store)).1

sent : bytes_of chunks ++ [] ≡ stream
sent =
    append-nil (bytes_of chunks)
    ∙ (ap (λ z. take 20 stream ++ z) (append-nil (drop 20 stream)) ∙ take-drop 20 stream)

room : payload_bytes (journal (transaction ∷ [])) ≤ max_buffered_transaction_bytes
unfolding payload_bytes journal records transaction_payloads serialize command_of blob_bytes
    u32_bytes serialize_begin_marker serialize_commit_marker u64_bytes u64_bytes_from
room = omega arith

chunks_work : All ChunkWorks chunks
unfolding goes_through
chunks_work = ((refl, refl, refl), ((refl, refl, refl), tt))

logged : store.log ≡ some empty_log
logged = refl

consume-CatchesUp_example :
    ((consume length_hash chunks (new_follower store)).0 ≡ true)
    × Replicates length_hash
        (transaction ∷ [])
        store
        empty_log
        []
        (consume length_hash chunks (new_follower store)).1
consume-CatchesUp_example =
    consume-CatchesUp length_hash (transaction ∷ []) store empty_log writable chunks [] small logged
      sent room chunks_work

kept : consume length_hash chunks (new_follower store) ≡ (true, reached)
kept =
    ap (λ b. (b, reached))
      (consume-CatchesUp length_hash (transaction ∷ []) store empty_log writable chunks [] small
        logged sent room chunks_work).0

consume-Replicates_example : Replicates length_hash (transaction ∷ []) store empty_log [] reached
consume-Replicates_example =
    consume-Replicates length_hash (transaction ∷ []) store empty_log writable chunks [] reached
      small logged sent kept

-- The connection ends inside of a record.
abbrev first_chunks : List (Io × List WriteResult × Bytes)
first_chunks = (io, [], take 20 stream) ∷ []

abbrev left_over : Follower
left_over = (consume length_hash first_chunks (new_follower store)).1

first_work : All ChunkWorks first_chunks
unfolding goes_through
first_work = ((refl, refl, refl), tt)

first_sent : bytes_of first_chunks ++ drop 20 stream ≡ stream
first_sent = ap (λ z. z ++ drop 20 stream) (append-nil (take 20 stream)) ∙ take-drop 20 stream

abbrev reached_first :
    Replicates length_hash (transaction ∷ []) store empty_log (drop 20 stream) left_over
reached_first =
    (consume-CatchesUp length_hash (transaction ∷ []) store empty_log writable first_chunks
      (drop 20 stream) small logged first_sent room first_work).1

abbrev second_chunks : List (Io × List WriteResult × Bytes)
second_chunks = (io, [], drop (length reached_first.after.file - length empty_log.file) stream) ∷ []

second_work : All ChunkWorks second_chunks
unfolding goes_through
second_work = ((refl, refl, refl), tt)

consume-resumes_example :
    (consume length_hash second_chunks (reset_link left_over)).1.applier.store.map
    ≡ run_all length_hash (transaction ∷ []) store.map
consume-resumes_example =
    consume-resumes length_hash (transaction ∷ []) store empty_log reached_first.after
      (drop 20 stream) first_chunks second_chunks left_over writable small room logged first_work
      first_sent refl reached_first.logged second_work
      (append-nil (drop (length reached_first.after.file - length empty_log.file) stream))

-- The leader's side: a log that holds the transaction, shipped in two reads with a signal between.
abbrev leader_log : Log
leader_log = record empty_log { file = stream; offset = length stream }

abbrev leading : Store
leading = record store { log = some leader_log; map = run_all length_hash (transaction ∷ []) start }

abbrev leading_journaled : IsJournaled length_hash start (transaction ∷ []) leading
leading_journaled = record { log = leader_log; logged = refl; file = refl; map_is = refl }

abbrev ship_rounds : List ShipRound
ship_rounds =
    record { stop = false; read = got 9; writes = interrupted ∷ [] }
    ∷ record { stop = false; read = read_interrupted; writes = [] }
    ∷ []

shipping : All RoundWorks ship_rounds
unfolding goes_through
shipping = ((refl, omega arith, refl), ((refl, tt, refl), tt))

abbrev shipped : Bytes
shipped = (ship_pending (log_offset leading) stream ship_rounds new_session).2

abbrev arriving : List (Io × List WriteResult × Bytes)
arriving = (io, [], shipped) ∷ []

arriving_work : All ChunkWorks arriving
unfolding goes_through
arriving_work = ((refl, refl, refl), tt)

at_end : log_offset leading ≡ length stream
unfolding log_offset
at_end = refl

fresh : new_session.sent_offset ≡ 0
unfolding new_session
fresh = refl

replication-converges_example :
    (consume length_hash arriving (new_follower store)).1.applier.store.map ≡ leading.map
replication-converges_example =
    replication-converges length_hash start (transaction ∷ []) leading store leading_journaled
      empty_log ship_rounds new_session arriving writable small room at_end logged same_map shipping
      fresh arriving_work (append-nil shipped)

ship_pending-ShipsAll_example :
    ShipsAll
      (length stream)
      stream
      new_session
      (ship_pending (length stream) stream ship_rounds new_session)
unfolding new_session
ship_pending-ShipsAll_example =
    ship_pending-ShipsAll (length stream) stream ship_rounds new_session shipping (omega arith)
      (omega arith)

-- A follower that knows its leader and resumes.
abbrev linked : Link
linked = record {
  follower = new_follower (record store { log = some (record empty_log { offset = 12 }) });
  state_file = some (codes "8-42" ++ (10 ∷ []));
  full_resyncs = 0;
}

abbrev resync_io : ResyncIo
resync_io = record { truncate_ok = true; sync_ok = true; save_ok = true }

abbrev answer : Shaken
answer =
    perform_handshake (interrupted ∷ []) (codes "8-42") 30 (sync_request linked ++ []) new_session 0

token_short : length (load_leader_token linked) ≤ 200
unfolding load_leader_token read_word word_front
token_short = omega arith

offset_small : log_offset linked.follower.applier.store < 2 ^ 64
unfolding log_offset new_follower new_applier
offset_small = omega arith

request_written : (write_all [] (sync_request linked)).1 ≡ true
unfolding write_all
request_written = refl

accepted : answer.accepted ≡ true
unfolding perform_handshake answer_line answer_request parse_request request_of three_words cut_at
    read_control strip_return stoull signed_digits unsigned_digits digits_value bytes_eq to_string
    decimal_before can_resume full_reply refuse resume_reply start_from sync_token word_front
    read_word load_leader_token log_offset sync_request new_follower new_applier write_all
accepted = refl

handshake-Agrees_example :
    AgreesIf resync_io answer.session.sent_offset (handshake resync_io [] (answer.out ++ []) linked)
handshake-Agrees_example =
    handshake-Agrees resync_io (interrupted ∷ []) [] (codes "8-42") 30 [] [] new_session 0 linked
      answer (no_separators-IsWord (codes "8-42") refl) (omega arith) token_short offset_small
      request_written refl accepted

-- Two records wait, and the follower acknowledges the first.
abbrev two_waiting : Lag
two_waiting = record {
  pending = record { offset = 12; at = 3 } ∷ record { offset = 20; at = 5 } ∷ [];
  samples = [];
  count = 0;
  max_us = 0;
  sum_us = 0;
}

abbrev synchronous_leader : Leader
synchronous_leader = record {
  mode = synchronous;
  stopping = false;
  sessions = new_session ∷ [];
  lag = two_waiting;
  full_resyncs = 0;
  ack_timeouts = 0;
  sync_degraded = 0;
}

abbrev acks : List Meanwhile
acks = drains 0 6 (received (ack_line 12)) ∷ []

abbrev between : List Meanwhile
between = joins new_session ∷ at_once (finishes 1) reaps ∷ []

drain_acks-ack_line_example :
    drain_acks 7 (received (ack_line 12)) new_session two_waiting
    ≡ (true, record new_session { acked = max 12 new_session.acked }, note_ack 7 12 two_waiting)
drain_acks-ack_line_example =
    drain_acks-ack_line 7 12 new_session two_waiting (omega arith) (unfold new_session in refl)

on_append-Returns_example :
    Returns 12 acks synchronous_leader
      (all_happen between (push_pending 5 12 synchronous_leader))
      (on_append 5 12 between acks synchronous_leader)
on_append-Returns_example = on_append-Returns 5 12 between acks synchronous_leader refl
