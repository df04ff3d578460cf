-- ===== src/Net/EventLoop.antt =====
-- src/net/event_loop.cpp: what the loop does with one client. `handle` is `handleLine`, with the
-- session and the store of the client as its state.
pub mod Rounds
pub mod Flushing
pub mod Replies
pub mod Interest
pub mod Awake
pub mod Backlog
use key_value_store.Common.{
  ℕ, zero, suc, ◌/◌, Bool, true, false, ◌&&◌, not, List, [], ◌∷◌, ◌++◌, Option, none, some, Bytes,
  length, ltb, leb, if◌then◌else◌, add64,
}
use key_value_store.Net.Lines.{Handler, split_line, strip_return}
use key_value_store.Net.Client.{
  Client, Turn, SendResult, SendEnd, all_sent, blocked, broken, ReadResult, Event, EventIo, backlog,
  unsent, max_output_bytes, pause_reading_above_bytes, close_soon, pause, resume, put_out,
  count_command, refuse_long, update_interest, read_from, sent_out, count_short, drained, trim,
  note_end, write_out,
}
use key_value_store.Session.{Reply}
use key_value_store.Wal.Log.{Outcome, returned, threw}

-- A round of `processInput`: it returns or throws, or goes on.
pub data Round {ℓ} (S : Type ℓ) : Type ℓ where
  stops : Outcome (Unit {0}) → Turn S → Round S
  goes : Turn S → Round S

module _ {ℓ} {S : Type ℓ} where
  -- Behind the reply to a line.
  unfoldable pub reply_round : Outcome Reply → Turn S → Round S
  reply_round (threw error) t = stops (threw error) t
  reply_round (returned (text, quit)) t =
      let t' = count_command (put_out text t) in
      if quit
      then stops (returned tt) (close_soon t')
      else if ltb pause_reading_above_bytes (backlog t'.client)
      then stops (returned tt) (pause t')
      else goes t'

  -- The end of `flush`, where `false` means that the client is dropped.
  unfoldable pub check_backlog : Outcome (Unit {0}) × Turn S → Outcome Bool × Turn S
  check_backlog (threw error, t) = (threw error, t)
  check_backlog (returned u, t) =
      if ltb max_output_bytes (backlog t.client)
      then (returned false, record t { evicted_for_backlog = add64 t.evicted_for_backlog 1 })
      else (returned true, update_interest t)

  -- The end of `handleClient`: whether the client is closed.
  unfoldable pub finish_event : Bool → Turn S → Outcome Bool × Turn S
  finish_event hung_up t =
      if hung_up
      then (returned true, t)
      else if t.client.close_after_flush && leb (length t.client.outbuf) t.client.out_sent
      then (returned true, t)
      else (returned false, update_interest t)

  -- A `flush` that fails closes the client.
  unfoldable pub after_flush :
      Outcome Bool × Turn S → (Turn S → Outcome Bool × Turn S) → Outcome Bool × Turn S
  after_flush (threw error, t) go_on = (threw error, t)
  after_flush (returned false, t) go_on = (returned true, t)
  after_flush (returned true, t) go_on = go_on t

  -- Behind `processInput`.
  unfoldable pub after_input :
      Outcome (Unit {0}) × Turn S → (Turn S → Outcome Bool × Turn S) → Outcome Bool × Turn S
  after_input (threw error, t) go_on = (threw error, t)
  after_input (returned u, t) go_on = go_on t

  -- A client that is closed has no more events, and an exception ends the loop.
  unfoldable pub after_event :
      Outcome Bool × Turn S → (Turn S → Outcome Bool × Turn S) → Outcome Bool × Turn S
  after_event (threw error, t) go_on = (threw error, t)
  after_event (returned true, t) go_on = (returned true, t)
  after_event (returned false, t) go_on = go_on t

  module _ (handle : Handler S) where
    unfoldable pub split_round : Option (Bytes × Bytes) → Turn S → Round S
    split_round none t = stops (returned tt) (refuse_long t)
    split_round (some (line, rest)) t =
        let (outcome, peer) = handle (strip_return line) t.peer in
        reply_round outcome (record t { client = record t.client { inbuf = rest }; peer = peer })

    unfoldable pub process_round : Turn S → Round S
    process_round t =
        if t.client.close_after_flush
        then stops (returned tt) t
        else split_round (split_line t.client.inbuf) t

    unfoldable pub process_loop : ℕ → Turn S → Outcome (Unit {0}) × Turn S
    process_loop zero t = (returned tt, t)
    process_loop (suc fuel) t = elim (process_round t) [
      | stops outcome t' ↦ (outcome, t')
      | goes t' ↦ process_loop fuel t'
    ]

    -- Each round that goes on takes a line away.
    unfoldable pub process_input : Turn S → Outcome (Unit {0}) × Turn S
    process_input t = process_loop (suc (length t.client.inbuf)) t

    -- The part of `flush` behind its loop, up to the check of the backlog.
    unfoldable pub tidy : Turn S → Outcome (Unit {0}) × Turn S
    tidy t =
        if leb (length t.client.outbuf) t.client.out_sent
        then if t.client.reading_paused
          then process_input (resume (drained t))
          else (returned tt, drained t)
        else (returned tt, trim t)

    unfoldable pub flush_end : SendEnd → Turn S → Outcome Bool × Turn S
    flush_end broken t = (returned false, t)
    flush_end blocked t = check_backlog (tidy (count_short t))
    flush_end all_sent t = check_backlog (tidy t)

    unfoldable pub flush : List SendResult → Turn S → Outcome Bool × Turn S
    flush script t =
        let (out, end) = write_out script (unsent t.client) in flush_end end (sent_out out t)

    -- A readable event, by what `readFrom` says.
    unfoldable pub handle_input : List SendResult → Bool × Bool × Turn S → Outcome Bool × Turn S
    handle_input script (false, peer_closed, t) = (returned true, t)
    handle_input script (true, peer_closed, t) =
        after_input (process_input t)
          λ t₁. after_flush (flush script t₁) λ t₂. finish_event false (note_end peer_closed t₂)

    unfoldable pub handle_readable :
        Bool → Bool → List ReadResult → List SendResult → Turn S → Outcome Bool × Turn S
    handle_readable readable closed reads writes t =
        if readable then handle_input writes (read_from reads t) else finish_event closed t

    unfoldable pub handle_client : Event → EventIo → Turn S → Outcome Bool × Turn S
    handle_client event io t =
        after_flush (if event.writable then flush io.first_writes t else (returned true, t))
          (handle_readable event.readable event.closed io.reads io.writes)

    -- The events of one client in the loop of `run`, until it is closed.
    unfoldable pub serve_client : List (Event × EventIo) → Turn S → Outcome Bool × Turn S
    serve_client [] t = (returned false, t)
    serve_client ((event, io) ∷ events) t =
        after_event (handle_client event io t) (serve_client events)
