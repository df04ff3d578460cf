-- ===== src/Net/EventLoop/Awake.antt =====
-- An open client is watched for what it waits for, after each of its events.
use key_value_store.Common.{
  ltb→lt, ℕ, zero, suc, ◌≡◌, refl, sym, ◌∙◌, inl, inr, Bool, true, false, List, [], ◌∷◌, Option,
  none, some, Bytes, length, length-drop, if_elim, if_cases, arith, ltb, leb, if◌then◌else◌, ◌/◌,
  ◌&&◌,
}
use key_value_store.Net.Lines.{Handler, split_line, strip_return}
use key_value_store.Net.Client.{
  count_short, Turn, new_turn, unsent, SendResult, SendEnd, all_sent, blocked, broken, Event,
  EventIo, ReadResult, read_from, sent_out, drained, trim, note_end, resume, write_out,
}
use key_value_store.Net.EventLoop.{
  after_event, serve_client, Round, stops, goes, split_round, process_round, process_loop,
  process_input, tidy, flush_end, flush, handle_input, handle_readable, handle_client,
}
use key_value_store.Wal.Log.{Outcome, returned, threw}
use key_value_store.Net.EventLoop.Interest.{
  IsAwake, Waiting, AwaitsAfter, FlushAwaits, RoundAwaits, AwakeAfter, refuse_long-IsWaiting,
  reply_round-Awaits, finish_event-Awake, check_backlog-Awaits, after_flush-Awake,
  after_input-Awake, read_from-Waiting, note_end-Waiting,
}
use key_value_store.Net.EventLoop.{
  after_event, serve_client, Round, stops, goes, split_round, process_round, process_loop,
  process_input, tidy, flush_end, flush, handle_input, handle_readable, handle_client,
}
use key_value_store.Net.Client.{
  new_turn, sent_out, drained, trim, note_end, resume, write_out, unsent, read_from, Event, EventIo,
  ReadResult,
}
use key_value_store.Common.{sym, ltb→lt, suc, zero}
use key_value_store.Net.Lines.{Handler, split_line, strip_return}

module _ {ℓ} {S : Type ℓ} where
  module _ (handle : Handler S) where
    split_round-Awaits :
        (t : Turn S) (o : Option (Bytes × Bytes)) → Waiting t → RoundAwaits (split_round handle o t)
    unfolding split_round
    split_round-Awaits t none w = refuse_long-IsWaiting t w
    split_round-Awaits t (some (line, rest)) w =
        reply_round-Awaits (handle (strip_return line) t.peer).0 _
          (record { watches = w.watches; unblocked = w.unblocked })

    process_round-Awaits : (t : Turn S) → Waiting t → RoundAwaits (process_round handle t)
    unfolding process_round
    process_round-Awaits t w =
        if_elim RoundAwaits t.client.close_after_flush w
          (split_round-Awaits t (split_line t.client.inbuf) w)

    round_on :
        (go_on : Turn S → Outcome (Unit {0}) × Turn S)
        → ((t : Turn S) → Waiting t → AwaitsAfter (go_on t))
        → (r : Round S) → RoundAwaits r
        → let y : Outcome (Unit {0}) × Turn S = elim r [
          | stops outcome t' ↦ (outcome, t')
          | goes t' ↦ go_on t'
        ] in
          AwaitsAfter y
    round_on go_on ih (stops outcome t) w = w
    round_on go_on ih (goes t) w = ih t w

    process_loop-Awaits :
        (fuel : ℕ) (t : Turn S) → Waiting t → AwaitsAfter (process_loop handle fuel t)
    unfolding process_loop
    process_loop-Awaits zero t w = w
    process_loop-Awaits (suc fuel) t w =
        round_on (process_loop handle fuel) (process_loop-Awaits fuel) (process_round handle t)
          (process_round-Awaits t w)

    process_input-Awaits : (t : Turn S) → Waiting t → AwaitsAfter (process_input handle t)
    unfolding process_input
    process_input-Awaits t w = process_loop-Awaits (suc (length t.client.inbuf)) t w

    -- Whatever waits after the loop of `flush`, what goes on has something to send if it is paused.
    tidy-Awaits :
        (t : Turn S)
        → t.watched ≡ (t.client.wants_read, t.client.wants_write)
        → AwaitsAfter (tidy handle t)
    unfolding tidy trim
    tidy-Awaits t w =
        if_cases AwaitsAfter (leb (length t.client.outbuf) t.client.out_sent)
          (λ all.
            if_cases AwaitsAfter t.client.reading_paused
              (λ paused.
                process_input-Awaits (resume (drained t))
                  (record { watches = w; unblocked = λ e. cc }))
              (λ running. record { watches = w; unblocked = λ e. cc (running, e) }))
          (λ some_left.
            if_elim Waiting
              (ltb 0 t.client.out_sent && ltb (length t.client.outbuf / 2) t.client.out_sent)
              (record {
                watches = w;
                unblocked = λ e.
                    inl (ground (arith, some_left, length-drop t.client.out_sent t.client.outbuf));
              })
              (record { watches = w; unblocked = λ e. inl (ground (arith, some_left)) }))

    flush_end-Awaits :
        (end : SendEnd) (t : Turn S)
        → t.watched ≡ (t.client.wants_read, t.client.wants_write)
        → FlushAwaits (flush_end handle end t)
    unfolding flush_end
    flush_end-Awaits broken t w = tt
    flush_end-Awaits blocked t w =
        check_backlog-Awaits (tidy handle (count_short t)) (tidy-Awaits (count_short t) w)
    flush_end-Awaits all_sent t w = check_backlog-Awaits (tidy handle t) (tidy-Awaits t w)

    flush-Awaits :
        (script : List SendResult) (t : Turn S) → Waiting t → FlushAwaits (flush handle script t)
    unfolding flush
    flush-Awaits script t w =
        let (out, end) = write_out script (unsent t.client) in
        flush_end-Awaits end (sent_out out t) w.watches

    handle_input-Awake :
        (script : List SendResult) (y : Bool × Bool × Turn S)
        → Waiting y.2
        → AwakeAfter (handle_input handle script y).0 (handle_input handle script y).1
    unfolding handle_input
    handle_input-Awake script (false, peer_closed, t) w = tt
    handle_input-Awake script (true, peer_closed, t) w =
        after_input-Awake (process_input handle t) _ (process_input-Awaits t w) λ t₁ w₁.
          after_flush-Awake (flush handle script t₁) _ (flush-Awaits script t₁ w₁) λ t₂ w₂.
            finish_event-Awake false (note_end peer_closed t₂) (note_end-Waiting peer_closed t₂ w₂)

    handle_readable-Awake :
        (readable closed : Bool) (reads : List ReadResult) (writes : List SendResult) (t : Turn S)
        → Waiting t
        → AwakeAfter
            (handle_readable handle readable closed reads writes t).0
            (handle_readable handle readable closed reads writes t).1
    unfolding handle_readable
    handle_readable-Awake readable closed reads writes t w =
        if_elim (λ (y : Outcome Bool × Turn S). AwakeAfter y.0 y.1) readable
          (handle_input-Awake writes (read_from reads t) (read_from-Waiting reads t w))
          (finish_event-Awake closed t w)

    handle_client-Awake :
        (event : Event) (io : EventIo) (t : Turn S)
        → Waiting t
        → AwakeAfter (handle_client handle event io t).0 (handle_client handle event io t).1
    unfolding handle_client
    handle_client-Awake event io t w =
        after_flush-Awake
          (if event.writable then flush handle io.first_writes t else (returned true, t)) _
          (if_elim FlushAwaits event.writable (flush-Awaits io.first_writes t w) w)
          (handle_readable-Awake event.readable event.closed io.reads io.writes)

    Waiting-of_IsAwake : (t : Turn S) → IsAwake t.client t.watched → Waiting t
    Waiting-of_IsAwake t a = record {
      watches = a.told;
      unblocked = λ paused. inl (elim a.alive [
        | inl e ↦ absurd (cc (sym a.reads ∙ e, paused))
        | inr e ↦ ltb→lt t.client.out_sent (length t.client.outbuf) (sym a.writes ∙ e)
      ]);
    }

    after_event-Awake :
        (y : Outcome Bool × Turn S) (go_on : Turn S → Outcome Bool × Turn S)
        → AwakeAfter y.0 y.1
        → ((t : Turn S) → IsAwake t.client t.watched → AwakeAfter (go_on t).0 (go_on t).1)
        → AwakeAfter (after_event y go_on).0 (after_event y go_on).1
    unfolding after_event
    after_event-Awake (threw error, t) go_on w f = tt
    after_event-Awake (returned true, t) go_on w f = tt
    after_event-Awake (returned false, t) go_on w f = f t w

    serve_client-Awake :
        (events : List (Event × EventIo)) (t : Turn S)
        → IsAwake t.client t.watched
        → AwakeAfter (serve_client handle events t).0 (serve_client handle events t).1
    unfolding serve_client
    serve_client-Awake [] t a = a
    serve_client-Awake ((event, io) ∷ events) t a =
        after_event-Awake (handle_client handle event io t) (serve_client handle events)
          (handle_client-Awake event io t (Waiting-of_IsAwake t a)) (serve_client-Awake events)

    -- Behind every event a client that stays open is watched by the poller for input unless it is
    -- paused, and for output exactly when some waits to go out, and it is watched for one of the
    -- two.
    pub serve_client-IsAwake :
        (events : List (Event × EventIo)) (start : S)
        → let y = serve_client handle events (new_turn start) in AwakeAfter y.0 y.1
    unfolding new_turn
    serve_client-IsAwake events start =
        serve_client-Awake events (new_turn start)
          (record { told = refl; reads = refl; writes = refl; alive = inl refl })
