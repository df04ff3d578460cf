-- ===== src/Net/EventLoop/Backlog.antt =====
-- What an open client may hold: output up to `kMaxOutputBytes`, and no line that could be handled.
use key_value_store.Common.{
  ℕ, zero, suc, ◌<◌, ◌≤◌, ◌≡◌, refl, Bool, true, false, List, [], ◌∷◌, Option, none, some, Bytes,
  length, if_elim, if_cases, arith, ltb, leb, if◌then◌else◌, ◌/◌, ◌&&◌, subst, ltb→le,
}
use key_value_store.Net.Lines.{
  Handler, split_line, split_line-SplitsInto, length-split_line, strip_return, max_line_length,
  HasNoNewline, SplitsInto,
}
use key_value_store.Net.Client.{
  max_output_bytes, count_short, count_command, pause, backlog, pause_reading_above_bytes,
  close_soon, Client, Turn, new_turn, unsent, SendResult, SendEnd, all_sent, blocked, broken, Event,
  EventIo, refuse_long, read_from, sent_out, drained, trim, note_end, update_interest, resume,
  put_out, write_out,
}
use key_value_store.Net.EventLoop.{
  after_event, serve_client, Round, stops, goes, reply_round, split_round, process_round,
  process_loop, process_input, check_backlog, tidy, flush_end, flush, finish_event, after_flush,
  after_input, handle_input, handle_readable, handle_client,
}
use key_value_store.Session.{Reply}
use key_value_store.Wal.Log.{Outcome, returned, threw}

-- Where a client is neither paused nor closed soon, its input has no whole line and is not too long.
abbrev pub IsHandled : Client → Type 0
IsHandled c =
    c.close_after_flush ≡ false
    → c.reading_paused ≡ false
    → HasNoNewline c.inbuf × (length c.inbuf ≤ max_line_length)

pub record IsBounded (c : Client) : Type 0 where
  pub output : backlog c ≤ max_output_bytes
  pub input : IsHandled c

module _ {ℓ} {S : Type ℓ} where
  -- An open client behind an event.
  abbrev pub BoundedAfter : Outcome Bool → Turn S → Type 0
  BoundedAfter (returned false) t = IsBounded t.client
  BoundedAfter (returned true) t = Unit {0}
  BoundedAfter (threw error) t = Unit {0}

  abbrev HandledAfter : Outcome (Unit {0}) × Turn S → Type 0
  HandledAfter (returned u, t) = IsHandled t.client
  HandledAfter (threw error, t) = Unit {0}

  abbrev FlushBounds : Outcome Bool × Turn S → Type 0
  FlushBounds (returned true, t) = IsBounded t.client
  FlushBounds (returned false, t) = Unit {0}
  FlushBounds (threw error, t) = Unit {0}

  -- A round that stops has nothing left to do; one that goes on has less than `count` bytes left.
  abbrev RoundHandles : ℕ → Round S → Type 0
  RoundHandles count (stops outcome t) = HandledAfter (outcome, t)
  RoundHandles count (goes t) = length t.client.inbuf < count

  refuse_long-IsHandled :
      (t : Turn S) → HasNoNewline t.client.inbuf → IsHandled (refuse_long t).client
  unfolding refuse_long
  refuse_long-IsHandled t plain =
      if_cases (λ (y : Turn S). IsHandled y.client) (ltb max_line_length (length t.client.inbuf))
        (λ long. λ running awake. cc)
        (λ short. λ running awake. (plain, ltb→le max_line_length (length t.client.inbuf) short))

  reply_round-Handles :
      (count : ℕ) (outcome : Outcome Reply) (t : Turn S)
      → length t.client.inbuf < count
      → RoundHandles count (reply_round outcome t)
  unfolding reply_round
  reply_round-Handles count (threw error) t h = tt
  reply_round-Handles count (returned (text, quit)) t h =
      let t' = count_command (put_out text t) in
      if_elim (RoundHandles count) quit {x = stops (returned tt) (close_soon t')}
        (λ running awake. cc)
        (if_elim (RoundHandles count) (ltb pause_reading_above_bytes (backlog t'.client))
          {x = stops (returned tt) (pause t')} {y = goes t'} (λ running awake. cc) h)

  update_interest-IsBounded :
      (t : Turn S) → IsBounded t.client → IsBounded (update_interest t).client
  unfolding update_interest
  update_interest-IsBounded t b =
      if_elim (λ (y : Turn S). IsBounded y.client) _ b
        (record { output = b.output; input = b.input })

  finish_event-Bounded :
      (hung_up : Bool) (t : Turn S)
      → IsBounded t.client
      → BoundedAfter (finish_event hung_up t).0 (finish_event hung_up t).1
  unfolding finish_event
  finish_event-Bounded hung_up t b =
      if_elim (λ (y : Outcome Bool × Turn S). BoundedAfter y.0 y.1) hung_up tt
        (if_elim (λ (y : Outcome Bool × Turn S). BoundedAfter y.0 y.1)
          (t.client.close_after_flush && leb (length t.client.outbuf) t.client.out_sent) tt
          (update_interest-IsBounded t b))

  check_backlog-Bounds :
      (y : Outcome (Unit {0}) × Turn S) → HandledAfter y → FlushBounds (check_backlog y)
  unfolding check_backlog
  check_backlog-Bounds (threw error, t) h = tt
  check_backlog-Bounds (returned u, t) h =
      if_cases FlushBounds (ltb max_output_bytes (backlog t.client)) (λ much. tt)
        (λ little.
          update_interest-IsBounded t
            (record { output = ltb→le max_output_bytes (backlog t.client) little; input = h }))

  after_flush-Bounded :
      (y : Outcome Bool × Turn S) (go_on : Turn S → Outcome Bool × Turn S)
      → FlushBounds y
      → ((t : Turn S) → IsBounded t.client → BoundedAfter (go_on t).0 (go_on t).1)
      → BoundedAfter (after_flush y go_on).0 (after_flush y go_on).1
  unfolding after_flush
  after_flush-Bounded (threw error, t) go_on b f = tt
  after_flush-Bounded (returned false, t) go_on b f = tt
  after_flush-Bounded (returned true, t) go_on b f = f t b

  after_input-Bounded :
      (y : Outcome (Unit {0}) × Turn S) (go_on : Turn S → Outcome Bool × Turn S)
      → HandledAfter y
      → ((t : Turn S) → IsHandled t.client → BoundedAfter (go_on t).0 (go_on t).1)
      → BoundedAfter (after_input y go_on).0 (after_input y go_on).1
  unfolding after_input
  after_input-Bounded (threw error, t) go_on h f = tt
  after_input-Bounded (returned u, t) go_on h f = f t h

  note_end-IsBounded :
      (peer_closed : Bool) (t : Turn S)
      → IsBounded t.client
      → IsBounded (note_end peer_closed t).client
  unfolding note_end
  note_end-IsBounded false t b = b
  note_end-IsBounded true t b = record { output = b.output; input = λ running awake. cc }

  after_event-Bounded :
      (y : Outcome Bool × Turn S) (go_on : Turn S → Outcome Bool × Turn S)
      → BoundedAfter y.0 y.1
      → ((t : Turn S) → IsBounded t.client → BoundedAfter (go_on t).0 (go_on t).1)
      → BoundedAfter (after_event y go_on).0 (after_event y go_on).1
  unfolding after_event
  after_event-Bounded (threw error, t) go_on b f = tt
  after_event-Bounded (returned true, t) go_on b f = tt
  after_event-Bounded (returned false, t) go_on b f = f t b

  module _ (handle : Handler S) where
    split_round-Handles :
        (t : Turn S) (o : Option (Bytes × Bytes))
        → split_line t.client.inbuf ≡ o
        → RoundHandles (length t.client.inbuf) (split_round handle o t)
    unfolding split_round
    split_round-Handles t none e =
        refuse_long-IsHandled t
          (subst (SplitsInto t.client.inbuf) e (split_line-SplitsInto t.client.inbuf))
    split_round-Handles t (some (line, rest)) e =
        reply_round-Handles (length t.client.inbuf) (handle (strip_return line) t.peer).0 _
          (length-split_line t.client.inbuf line rest e)

    process_round-Handles :
        (t : Turn S) → RoundHandles (length t.client.inbuf) (process_round handle t)
    unfolding process_round
    process_round-Handles t =
        if_cases (RoundHandles (length t.client.inbuf)) t.client.close_after_flush
          (λ closing. λ running awake. absurd (cc (closing, running)))
          (λ running. split_round-Handles t (split_line t.client.inbuf) refl)

    round_on :
        (go_on : Turn S → Outcome (Unit {0}) × Turn S) (count : ℕ)
        → ((t : Turn S) → length t.client.inbuf < count → HandledAfter (go_on t))
        → (r : Round S) → RoundHandles count r
        → let y : Outcome (Unit {0}) × Turn S = elim r [
          | stops outcome t' ↦ (outcome, t')
          | goes t' ↦ go_on t'
        ] in
          HandledAfter y
    round_on go_on count ih (stops outcome t) w = w
    round_on go_on count ih (goes t) w = ih t w

    process_loop-Handled :
        (fuel : ℕ) (t : Turn S)
        → length t.client.inbuf < fuel
        → HandledAfter (process_loop handle fuel t)
    unfolding process_loop
    process_loop-Handled zero t h = absurd (omega arith)
    process_loop-Handled (suc fuel) t h =
        round_on (process_loop handle fuel) (length t.client.inbuf)
          (λ t' h'. process_loop-Handled fuel t' (omega arith)) (process_round handle t)
          (process_round-Handles t)

    process_input-Handled : (t : Turn S) → HandledAfter (process_input handle t)
    unfolding process_input
    process_input-Handled t = process_loop-Handled (suc (length t.client.inbuf)) t (omega arith)

    tidy-Handled : (t : Turn S) → IsHandled t.client → HandledAfter (tidy handle t)
    unfolding tidy trim
    tidy-Handled t h =
        if_elim HandledAfter (leb (length t.client.outbuf) t.client.out_sent)
          (if_elim HandledAfter t.client.reading_paused (process_input-Handled (resume (drained t)))
            h)
          (if_elim (λ (y : Turn S). IsHandled y.client)
            (ltb 0 t.client.out_sent && ltb (length t.client.outbuf / 2) t.client.out_sent) h h)

    flush_end-Bounds :
        (end : SendEnd) (t : Turn S) → IsHandled t.client → FlushBounds (flush_end handle end t)
    unfolding flush_end
    flush_end-Bounds broken t h = tt
    flush_end-Bounds blocked t h =
        check_backlog-Bounds (tidy handle (count_short t)) (tidy-Handled (count_short t) h)
    flush_end-Bounds all_sent t h = check_backlog-Bounds (tidy handle t) (tidy-Handled t h)

    flush-Bounds :
        (script : List SendResult) (t : Turn S)
        → IsHandled t.client
        → FlushBounds (flush handle script t)
    unfolding flush
    flush-Bounds script t h =
        let (out, end) = write_out script (unsent t.client) in
        flush_end-Bounds end (sent_out out t) h

    handle_input-Bounded :
        (script : List SendResult) (y : Bool × Bool × Turn S)
        → BoundedAfter (handle_input handle script y).0 (handle_input handle script y).1
    unfolding handle_input
    handle_input-Bounded script (false, peer_closed, t) = tt
    handle_input-Bounded script (true, peer_closed, t) =
        after_input-Bounded (process_input handle t) _ (process_input-Handled t) λ t₁ h₁.
          after_flush-Bounded (flush handle script t₁) _ (flush-Bounds script t₁ h₁) λ t₂ b₂.
            finish_event-Bounded false (note_end peer_closed t₂)
              (note_end-IsBounded peer_closed t₂ b₂)

    handle_client-Bounded :
        (event : Event) (io : EventIo) (t : Turn S)
        → IsBounded t.client
        → BoundedAfter (handle_client handle event io t).0 (handle_client handle event io t).1
    unfolding handle_client handle_readable
    handle_client-Bounded event io t b =
        after_flush-Bounded
          (if event.writable then flush handle io.first_writes t else (returned true, t)) _
          (if_elim FlushBounds event.writable (flush-Bounds io.first_writes t b.input) b)
          λ t₁ b₁.
            if_elim (λ (y : Outcome Bool × Turn S). BoundedAfter y.0 y.1) event.readable
              (handle_input-Bounded io.writes (read_from io.reads t₁))
              (finish_event-Bounded event.closed t₁ b₁)

    serve_client-Bounded :
        (events : List (Event × EventIo)) (t : Turn S)
        → IsBounded t.client
        → BoundedAfter (serve_client handle events t).0 (serve_client handle events t).1
    unfolding serve_client
    serve_client-Bounded [] t b = b
    serve_client-Bounded ((event, io) ∷ events) t b =
        after_event-Bounded (handle_client handle event io t) (serve_client handle events)
          (handle_client-Bounded event io t b) (serve_client-Bounded events)

    -- Behind every event a client that stays open holds at most 8 MB of output, and, unless it is
    -- paused or closed soon, no whole line and at most 64 KB of input.
    pub serve_client-IsBounded :
        (events : List (Event × EventIo)) (start : S)
        → let y = serve_client handle events (new_turn start) in BoundedAfter y.0 y.1
    unfolding new_turn
    serve_client-IsBounded events start =
        serve_client-Bounded events (new_turn start)
          (record { output = omega arith; input = λ running awake. (tt, omega arith) })
