-- ===== src/Net/EventLoop/Replies.antt =====
-- src/net/event_loop.cpp: one event of a client of the loop, from the poller to the flush.
use key_value_store.Common.{
  ◌&&◌, refl, ap, ◌∙◌, inl, inr, Bool, true, false, List, [], ◌∷◌, ◌++◌, length, append_assoc,
  if_elim, leb, if◌then◌else◌,
}
use key_value_store.Net.Lines.{Handler}
use key_value_store.Net.Client.{
  new_turn, Turn, SendResult, Event, EventIo, ReadResult, received, at_end, interrupted_read,
  no_input, read_failed, read_from, note_end,
}
use key_value_store.Net.EventLoop.{
  after_event, serve_client, process_input, flush, finish_event, after_flush, after_input,
  handle_input, handle_readable, handle_client,
}
use key_value_store.Wal.Log.{Outcome, returned, threw}
use key_value_store.Net.EventLoop.Rounds.{new_turn-Follows, FollowsAt, Ends, process_input-Ends}
use key_value_store.Net.EventLoop.Backlog.{BoundedAfter, IsHandled, serve_client-IsBounded}
use key_value_store.Net.EventLoop.Flushing.{flush-Ends, update_interest-Follows}

module _ {ℓ} {S : Type ℓ} (handle : Handler S) (start : S) where
  abbrev EndsAt {κ} : {A : Type κ} → Outcome A × Turn S → Type ℓ
  EndsAt y = Ends handle start y.0 y.1

  finish_event-Ends :
      (hung_up : Bool) (t : Turn S) → FollowsAt handle start t → EndsAt (finish_event hung_up t)
  unfolding finish_event
  finish_event-Ends hung_up t x = if_elim EndsAt hung_up x (
      if_elim EndsAt (t.client.close_after_flush && leb (length t.client.outbuf) t.client.out_sent)
        x (update_interest-Follows handle start t x))

  -- A client that is closed soon may have had its complaint.
  note_end-Follows :
      (peer_closed : Bool) (t : Turn S)
      → FollowsAt handle start t
      → FollowsAt handle start (note_end peer_closed t)
  unfolding note_end
  note_end-Follows false t x = x
  note_end-Follows true t x = record {
    used = x.used;
    out = x.out;
    complaint = x.complaint;
    took_all = x.took_all;
    handled = x.handled;
    replies = x.replies;
    within = x.within;
    complains = elim x.complains [ inl e ↦ inl e | inr (e, c) ↦ inr (e, refl) ];
  }

  after_flush-Ends :
      (y : Outcome Bool × Turn S) (go_on : Turn S → Outcome Bool × Turn S)
      → EndsAt y
      → ((t : Turn S) → FollowsAt handle start t → EndsAt (go_on t))
      → EndsAt (after_flush y go_on)
  unfolding after_flush
  after_flush-Ends (threw error, t) go_on x f = x
  after_flush-Ends (returned false, t) go_on x f = x
  after_flush-Ends (returned true, t) go_on x f = f t x

  after_input-Ends :
      (y : Outcome (Unit {0}) × Turn S) (go_on : Turn S → Outcome Bool × Turn S)
      → EndsAt y
      → ((t : Turn S) → FollowsAt handle start t → EndsAt (go_on t))
      → EndsAt (after_input y go_on)
  unfolding after_input
  after_input-Ends (threw error, t) go_on x f = x
  after_input-Ends (returned u, t) go_on x f = f t x

  read_from-Follows :
      (script : List ReadResult) (t : Turn S)
      → FollowsAt handle start t
      → FollowsAt handle start (read_from script t).2
  unfolding read_from
  read_from-Follows [] t x = x
  read_from-Follows (received bytes ∷ script) t x =
      if_elim (λ (y : Bool × Bool × Turn S). FollowsAt handle start y.2) t.client.reading_paused x
        (record {
          used = x.used;
          out = x.out;
          complaint = x.complaint;
          took_all = ap (λ z. z ++ bytes) x.took_all ∙ append_assoc x.used t.client.inbuf bytes;
          handled = x.handled;
          replies = x.replies;
          within = x.within;
          complains = x.complains;
        })
  read_from-Follows (interrupted_read ∷ script) t x =
      if_elim (λ (y : Bool × Bool × Turn S). FollowsAt handle start y.2) t.client.reading_paused x
        (read_from-Follows script t x)
  read_from-Follows (no_input ∷ script) t x =
      if_elim (λ (y : Bool × Bool × Turn S). FollowsAt handle start y.2) t.client.reading_paused x x
  read_from-Follows (read_failed ∷ script) t x =
      if_elim (λ (y : Bool × Bool × Turn S). FollowsAt handle start y.2) t.client.reading_paused x x
  read_from-Follows (at_end ∷ script) t x =
      if_elim (λ (y : Bool × Bool × Turn S). FollowsAt handle start y.2) t.client.reading_paused x x

  handle_input-Ends :
      (script : List SendResult) (y : Bool × Bool × Turn S)
      → FollowsAt handle start y.2
      → EndsAt (handle_input handle script y)
  unfolding handle_input
  handle_input-Ends script (false, peer_closed, t) x = x
  handle_input-Ends script (true, peer_closed, t) x =
      after_input-Ends (process_input handle t) _ (process_input-Ends handle start t x) λ t₁ x₁.
        after_flush-Ends (flush handle script t₁) _ (flush-Ends handle start script t₁ x₁) λ t₂ x₂.
          finish_event-Ends false (note_end peer_closed t₂) (note_end-Follows peer_closed t₂ x₂)

  handle_readable-Ends :
      (readable closed : Bool) (reads : List ReadResult) (writes : List SendResult) (t : Turn S)
      → FollowsAt handle start t
      → EndsAt (handle_readable handle readable closed reads writes t)
  unfolding handle_readable
  handle_readable-Ends readable closed reads writes t x =
      if_elim EndsAt readable
        (handle_input-Ends writes (read_from reads t) (read_from-Follows reads t x))
        (finish_event-Ends closed t x)

  handle_client-Ends :
      (event : Event) (io : EventIo) (t : Turn S)
      → FollowsAt handle start t
      → Ends handle start (handle_client handle event io t).0 (handle_client handle event io t).1
  unfolding handle_client
  handle_client-Ends event io t x =
      after_flush-Ends
        (if event.writable then flush handle io.first_writes t else (returned true, t))
        (handle_readable handle event.readable event.closed io.reads io.writes)
        (if_elim EndsAt event.writable (flush-Ends handle start io.first_writes t x) x)
        (handle_readable-Ends event.readable event.closed io.reads io.writes)

  after_event-Ends :
      (y : Outcome Bool × Turn S) (go_on : Turn S → Outcome Bool × Turn S)
      → EndsAt y
      → ((t : Turn S) → FollowsAt handle start t → EndsAt (go_on t))
      → EndsAt (after_event y go_on)
  unfolding after_event
  after_event-Ends (threw error, t) go_on x f = x
  after_event-Ends (returned true, t) go_on x f = x
  after_event-Ends (returned false, t) go_on x f = f t x

  serve_client-Follows :
      (events : List (Event × EventIo)) (t : Turn S)
      → FollowsAt handle start t
      → EndsAt (serve_client handle events t)
  unfolding serve_client
  serve_client-Follows [] t x = x
  serve_client-Follows ((event, io) ∷ events) t x =
      after_event-Ends (handle_client handle event io t) (serve_client handle events)
        (handle_client-Ends event io t x) (serve_client-Follows events)

  new_turn-serve_client :
      (events : List (Event × EventIo)) → EndsAt (serve_client handle events (new_turn start))
  new_turn-serve_client events =
      serve_client-Follows events (new_turn start) (new_turn-Follows handle start)

  -- An open client that is neither paused nor closed soon waits for the rest of one line at most.
  abbrev pub NoneWaits : Outcome Bool → Turn S → Type 0
  NoneWaits (returned false) t = IsHandled t.client
  NoneWaits (returned true) t = Unit {0}
  NoneWaits (threw error) t = Unit {0}

  bounded-NoneWaits : (o : Outcome Bool) (t : Turn S) → BoundedAfter o t → NoneWaits o t
  bounded-NoneWaits (returned false) t b = b.input
  bounded-NoneWaits (returned true) t b = tt
  bounded-NoneWaits (threw error) t b = tt

  -- Whatever events a client of the loop has, however its bytes are cut and whatever its socket
  -- takes: what was read is some whole lines, which were handled in order, and then what is left in
  -- its input, and a client that is open and neither paused nor closed soon has no whole line and
  -- at most 64 KB left; what went out followed by what waits to go out is the replies to the
  -- handled lines, with at most the complaint on a line that is too long behind; or the last line
  -- that was taken made the log throw, and the replies to those before it went out or wait.
  pub serve_client-Ends :
      (events : List (Event × EventIo))
      → let y = serve_client handle events (new_turn start) in
        Ends handle start y.0 y.1 × NoneWaits y.0 y.1
  serve_client-Ends events =
      let y = serve_client handle events (new_turn start) in
      (
        new_turn-serve_client events,
        bounded-NoneWaits y.0 y.1 (serve_client-IsBounded handle events start),
      )
