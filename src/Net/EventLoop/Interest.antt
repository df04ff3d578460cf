-- ===== src/Net/EventLoop/Interest.antt =====
-- What the poller watches a client for: a client that stays open is never left waiting for nothing.
use key_value_store.Common.{
  lt→ltb, ℕ, ◌<◌, ◌≡◌, refl, ap, ◌∙◌, ◌⊎◌, inl, inr, Bool, true, false, List, [], ◌∷◌, Bytes,
  length, length-append, if_elim, if_cases, arith, ltb, leb, not, ◌&&◌,
}
use key_value_store.Net.Lines.{max_line_length}
use key_value_store.Net.Client.{
  agree, max_output_bytes, count_command, pause, backlog, pause_reading_above_bytes, close_soon,
  Client, Turn, ReadResult, received, at_end, interrupted_read, no_input, read_failed, refuse_long,
  read_from, note_end, update_interest, put_out,
}
use key_value_store.Net.EventLoop.{
  Round, stops, goes, reply_round, check_backlog, finish_event, after_flush, after_input,
}
use key_value_store.Session.{Reply}
use key_value_store.Wal.Log.{Outcome, returned, threw}

-- Some replies wait to go out.
abbrev pub HasUnsent : Client → Type 0
HasUnsent c = c.out_sent < length c.outbuf

-- The poller has the wishes of the client as it last told them, and a client that is paused has
-- something to send, or is closed soon.
pub record IsWaiting (c : Client) (watched : Bool × Bool) : Type 0 where
  pub watches : watched ≡ (c.wants_read, c.wants_write)
  pub unblocked : c.reading_paused ≡ true → HasUnsent c ⊎ (c.close_after_flush ≡ true)

-- The poller watches an open client for input unless it is paused, and for output when some waits;
-- and it watches for one of them.
pub record IsAwake (c : Client) (watched : Bool × Bool) : Type 0 where
  pub told : watched ≡ (c.wants_read, c.wants_write)
  pub reads : watched.0 ≡ not c.reading_paused
  pub writes : watched.1 ≡ ltb c.out_sent (length c.outbuf)
  pub alive : (watched.0 ≡ true) ⊎ (watched.1 ≡ true)

agree_eq : (a b : Bool) → agree a b ≡ true → b ≡ a
agree_eq true b e = e
agree_eq false true e = cc
agree_eq false false e = refl

both : (a b : Bool) → (a && b) ≡ true → (a ≡ true) × (b ≡ true)
both true b e = (refl, e)
both false b e = cc

-- One of the two wishes is there where a paused client has something to send.
one_wish :
    (paused : Bool) (n m : ℕ) → (paused ≡ true → n < m) → (not paused ≡ true) ⊎ (ltb n m ≡ true)
one_wish false n m h = inl refl
one_wish true n m h = inr (lt→ltb n m (h refl))

module _ {ℓ} {S : Type ℓ} where
  abbrev pub Waiting : Turn S → Type 0
  Waiting t = IsWaiting t.client t.watched

  abbrev pub AwaitsAfter {κ} : {A : Type κ} → Outcome A × Turn S → Type 0
  AwaitsAfter (returned a, t) = Waiting t
  AwaitsAfter (threw error, t) = Unit {0}

  -- A flush that fails closes its client.
  abbrev pub FlushAwaits : Outcome Bool × Turn S → Type 0
  FlushAwaits (returned true, t) = Waiting t
  FlushAwaits (returned false, t) = Unit {0}
  FlushAwaits (threw error, t) = Unit {0}

  abbrev pub RoundAwaits : Round S → Type 0
  RoundAwaits (stops outcome t) = AwaitsAfter (outcome, t)
  RoundAwaits (goes t) = Waiting t

  -- An open client behind an event.
  abbrev pub AwakeAfter : Outcome Bool → Turn S → Type 0
  AwakeAfter (returned false) t = IsAwake t.client t.watched
  AwakeAfter (returned true) t = Unit {0}
  AwakeAfter (threw error) t = Unit {0}

  pub put_out-IsWaiting : (text : Bytes) (t : Turn S) → Waiting t → Waiting (put_out text t)
  put_out-IsWaiting text t w = record {
    watches = w.watches;
    unblocked = λ e. elim (w.unblocked e) [
      | inl h ↦ inl (omega (arith, h, length-append t.client.outbuf text))
      | inr h ↦ inr h
    ];
  }

  pub refuse_long-IsWaiting : (t : Turn S) → Waiting t → Waiting (refuse_long t)
  unfolding refuse_long
  refuse_long-IsWaiting t w =
      if_elim Waiting (ltb max_line_length (length t.client.inbuf))
        (record { watches = w.watches; unblocked = λ e. inr refl }) w

  pub reply_round-Awaits :
      (outcome : Outcome Reply) (t : Turn S) → Waiting t → RoundAwaits (reply_round outcome t)
  unfolding reply_round
  reply_round-Awaits (threw error) t w = tt
  reply_round-Awaits (returned (text, quit)) t w =
      let t' = count_command (put_out text t) in
      let w' = put_out-IsWaiting text t w in
      if_elim RoundAwaits quit {x = stops (returned tt) (close_soon t')}
        (record { watches = w.watches; unblocked = λ e. inr refl })
        (if_cases RoundAwaits (ltb pause_reading_above_bytes (backlog t'.client))
          {x = stops (returned tt) (pause t')} {y = goes t'}
          (λ much. record { watches = w.watches; unblocked = λ e. inl (ground (arith, much)) })
          (λ little. w'))

  -- The wishes are told anew.
  pub update_interest-IsAwake :
      (t : Turn S)
      → t.watched ≡ (t.client.wants_read, t.client.wants_write)
      → (t.client.reading_paused ≡ true → HasUnsent t.client)
      → IsAwake (update_interest t).client (update_interest t).watched
  unfolding update_interest
  update_interest-IsAwake t w u =
      let want_write = ltb t.client.out_sent (length t.client.outbuf) in
      let want_read = not t.client.reading_paused in
      let wish = one_wish t.client.reading_paused t.client.out_sent (length t.client.outbuf) u in
      if_cases (λ (y : Turn S). IsAwake y.client y.watched)
        (agree want_write t.client.wants_write && agree want_read t.client.wants_read)
        (λ same.
          let (same_write, same_read) = both _ _ same in
          let reads = ap (λ z. z.0) w ∙ agree_eq want_read t.client.wants_read same_read in
          let writes = ap (λ z. z.1) w ∙ agree_eq want_write t.client.wants_write same_write in
          record {
            told = w;
            reads = reads;
            writes = writes;
            alive = elim wish [ inl e ↦ inl (reads ∙ e) | inr e ↦ inr (writes ∙ e) ];
          })
        (λ other. record { told = refl; reads = refl; writes = refl; alive = wish })

  -- A turn whose wishes were just told is a waiting one.
  pub waits :
      (t : Turn S)
      → (t.client.reading_paused ≡ true → HasUnsent t.client ⊎ (t.client.close_after_flush ≡ true))
      → t.watched ≡ (t.client.wants_read, t.client.wants_write)
      → Waiting (update_interest t)
  unfolding update_interest
  waits t u w =
      if_elim Waiting
        (agree (ltb t.client.out_sent (length t.client.outbuf)) t.client.wants_write
          && agree (not t.client.reading_paused) t.client.wants_read)
        (record { watches = w; unblocked = u }) (record { watches = refl; unblocked = u })

  pub finish_event-Awake :
      (hung_up : Bool) (t : Turn S)
      → Waiting t
      → AwakeAfter (finish_event hung_up t).0 (finish_event hung_up t).1
  unfolding finish_event
  finish_event-Awake hung_up t w =
      if_elim (λ (y : Outcome Bool × Turn S). AwakeAfter y.0 y.1) hung_up tt
        (if_cases (λ (y : Outcome Bool × Turn S). AwakeAfter y.0 y.1)
          (t.client.close_after_flush && leb (length t.client.outbuf) t.client.out_sent)
          (λ done. tt)
          (λ going. update_interest-IsAwake t w.watches (λ e. elim (w.unblocked e) [
            | inl h ↦ h
            | inr closing ↦ ground (arith, closing, going)
          ])))

  pub check_backlog-Awaits :
      (y : Outcome (Unit {0}) × Turn S) → AwaitsAfter y → FlushAwaits (check_backlog y)
  unfolding check_backlog
  check_backlog-Awaits (threw error, t) w = tt
  check_backlog-Awaits (returned u, t) w =
      if_elim FlushAwaits (ltb max_output_bytes (backlog t.client)) tt
        (waits t w.unblocked w.watches)

  pub after_flush-Awake :
      (y : Outcome Bool × Turn S) (go_on : Turn S → Outcome Bool × Turn S)
      → FlushAwaits y
      → ((t : Turn S) → Waiting t → AwakeAfter (go_on t).0 (go_on t).1)
      → AwakeAfter (after_flush y go_on).0 (after_flush y go_on).1
  unfolding after_flush
  after_flush-Awake (threw error, t) go_on w f = tt
  after_flush-Awake (returned false, t) go_on w f = tt
  after_flush-Awake (returned true, t) go_on w f = f t w

  pub after_input-Awake :
      (y : Outcome (Unit {0}) × Turn S) (go_on : Turn S → Outcome Bool × Turn S)
      → AwaitsAfter y
      → ((t : Turn S) → Waiting t → AwakeAfter (go_on t).0 (go_on t).1)
      → AwakeAfter (after_input y go_on).0 (after_input y go_on).1
  unfolding after_input
  after_input-Awake (threw error, t) go_on w f = tt
  after_input-Awake (returned u, t) go_on w f = f t w

  pub read_from-Waiting :
      (script : List ReadResult) (t : Turn S) → Waiting t → Waiting (read_from script t).2
  unfolding read_from
  read_from-Waiting [] t w = w
  read_from-Waiting (received bytes ∷ script) t w =
      if_elim (λ (y : Bool × Bool × Turn S). Waiting y.2) t.client.reading_paused w
        (record { watches = w.watches; unblocked = w.unblocked })
  read_from-Waiting (interrupted_read ∷ script) t w =
      if_elim (λ (y : Bool × Bool × Turn S). Waiting y.2) t.client.reading_paused w
        (read_from-Waiting script t w)
  read_from-Waiting (no_input ∷ script) t w =
      if_elim (λ (y : Bool × Bool × Turn S). Waiting y.2) t.client.reading_paused w w
  read_from-Waiting (read_failed ∷ script) t w =
      if_elim (λ (y : Bool × Bool × Turn S). Waiting y.2) t.client.reading_paused w w
  read_from-Waiting (at_end ∷ script) t w =
      if_elim (λ (y : Bool × Bool × Turn S). Waiting y.2) t.client.reading_paused w w

  pub note_end-Waiting :
      (peer_closed : Bool) (t : Turn S) → Waiting t → Waiting (note_end peer_closed t)
  unfolding note_end
  note_end-Waiting false t w = w
  note_end-Waiting true t w = record { watches = w.watches; unblocked = λ e. inr refl }
