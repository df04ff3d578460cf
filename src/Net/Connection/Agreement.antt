-- ===== src/Net/Connection/Agreement.antt =====
-- The event loop and a thread of its own give a client the same replies.
use key_value_store.Common.{
  ◌≡◌, sym, ap, ◌∙◌, inl, inr, subst, true, false, List, [], ◌++◌, append-nil,
}
use key_value_store.Net.Lines.{Handler, HasNoNewline}
use key_value_store.Net.Sequence.{Handled-unique}
use key_value_store.Net.Client.{Turn, new_turn, Event, EventIo, unsent}
use key_value_store.Net.EventLoop.{serve_client}
use key_value_store.Net.EventLoop.Rounds
use key_value_store.Net.EventLoop.Replies
use key_value_store.Net.EventLoop.Backlog.{BoundedAfter, IsBounded, serve_client-IsBounded}
use key_value_store.Net.Connection.{Connection, new_connection, Round, run}
use key_value_store.Net.Connection.Following.{Follows, Ends}
use key_value_store.Net.Connection.Replies.{last_read, run-Ends}
use key_value_store.Wal.Log.{returned}

module _ {ℓ} {S : Type ℓ} (handle : Handler S) (start : S) where
  agree :
      (t : Turn S) (c : Connection S)
      → Rounds.FollowsAt handle start t
      → Follows handle start c
      → t.client.close_after_flush ≡ false
      → HasNoNewline t.client.inbuf
      → HasNoNewline c.inbuf
      → t.taken ≡ c.taken
      → (t.wire ++ unsent t.client ≡ c.wire) × (t.peer ≡ c.peer)
  agree t c x y running plain plain' same =
      let (out, peer) =
        Handled-unique handle start t.peer c.peer x.used y.used x.out c.wire t.client.inbuf c.inbuf
          x.handled y.handled plain plain' (sym x.took_all ∙ (same ∙ y.took_all)) in
      (
        elim x.complains [
          | inl e ↦ x.replies ∙ (ap (λ z. x.out ++ z) e ∙ (append-nil x.out ∙ out))
          | inr (e, closing) ↦ absurd (cc (running, closing))
        ],
        peer,
      )

  -- Where a client of the event loop and one with a thread of its own were sent the same bytes,
  -- both are open, the first is neither paused nor closed soon and the second holds no whole line:
  -- the first has sent, or holds to be sent, exactly what the second has sent, and their sessions
  -- and stores are the same.
  pub serve_client-run :
      (events : List (Event × EventIo)) (rounds : List Round) (t : Turn S) (c : Connection S)
      → serve_client handle events (new_turn start) ≡ (returned false, t)
      → run handle rounds (new_connection start) ≡ (returned true, c)
      → t.client.close_after_flush ≡ false
      → t.client.reading_paused ≡ false
      → HasNoNewline c.inbuf
      → t.taken ≡ c.taken
      → (t.wire ++ unsent t.client ≡ c.wire) × (t.peer ≡ c.peer)
  serve_client-run events rounds t c going going' running awake plain same =
      let loop : Rounds.FollowsAt handle start t =
        subst (λ y. Rounds.Ends handle start y.0 y.1) going
          (Replies.serve_client-Ends handle start events).0 in
      let bounded : IsBounded t.client =
        subst (λ y. BoundedAfter y.0 y.1) going (serve_client-IsBounded handle events start) in
      let thread : Follows handle start c =
        (subst (λ y. Ends handle start (last_read [] rounds) y.0 y.1) going'
          (run-Ends handle start rounds)).0 in
      agree t c loop thread running (bounded.input running awake).0 plain same
