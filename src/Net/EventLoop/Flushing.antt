-- ===== src/Net/EventLoop/Flushing.antt =====
-- What goes out to a client of the loop: `flush` sends the replies in order, whatever its socket takes.
use key_value_store.Common.{
  drop-append_right, ◌/◌, ◌&&◌, if_cases, ℕ, ◌+◌, ◌≤◌, ◌≡◌, refl, sym, ap, ◌∙◌, Bool, List, [], ◌∷◌,
  ◌++◌, Bytes, length, drop, append-nil, append_assoc, length-append, length-drop, drop_add,
  drop_of_length-le, if_elim, arith, ltb, leb, take, take-drop,
}
use key_value_store.Net.Lines.{Handler}
use key_value_store.Net.Client.{
  max_output_bytes, count_short, backlog, Turn, unsent, SendResult, SendEnd, all_sent, blocked,
  broken, took, interrupted, would_block, failed, write_out, sent_out, drained, trim,
  update_interest, resume,
}
use key_value_store.Net.EventLoop.{check_backlog, tidy, flush_end, flush}
use key_value_store.Wal.Log.{Outcome, returned, threw}
use key_value_store.Net.EventLoop.Rounds.{Follows, FollowsAt, Ends, process_input-Ends}

module _ {ℓ} {S : Type ℓ} (handle : Handler S) (start : S) where
  write_out_rest :
      (script : List SendResult) (u : Bytes) → (rest : Bytes) × (u ≡ (write_out script u).0 ++ rest)
  unfolding write_out
  write_out_rest [] u = ([], sym (append-nil u))
  write_out_rest (r ∷ script) [] = ([], refl)
  write_out_rest (interrupted ∷ script) (b ∷ u) = write_out_rest script (b ∷ u)
  write_out_rest (would_block ∷ script) (b ∷ u) = (b ∷ u, refl)
  write_out_rest (failed ∷ script) (b ∷ u) = (b ∷ u, refl)
  write_out_rest (took n ∷ script) (b ∷ u) =
      let (rest, e) = write_out_rest script (drop n (b ∷ u)) in
      (
        rest,
        sym (
            append_assoc (take n (b ∷ u)) (write_out script (drop n (b ∷ u))).0 rest
            ∙ (ap (λ z. take n (b ∷ u) ++ z) (sym e) ∙ take-drop n (b ∷ u))),
      )

  sent_out-Follows :
      (out : Bytes) (t : Turn S)
      → (rest : Bytes) → unsent t.client ≡ out ++ rest
      → FollowsAt handle start t
      → FollowsAt handle start (sent_out out t)
  sent_out-Follows out t rest e x =
      let left : drop (t.client.out_sent + length out) t.client.outbuf ≡ rest =
        drop_add t.client.out_sent (length out) t.client.outbuf
        ∙ (ap (drop (length out)) e ∙ drop-append_right out rest 0 (length out) (omega arith)) in
      record {
        used = x.used;
        out = x.out;
        complaint = x.complaint;
        took_all = x.took_all;
        handled = x.handled;
        replies =
            ap (λ z. (t.wire ++ out) ++ z) left
            ∙ (append_assoc t.wire out rest ∙ (ap (λ z. t.wire ++ z) (sym e) ∙ x.replies));
        within = omega (
          arith,
          x.within,
          length-drop t.client.out_sent t.client.outbuf,
          ap length e,
          length-append out rest,
        );
        complains = x.complains;
      }

  -- The same bytes wait to go out.
  same_out :
      (t : Turn S) (outbuf : Bytes) (n : ℕ)
      → drop n outbuf ≡ unsent t.client
      → n ≤ length outbuf
      → FollowsAt handle start t
      → Follows handle start t.taken t.client.inbuf t.peer t.wire outbuf n
          t.client.close_after_flush
  same_out t outbuf n e h x = record {
    used = x.used;
    out = x.out;
    complaint = x.complaint;
    took_all = x.took_all;
    handled = x.handled;
    replies = ap (λ z. t.wire ++ z) e ∙ x.replies;
    within = h;
    complains = x.complains;
  }

  tidy-Ends :
      (t : Turn S)
      → FollowsAt handle start t
      → Ends handle start (tidy handle t).0 (tidy handle t).1
  unfolding tidy trim
  tidy-Ends t x =
      if_cases (λ (y : Outcome (Unit {0}) × Turn S). Ends handle start y.0 y.1)
        (leb (length t.client.outbuf) t.client.out_sent)
        (λ all.
          let y =
            same_out t [] 0
              (sym (drop_of_length-le t.client.out_sent t.client.outbuf (ground (arith, all))))
              (omega arith) x in
          if_elim (λ (y : Outcome (Unit {0}) × Turn S). Ends handle start y.0 y.1)
            t.client.reading_paused (process_input-Ends handle start (resume (drained t)) y) y)
        (λ some_left.
          if_elim (FollowsAt handle start)
            (ltb 0 t.client.out_sent && ltb (length t.client.outbuf / 2) t.client.out_sent)
            (same_out t (unsent t.client) 0 refl (omega arith) x) x)

  pub update_interest-Follows :
      (t : Turn S) → FollowsAt handle start t → FollowsAt handle start (update_interest t)
  unfolding update_interest
  update_interest-Follows t x = if_elim (FollowsAt handle start) _ x x

  check_backlog-Ends :
      (y : Outcome (Unit {0}) × Turn S)
      → Ends handle start y.0 y.1
      → Ends handle start (check_backlog y).0 (check_backlog y).1
  unfolding check_backlog
  check_backlog-Ends (threw error, t) x = x
  check_backlog-Ends (returned u, t) x =
      if_elim (λ (y : Outcome Bool × Turn S). Ends handle start y.0 y.1)
        (ltb max_output_bytes (backlog t.client)) x (update_interest-Follows t x)

  flush_end-Ends :
      (end : SendEnd) (t : Turn S)
      → FollowsAt handle start t
      → Ends handle start (flush_end handle end t).0 (flush_end handle end t).1
  unfolding flush_end
  flush_end-Ends broken t x = x
  flush_end-Ends blocked t x =
      check_backlog-Ends (tidy handle (count_short t)) (tidy-Ends (count_short t) x)
  flush_end-Ends all_sent t x = check_backlog-Ends (tidy handle t) (tidy-Ends t x)

  pub flush-Ends :
      (script : List SendResult) (t : Turn S)
      → FollowsAt handle start t
      → Ends handle start (flush handle script t).0 (flush handle script t).1
  unfolding flush
  flush-Ends script t x =
      let (rest, e) = write_out_rest script (unsent t.client) in
      let (out, end) = write_out script (unsent t.client) in
      flush_end-Ends end (sent_out out t) (sent_out-Follows out t rest e x)
