-- ===== src/Net/EventLoop/Rounds.antt =====
-- A client of the loop gets the replies to its lines, in order and whole, however its bytes come in
-- and its replies go out.
use key_value_store.Common.{
  if_cases, append_snoc, ℕ, zero, suc, ◌≤◌, ◌≡◌, refl, sym, ap, ◌∙◌, ◌⊎◌, inl, inr, Bool, true,
  false, [], ◌∷◌, ◌++◌, Option, none, some, Bytes, length, drop, append-nil, append_assoc,
  length-append, drop-append_le, if_elim, arith, ltb,
}
use key_value_store.Net.Lines.{
  newline, Handler, Handled, idle, line_more, too_long_line, split_line, split_line-Splits,
  strip_return, HasNoNewline, max_line_length,
}
use key_value_store.Net.Client.{
  count_command, pause, backlog, pause_reading_above_bytes, Turn, new_turn, unsent, refuse_long,
  put_out,
}
use key_value_store.Net.EventLoop.{
  Round, stops, goes, reply_round, split_round, process_round, process_loop, process_input,
}
use key_value_store.Session.{Reply}
use key_value_store.Wal.Log.{Outcome, returned, threw, LogError}

module _ {ℓ} {S : Type ℓ} (handle : Handler S) (start : S) where
  -- The whole lines of what was taken from the socket were handled in order, and the rest waits;
  -- what went out and what waits to go out is their replies. A client whose line is too long gets
  -- that complaint at the end, and nothing after it.
  pub record Follows (taken inbuf : Bytes) (peer : S) (wire outbuf : Bytes) (out_sent : ℕ)
      (closing : Bool) : Type ℓ where
    pub used : Bytes
    pub out : Bytes
    pub complaint : Bytes
    pub took_all : taken ≡ used ++ inbuf
    pub handled : Handled handle start used out peer
    pub replies : wire ++ drop out_sent outbuf ≡ out ++ complaint
    pub within : out_sent ≤ length outbuf
    pub complains : (complaint ≡ []) ⊎ ((complaint ≡ too_long_line) × (closing ≡ true))

  -- The line whose write made the log throw `error` is the last one that was taken.
  pub record Threw (taken inbuf : Bytes) (peer : S) (wire outbuf : Bytes) (out_sent : ℕ)
      (error : LogError) : Type ℓ where
    pub used : Bytes
    pub out : Bytes
    pub line : Bytes
    pub before : S
    pub took_all : taken ≡ used ++ (line ++ (newline ∷ inbuf))
    pub handled : Handled handle start used out before
    pub plain : HasNoNewline line
    pub thrown : handle (strip_return line) before ≡ (threw error, peer)
    pub replies : wire ++ drop out_sent outbuf ≡ out

  abbrev pub FollowsAt : Turn S → Type ℓ
  FollowsAt t =
      Follows t.taken t.client.inbuf t.peer t.wire t.client.outbuf t.client.out_sent
        t.client.close_after_flush

  abbrev pub Ends {κ} : {A : Type κ} → Outcome A → Turn S → Type ℓ
  Ends (returned a) t = FollowsAt t
  Ends (threw error) t =
      Threw t.taken t.client.inbuf t.peer t.wire t.client.outbuf t.client.out_sent error

  abbrev RoundEnds : Round S → Type ℓ
  RoundEnds (stops outcome t) = Ends outcome t
  RoundEnds (goes t) = FollowsAt t

  pub new_turn-Follows : FollowsAt (new_turn start)
  unfolding new_turn
  new_turn-Follows = record {
    used = [];
    out = [];
    complaint = [];
    took_all = refl;
    handled = idle;
    replies = refl;
    within = omega arith;
    complains = inl refl;
  }

  more_out :
      (wire outbuf text out : Bytes) (n : ℕ)
      → n ≤ length outbuf
      → wire ++ drop n outbuf ≡ out
      → wire ++ drop n (outbuf ++ text) ≡ out ++ text
  more_out wire outbuf text out n h e =
      ap (λ z. wire ++ z) (drop-append_le n outbuf text h)
      ∙ sym (append_assoc wire (drop n outbuf) text)
      ∙ ap (λ z. z ++ text) e

  open_replies :
      (t : Turn S)
      → t.client.close_after_flush ≡ false
      → (x : FollowsAt t) → t.wire ++ unsent t.client ≡ x.out
  open_replies t running x = elim x.complains [
    | inl e ↦ x.replies ∙ (ap (λ z. x.out ++ z) e ∙ append-nil x.out)
    | inr (e, closing) ↦ absurd (cc (running, closing))
  ]

  refuse_long-Follows :
      (t : Turn S) → t.client.close_after_flush ≡ false → FollowsAt t → FollowsAt (refuse_long t)
  unfolding refuse_long
  refuse_long-Follows t running x =
      if_elim FollowsAt (ltb max_line_length (length t.client.inbuf))
        (record {
          used = x.used;
          out = x.out;
          complaint = too_long_line;
          took_all = x.took_all;
          handled = x.handled;
          replies =
              more_out t.wire t.client.outbuf too_long_line x.out t.client.out_sent x.within
                (open_replies t running x);
          within = omega (arith, x.within, length-append t.client.outbuf too_long_line);
          complains = inr (refl, refl);
        })
        x

  -- Behind the first line of the input.
  abbrev behind : Bytes → S → Turn S → Turn S
  behind rest peer t = record t { client = record t.client { inbuf = rest }; peer = peer }

  all_used :
      (t : Turn S) (line rest : Bytes) (x : FollowsAt t)
      → split_line t.client.inbuf ≡ some (line, rest)
      → t.taken ≡ x.used ++ (line ++ (newline ∷ rest))
  all_used t line rest x split =
      x.took_all ∙ ap (λ z. x.used ++ z) (split_line-Splits t.client.inbuf line rest split).whole

  module _ (line rest : Bytes) (t : Turn S) (peer : S)
      (split : split_line t.client.inbuf ≡ some (line, rest))
      (running : t.client.close_after_flush ≡ false) (x : FollowsAt t) where
    answered :
        (text : Bytes) (quit closing : Bool)
        → handle (strip_return line) t.peer ≡ (returned (text, quit), peer)
        → Follows t.taken rest peer t.wire (t.client.outbuf ++ text) t.client.out_sent closing
    answered text quit closing e = record {
      used = x.used ++ (line ++ (newline ∷ []));
      out = x.out ++ text;
      complaint = [];
      took_all =
          all_used t line rest x split
          ∙ (ap (λ z. x.used ++ z) (sym (append_snoc line rest newline))
              ∙ sym (append_assoc x.used (line ++ newline ∷ []) rest));
      handled =
          line_more x.handled line text _ _ quit peer
            (split_line-Splits t.client.inbuf line rest split).plain e refl refl;
      replies =
          more_out t.wire t.client.outbuf text x.out t.client.out_sent x.within
            (open_replies t running x)
          ∙ sym (append-nil (x.out ++ text));
      within = omega (arith, x.within, length-append t.client.outbuf text);
      complains = inl refl;
    }

    reply_round-Ends :
        (outcome : Outcome Reply)
        → handle (strip_return line) t.peer ≡ (outcome, peer)
        → RoundEnds (reply_round outcome (behind rest peer t))
    unfolding reply_round
    reply_round-Ends (threw error) e = record {
      used = x.used;
      out = x.out;
      line = line;
      before = t.peer;
      took_all = all_used t line rest x split;
      handled = x.handled;
      plain = (split_line-Splits t.client.inbuf line rest split).plain;
      thrown = e;
      replies = open_replies t running x;
    }
    reply_round-Ends (returned (text, quit)) e =
        let t' = count_command (put_out text (behind rest peer t)) in
        if_elim RoundEnds quit (answered text quit true e) (
          if_elim RoundEnds (ltb pause_reading_above_bytes (backlog t'.client))
            {x = stops (returned tt) (pause t')} {y = goes t'}
            (answered text quit t.client.close_after_flush e)
            (answered text quit t.client.close_after_flush e))

  split_round-Ends :
      (t : Turn S) (o : Option (Bytes × Bytes))
      → split_line t.client.inbuf ≡ o
      → t.client.close_after_flush ≡ false
      → FollowsAt t
      → RoundEnds (split_round handle o t)
  unfolding split_round
  split_round-Ends t none split running x = refuse_long-Follows t running x
  split_round-Ends t (some (line, rest)) split running x =
      reply_round-Ends line rest t (handle (strip_return line) t.peer).1 split running x
        (handle (strip_return line) t.peer).0 refl

  process_round-Ends : (t : Turn S) → FollowsAt t → RoundEnds (process_round handle t)
  unfolding process_round
  process_round-Ends t x =
      if_cases RoundEnds t.client.close_after_flush (λ closing. x)
        (λ running. split_round-Ends t (split_line t.client.inbuf) refl running x)

  round_on :
      (go_on : Turn S → Outcome (Unit {0}) × Turn S)
      → ((t : Turn S) → FollowsAt t → Ends (go_on t).0 (go_on t).1)
      → (r : Round S) → RoundEnds r
      → let y : Outcome (Unit {0}) × Turn S = elim r [
        | stops outcome t' ↦ (outcome, t')
        | goes t' ↦ go_on t'
      ] in
        Ends y.0 y.1
  round_on go_on ih (stops outcome t) x = x
  round_on go_on ih (goes t) x = ih t x

  process_loop-Ends :
      (fuel : ℕ) (t : Turn S)
      → FollowsAt t
      → Ends (process_loop handle fuel t).0 (process_loop handle fuel t).1
  unfolding process_loop
  process_loop-Ends zero t x = x
  process_loop-Ends (suc fuel) t x =
      round_on (process_loop handle fuel) (process_loop-Ends fuel) (process_round handle t)
        (process_round-Ends t x)

  pub process_input-Ends :
      (t : Turn S) → FollowsAt t → Ends (process_input handle t).0 (process_input handle t).1
  unfolding process_input
  process_input-Ends t x = process_loop-Ends (suc (length t.client.inbuf)) t x
