-- ===== src/Net/Connection/Following.antt =====
-- src/net/connection.cpp: what a client has behind a line of `run`, and when its connection ends.
use key_value_store.Common.{
  ℕ, ◌≡◌, refl, sym, ap, ◌∙◌, subst, ◌⊎◌, inl, inr, Bool, true, false, List, [], ◌∷◌, ◌++◌, some,
  Bytes, length, drop, append-nil, append_assoc, append_snoc, take-drop, ◌<◌, ◌≤◌, if_cases, not,
  arith,
}
use key_value_store.Net.Lines.{
  newline, Handler, Handled, line_more, max_line_length, too_long_line, split_line,
  split_line-Splits, length-split_line, strip_return, HasNoNewline,
}
use key_value_store.Net.Connection.{
  Connection, shutdown_line, head_script, tail_scripts, Progress, open_line, next_line, returns,
  transmitted, farewell, reply_line,
}
use key_value_store.Session.{Reply}
use key_value_store.Wal.Log.{Outcome, returned, threw, LogError, WriteResult, write_all}
use key_value_store.Wal.Log.Appending.{write_all-IsWritten}

not-true : (b : Bool) → not b ≡ true → b ≡ false
not-true true e = cc
not-true false e = refl

module _ {ℓ} {S : Type ℓ} (handle : Handler S) (start : S) where
  -- The lines so far were handled, and the client has their replies.
  pub record Follows (c : Connection S) : Type ℓ where
    pub used : Bytes
    pub took_all : c.taken ≡ used ++ c.inbuf
    pub handled : Handled handle start used c.wire c.peer

  -- The last line that was handled was to end the session, or its reply could not be written.
  pub record Breaks (peer : S) : Type ℓ where
    pub line : Bytes
    pub before : S
    pub text : Bytes
    pub quit : Bool
    pub last : handle (strip_return line) before ≡ (returned (text, quit), peer)
    pub why : (quit ≡ true) ⊎ ((script : List WriteResult) × ((write_all script text).1 ≡ false))

  -- What is in the buffer: a line that is not whole, and `came`, which was just read.
  pub record Holds (came inbuf : Bytes) : Type 0 where
    pub part : Bytes
    pub whole : inbuf ≡ part ++ came
    pub plain : HasNoNewline part
    pub short : length part ≤ max_line_length

  -- The end of a connection: where no line was to end it and every reply was written, no whole line
  -- is left; the client has a first part of the replies and of a last message.
  pub record Stopped (c : Connection S) : Type ℓ where
    pub used : Bytes
    pub out : Bytes
    pub message : Bytes
    pub lost : Bytes
    pub took_all : c.taken ≡ used ++ c.inbuf
    pub handled : Handled handle start used out c.peer
    pub replies : c.wire ++ lost ≡ out ++ message
    pub says : (message ≡ []) ⊎ ((message ≡ too_long_line) ⊎ (message ≡ shutdown_line))
    pub leaves : HasNoNewline c.inbuf ⊎ Breaks c.peer

  -- The last line that was taken made the log throw, and the client has the replies before it.
  pub record Threw (c : Connection S) (error : LogError) : Type ℓ where
    pub used : Bytes
    pub line : Bytes
    pub before : S
    pub took_all : c.taken ≡ used ++ (line ++ (newline ∷ c.inbuf))
    pub handled : Handled handle start used c.wire before
    pub plain : HasNoNewline line
    pub thrown : handle (strip_return line) before ≡ (threw error, c.peer)

  abbrev pub Ends : Bytes → Outcome Bool → Connection S → Type ℓ
  Ends came (returned true) c = Follows c × Holds came c.inbuf
  Ends came (returned false) c = Stopped c
  Ends came (threw error) c = Threw c error

  -- A round of the inner loop, which goes on with less than `count` bytes.
  abbrev pub ProgressEnds : ℕ → Progress S → Type ℓ
  ProgressEnds count (open_line scripts c) = Follows c × HasNoNewline c.inbuf
  ProgressEnds count (next_line scripts c) = Follows c × (length c.inbuf < count)
  ProgressEnds count (returns (returned u) c) = Stopped c
  ProgressEnds count (returns (threw error) c) = Threw c error

  pub quiet : (c : Connection S) → Follows c → HasNoNewline c.inbuf → Stopped c
  quiet c x plain = record {
    leaves = inl plain;
    used = x.used;
    out = c.wire;
    message = [];
    lost = [];
    took_all = x.took_all;
    handled = x.handled;
    replies = refl;
    says = inl refl;
  }

  pub farewell-Stopped :
      (script : List WriteResult) (text : Bytes) (c : Connection S)
      → (text ≡ too_long_line) ⊎ (text ≡ shutdown_line)
      → Follows c
      → HasNoNewline c.inbuf
      → Stopped (farewell script text c)
  unfolding farewell
  farewell-Stopped script text c which x plain =
      let w = write_all-IsWritten script text in
      record {
        leaves = inl plain;
        used = x.used;
        out = c.wire;
        message = text;
        lost = drop w.count text;
        took_all = x.took_all;
        handled = x.handled;
        replies =
            append_assoc c.wire (write_all script text).0 (drop w.count text)
            ∙ ap (λ z. c.wire ++ z)
                (ap (λ z. z ++ drop w.count text) w.prefix ∙ take-drop w.count text);
        says = inr which;
      }

  module _ (line rest : Bytes) (c : Connection S) (peer : S)
      (split : split_line c.inbuf ≡ some (line, rest)) (x : Follows c) where
    abbrev behind : Connection S
    behind = record c { inbuf = rest; peer = peer }

    all_used : c.taken ≡ x.used ++ (line ++ (newline ∷ rest))
    all_used = x.took_all ∙ ap (λ z. x.used ++ z) (split_line-Splits c.inbuf line rest split).whole

    used_line : c.taken ≡ (x.used ++ (line ++ (newline ∷ []))) ++ rest
    used_line =
        all_used
        ∙ (ap (λ z. x.used ++ z) (sym (append_snoc line rest newline))
            ∙ sym (append_assoc x.used (line ++ newline ∷ []) rest))

    -- The reply `text`, of which the client gets `out`.
    replied :
        (text : Bytes) (quit : Bool)
        → handle (strip_return line) c.peer ≡ (returned (text, quit), peer)
        → Handled handle start (x.used ++ (line ++ (newline ∷ []))) (c.wire ++ text) peer
    replied text quit e =
        line_more x.handled line text _ _ quit peer
          (split_line-Splits c.inbuf line rest split).plain e refl refl

    pub reply_line-Ends :
        (scripts : List (List WriteResult)) (outcome : Outcome Reply)
        → handle (strip_return line) c.peer ≡ (outcome, peer)
        → ProgressEnds (length c.inbuf) (reply_line scripts outcome behind)
    unfolding reply_line
    reply_line-Ends scripts (threw error) e = record {
      used = x.used;
      line = line;
      before = c.peer;
      took_all = all_used;
      handled = x.handled;
      plain = (split_line-Splits c.inbuf line rest split).plain;
      thrown = e;
    }
    reply_line-Ends scripts (returned (text, quit)) e =
        let w = write_all-IsWritten (head_script scripts) text in
        let out = (write_all (head_script scripts) text).0 in
        let all = (write_all (head_script scripts) text).1 in
        let cut : (quit ≡ true)
              ⊎ ((script : List WriteResult) × ((write_all script text).1 ≡ false))
            → Stopped (transmitted out behind) =
          λ why. record {
            leaves = inr (record {
              line = line;
              before = c.peer;
              text = text;
              quit = quit;
              last = e;
              why = why;
            });
            used = x.used ++ (line ++ (newline ∷ []));
            out = c.wire ++ text;
            message = [];
            lost = drop w.count text;
            took_all = used_line;
            handled = replied text quit e;
            replies =
                append_assoc c.wire out (drop w.count text)
                ∙ (ap (λ z. c.wire ++ z)
                      (ap (λ z. z ++ drop w.count text) w.prefix ∙ take-drop w.count text)
                    ∙ sym (append-nil (c.wire ++ text)));
            says = inl refl;
          } in
        if_cases (ProgressEnds (length c.inbuf)) (not all)
          {x = returns (returned tt) (transmitted out behind)}
          (λ broken. cut (inr (head_script scripts, not-true all broken)))
          (λ whole.
            if_cases (ProgressEnds (length c.inbuf)) quit
              {x = returns (returned tt) (transmitted out behind)}
              {y = next_line (tail_scripts scripts) (transmitted out behind)} (λ q. cut (inl q))
              (λ more. (
                record {
                  used = x.used ++ (line ++ (newline ∷ []));
                  took_all = used_line;
                  handled =
                      subst
                        (λ z.
                          Handled handle start (x.used ++ (line ++ (newline ∷ []))) (c.wire ++ z)
                            peer)
                        (sym (w.all (ground (arith, whole)))) (replied text quit e);
                },
                length-split_line c.inbuf line rest split,
              )))
