-- ===== src/Net/Connection/Replies.antt =====
-- src/net/connection.cpp: the rounds of `run`, and what the client and the buffer have behind them.
use key_value_store.Common.{
  ℕ, zero, suc, ◌≡◌, refl, sym, ap, ◌∙◌, subst, inl, inr, Bool, true, false, List, [], ◌∷◌, ◌++◌,
  Option, none, some, Bytes, length, append-nil, append_assoc, ◌<◌, ◌≤◌, ltb→le, if_elim, if_cases,
  ltb, arith,
}
use key_value_store.Net.Lines.{
  Handler, idle, max_line_length, too_long_line, split_line, split_line-SplitsInto, SplitsInto,
  strip_return, HasNoNewline,
}
use key_value_store.Net.Connection.{
  Connection, new_connection, ReadResult, got, timeout, closed, read_error, Round, shutdown_line,
  head_script, Progress, open_line, next_line, returns, read_more, end_round, split_progress,
  drain_lines, after_lines, run_round, after_round, run,
}
use key_value_store.Wal.Log.{Outcome, returned, threw, WriteResult}
use key_value_store.Net.Connection.Following.{
  Follows, Stopped, Threw, Ends, ProgressEnds, quiet, farewell-Stopped, reply_line-Ends,
}

-- What the last of some rounds reads.
abbrev pub bytes_read : ReadResult → Bytes
bytes_read (got bytes) = bytes
bytes_read timeout = []
bytes_read closed = []
bytes_read read_error = []

unfoldable pub last_read : Bytes → List Round → Bytes
last_read came [] = came
last_read came (round ∷ rounds) = last_read (bytes_read round.read) rounds

module _ {ℓ} {S : Type ℓ} (handle : Handler S) (start : S) where
  split_progress-Ends :
      (scripts : List (List WriteResult)) (c : Connection S) (o : Option (Bytes × Bytes))
      → split_line c.inbuf ≡ o
      → Follows handle start c
      → ProgressEnds handle start (length c.inbuf) (split_progress handle scripts o c)
  unfolding split_progress
  split_progress-Ends scripts c none split x =
      (x, subst (SplitsInto c.inbuf) split (split_line-SplitsInto c.inbuf))
  split_progress-Ends scripts c (some (line, rest)) split x =
      reply_line-Ends handle start line rest c (handle (strip_return line) c.peer).1 split x scripts
        (handle (strip_return line) c.peer).0 refl

  -- The inner loop ends with no whole line in hand, or returns.
  abbrev DrainEnds : Progress S → Type ℓ
  DrainEnds (open_line scripts c) = Follows handle start c × HasNoNewline c.inbuf
  DrainEnds (next_line scripts c) = Follows handle start c × ⊥
  DrainEnds (returns (returned u) c) = Stopped handle start c
  DrainEnds (returns (threw error) c) = Threw handle start c error

  next_round :
      (go_on : List (List WriteResult) → Connection S → Progress S) (count : ℕ)
      → ((scripts : List (List WriteResult)) (c : Connection S)
          → Follows handle start c
          → length c.inbuf < count
          → DrainEnds (go_on scripts c))
      → (p : Progress S) → ProgressEnds handle start count p
      → DrainEnds (elim p as (λ (_ : Progress S). Progress S) [
        | open_line scripts' c' ↦ open_line scripts' c'
        | returns outcome c' ↦ returns outcome c'
        | next_line scripts' c' ↦ go_on scripts' c'
      ])
  next_round go_on count ih (open_line scripts c) x = x
  next_round go_on count ih (next_line scripts c) (x, h) = ih scripts c x h
  next_round go_on count ih (returns (returned u) c) x = x
  next_round go_on count ih (returns (threw error) c) x = x

  drain_lines-Ends :
      (fuel : ℕ) (scripts : List (List WriteResult)) (c : Connection S)
      → Follows handle start c
      → length c.inbuf < fuel
      → DrainEnds (drain_lines handle fuel scripts c)
  unfolding drain_lines
  drain_lines-Ends zero scripts c x h = absurd (omega (arith, h))
  drain_lines-Ends (suc fuel) scripts c x h =
      next_round (drain_lines handle fuel) (length c.inbuf)
        (λ scripts' c' x' h'. drain_lines-Ends fuel scripts' c' x' (omega (arith, h, h')))
        (split_progress handle scripts (split_line c.inbuf) c)
        (split_progress-Ends scripts c (split_line c.inbuf) refl x)

  abbrev EndsAt : Bytes → Outcome Bool × Connection S → Type ℓ
  EndsAt came y = Ends handle start came y.0 y.1

  read_more-Ends :
      (r : ReadResult) (c : Connection S)
      → Follows handle start c
      → HasNoNewline c.inbuf
      → length c.inbuf ≤ max_line_length
      → Ends handle start (bytes_read r) (returned (read_more r c).0) (read_more r c).1
  unfolding read_more
  read_more-Ends (got bytes) c x plain short = (
    record {
      used = x.used;
      took_all = ap (λ z. z ++ bytes) x.took_all ∙ append_assoc x.used c.inbuf bytes;
      handled = x.handled;
    },
    record { part = c.inbuf; whole = refl; plain = plain; short = short },
  )
  read_more-Ends timeout c x plain short =
      (x, record { part = c.inbuf; whole = sym (append-nil c.inbuf); plain = plain; short = short })
  read_more-Ends closed c x plain short = quiet handle start c x plain
  read_more-Ends read_error c x plain short = quiet handle start c x plain

  end_round-Ends :
      (scripts : List (List WriteResult)) (round : Round) (c : Connection S)
      → Follows handle start c
      → HasNoNewline c.inbuf
      → EndsAt (bytes_read round.read) (end_round scripts round c)
  unfolding end_round
  end_round-Ends scripts round c x plain =
      if_cases (EndsAt (bytes_read round.read)) (ltb max_line_length (length c.inbuf))
        (λ long.
          farewell-Stopped handle start (head_script scripts) too_long_line c (inl refl) x plain)
        (λ short.
          if_elim (EndsAt (bytes_read round.read)) round.shutting_down
            (farewell-Stopped handle start (head_script scripts) shutdown_line c (inr refl) x plain)
            (read_more-Ends round.read c x plain (ltb→le max_line_length (length c.inbuf) short)))

  after_lines-Ends :
      (round : Round) (p : Progress S)
      → DrainEnds p
      → EndsAt (bytes_read round.read) (after_lines handle round p)
  unfolding after_lines
  after_lines-Ends round (open_line scripts c) (x, plain) = end_round-Ends scripts round c x plain
  after_lines-Ends round (next_line scripts c) x = absurd x.1
  after_lines-Ends round (returns (threw error) c) x = x
  after_lines-Ends round (returns (returned u) c) x = x

  after_round-Ends :
      (came last : Bytes) (y : Outcome Bool × Connection S)
      (go_on : Connection S → Outcome Bool × Connection S)
      → EndsAt came y
      → ((c : Connection S) → EndsAt came (returned true, c) → EndsAt last (go_on c))
      → EndsAt last (after_round handle y go_on)
  unfolding after_round
  after_round-Ends came last (returned true, c) go_on x f = f c x
  after_round-Ends came last (returned false, c) go_on x f = x
  after_round-Ends came last (threw error, c) go_on x f = x

  run-Follows :
      (rounds : List Round) (came : Bytes) (c : Connection S)
      → EndsAt came (returned true, c)
      → EndsAt (last_read came rounds) (run handle rounds c)
  unfolding run run_round last_read
  run-Follows [] came c x = x
  run-Follows (round ∷ rounds) came c (x, h) =
      after_round-Ends (bytes_read round.read) (last_read (bytes_read round.read) rounds)
        (run_round handle round c) (run handle rounds)
        (after_lines-Ends round _
          (drain_lines-Ends (suc (length c.inbuf)) round.writes c x (omega arith)))
        (run-Follows rounds (bytes_read round.read))

  pub run-Ends :
      (rounds : List Round)
      → let y = run handle rounds (new_connection start) in
        Ends handle start (last_read [] rounds) y.0 y.1
  unfolding new_connection
  run-Ends rounds = run-Follows rounds [] (new_connection start) (
    record { used = []; took_all = refl; handled = idle },
    record { part = []; whole = refl; plain = tt; short = omega arith },
  )
