-- ===== src/Net/Connection.antt =====
-- src/net/connection.cpp: one client with a thread of its own. The session and its store are `peer`,
-- and `handle` is `handleLine`; what was read from the socket and what the socket took stand beside
-- the fields of the source.
pub mod Following
pub mod Replies
pub mod Agreement
use key_value_store.Common.{
  ℕ, zero, suc, Bool, true, false, List, [], ◌∷◌, ◌++◌, Option, none, some, Bytes, codes, length,
  ltb, if◌then◌else◌, not,
}
use key_value_store.Net.Lines.{
  newline, Handler, max_line_length, too_long_line, split_line, strip_return,
}
use key_value_store.Session.{Reply}
use key_value_store.Wal.Log.{Outcome, returned, threw, WriteResult, write_all}

pub record Connection {ℓ} (S : Type ℓ) : Type ℓ where
  pub inbuf : Bytes
  pub peer : S
  pub taken : Bytes
  pub wire : Bytes

unfoldable pub new_connection {ℓ} : {S : Type ℓ} → S → Connection S
new_connection s = record { inbuf = []; peer = s; taken = []; wire = [] }

-- `ReadResult`, with the bytes that came; `EINTR` is a timeout.
pub data ReadResult : Type 0 where
  got : Bytes → ReadResult
  timeout closed read_error : ReadResult

-- What happens after the lines in hand: the flag of the shutdown, and what is read. The system's
-- answers to the writes of the round stand in front, a list for each reply.
pub record Round : Type 0 where
  pub writes : List (List WriteResult)
  pub shutting_down : Bool
  pub read : ReadResult

abbrev pub shutdown_line : Bytes
shutdown_line = codes "-ERR server shutting down" ++ (newline ∷ [])

abbrev pub head_script : List (List WriteResult) → List WriteResult
head_script [] = []
head_script (script ∷ scripts) = script

abbrev pub tail_scripts : List (List WriteResult) → List (List WriteResult)
tail_scripts [] = []
tail_scripts (script ∷ scripts) = scripts

-- How the loop over the lines goes on: `open_line` at the end of the input, or `run` returns.
pub data Progress {ℓ} (S : Type ℓ) : Type ℓ where
  open_line : List (List WriteResult) → Connection S → Progress S
  next_line : List (List WriteResult) → Connection S → Progress S
  returns : Outcome (Unit {0}) → Connection S → Progress S

module _ {ℓ} {S : Type ℓ} where
  abbrev pub transmitted : Bytes → Connection S → Connection S
  transmitted out c = record c { wire = c.wire ++ out }

  -- A last message before `run` returns.
  unfoldable pub farewell : List WriteResult → Bytes → Connection S → Connection S
  farewell script text c = let (out, all) = write_all script text in transmitted out c

  unfoldable pub reply_line : List (List WriteResult) → Outcome Reply → Connection S → Progress S
  reply_line scripts (threw error) c = returns (threw error) c
  reply_line scripts (returned (text, quit)) c =
      let (out, all) = write_all (head_script scripts) text in
      if not all
      then returns (returned tt) (transmitted out c)
      else if quit
      then returns (returned tt) (transmitted out c)
      else next_line (tail_scripts scripts) (transmitted out c)

  unfoldable pub read_more : ReadResult → Connection S → Bool × Connection S
  read_more (got bytes) c = (true, record c { inbuf = c.inbuf ++ bytes; taken = c.taken ++ bytes })
  read_more timeout c = (true, c)
  read_more closed c = (false, c)
  read_more read_error c = (false, c)

  -- Behind the lines of a round: `true` while `run` goes on.
  unfoldable pub end_round :
      List (List WriteResult) → Round → Connection S → Outcome Bool × Connection S
  end_round scripts round c =
      if ltb max_line_length (length c.inbuf)
      then (returned false, farewell (head_script scripts) too_long_line c)
      else if round.shutting_down
      then (returned false, farewell (head_script scripts) shutdown_line c)
      else let (more, c') = read_more round.read c in (returned more, c')

  module _ (handle : Handler S) where
    unfoldable pub split_progress :
        List (List WriteResult) → Option (Bytes × Bytes) → Connection S → Progress S
    split_progress scripts none c = open_line scripts c
    split_progress scripts (some (line, rest)) c =
        let (outcome, peer) = handle (strip_return line) c.peer in
        reply_line scripts outcome (record c { inbuf = rest; peer = peer })

    -- The inner loop; each round takes a line away.
    unfoldable pub drain_lines : ℕ → List (List WriteResult) → Connection S → Progress S
    drain_lines zero scripts c = open_line scripts c
    drain_lines (suc fuel) scripts c = elim (split_progress scripts (split_line c.inbuf) c) [
      | open_line scripts' c' ↦ open_line scripts' c'
      | returns outcome c' ↦ returns outcome c'
      | next_line scripts' c' ↦ drain_lines fuel scripts' c'
    ]

    unfoldable pub after_lines : Round → Progress S → Outcome Bool × Connection S
    after_lines round (open_line scripts c) = end_round scripts round c
    after_lines round (next_line scripts c) = end_round scripts round c
    after_lines round (returns (threw error) c) = (threw error, c)
    after_lines round (returns (returned u) c) = (returned false, c)

    unfoldable pub run_round : Round → Connection S → Outcome Bool × Connection S
    run_round round c = after_lines round (drain_lines (suc (length c.inbuf)) round.writes c)

    unfoldable pub after_round :
        Outcome Bool × Connection S
        → (Connection S → Outcome Bool × Connection S)
        → Outcome Bool × Connection S
    after_round (returned true, c) go_on = go_on c
    after_round (returned false, c) go_on = (returned false, c)
    after_round (threw error, c) go_on = (threw error, c)

    -- `run`, through the rounds that the system gives it; `true` where they end before it does.
    unfoldable pub run : List Round → Connection S → Outcome Bool × Connection S
    run [] c = (returned true, c)
    run (round ∷ rounds) c = after_round (run_round round c) (run rounds)
