-- ===== src/Repl/Leader/Shipping.antt =====
-- src/repl/leader.cpp: `shipPending`, with what its system calls answer in each round.
pub mod Streams
pub mod Arriving
pub mod Exact
use key_value_store.Common.{
  ℕ, zero, suc, ◌+◌, ◌-◌, ◌*◌, Bool, true, false, not, List, [], ◌∷◌, ◌++◌, Bytes, length, take,
  drop, ltb, ◌==◌, if◌then◌else◌, add64,
}
use key_value_store.Repl.Leader.{Session}
use key_value_store.Wal.Log.{WriteResult, write_all}

-- `kStreamChunkBytes`
abbrev pub stream_chunk_bytes : ℕ
stream_chunk_bytes = 64 * 1024

-- `pread`: at most that many bytes of those that are there, `EINTR`, or an error.
pub data ReadResult : Type 0 where
  got : ℕ → ReadResult
  read_interrupted read_broken : ReadResult

-- `stop` is what the round finds in `stopping`, and `writes` is what the socket answers.
pub record ShipRound : Type 0 where
  pub stop : Bool
  pub read : ReadResult
  pub writes : List WriteResult

-- A round past the end of the list reads all that it wants and writes it.
abbrev quiet_round : ShipRound
quiet_round = record { stop = false; read = got stream_chunk_bytes; writes = [] }

-- Whether the loop goes on, with the bytes that the socket took.
pub data Shipped : Type 0 where
  goes_on stops : Session → Bytes → Shipped

module _ (target : ℕ) (file : Bytes) where
  unfoldable pub wanted : Session → ℕ
  wanted s =
      let remaining = target - s.sent_offset in
      if ltb remaining stream_chunk_bytes then remaining else stream_chunk_bytes

  abbrev pub count_sent : ℕ → Session → Session
  count_sent n s = record s { sent_offset = s.sent_offset + n; bytes_sent = add64 s.bytes_sent n }

  unfoldable pub send_bytes : List WriteResult → Bytes → Session → Shipped
  send_bytes script [] s = stops s []
  send_bytes script (b ∷ bytes) s =
      let (out, all) = write_all script (b ∷ bytes) in
      if not all then stops s out else goes_on (count_sent (length (b ∷ bytes)) s) out

  unfoldable pub ship_read : ReadResult → List WriteResult → Session → Shipped
  unfolding wanted send_bytes
  ship_read (got n) script s =
      send_bytes script (take n (take (wanted s) (drop s.sent_offset file))) s
  ship_read read_interrupted script s = goes_on s []
  ship_read read_broken script s = stops s []

  unfoldable pub ship_round : ShipRound → Session → Shipped
  ship_round r s = if r.stop then stops s [] else ship_read r.read r.writes s

  abbrev pub next_round : List ShipRound → ShipRound × List ShipRound
  next_round [] = (quiet_round, [])
  next_round (r ∷ rounds) = (r, rounds)

  -- The loop from a session on. A round that goes on takes an answer of the list or ships a byte, so
  -- `target` and the length of the list together are fuel enough.
  unfoldable pub ship_loop : ℕ → List ShipRound → Session → Bool × Session × Bytes
  ship_loop zero rounds s = (false, s, [])
  ship_loop (suc fuel) rounds s =
      let (r, later) = next_round rounds in
      let shipped = ship_round r s in
      if not (ltb s.sent_offset target) then (true, s, []) else elim shipped [
        | stops s' out ↦ (false, s', out)
        | goes_on s' out ↦
            let (kept, s'', more) = ship_loop fuel later s' in (kept, s'', out ++ more)
      ]

  unfoldable pub ship_pending : List ShipRound → Session → Bool × Session × Bytes
  ship_pending rounds s = ship_loop (suc (target + length rounds)) rounds s
