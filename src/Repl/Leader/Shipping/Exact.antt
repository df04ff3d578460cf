-- ===== src/Repl/Leader/Shipping/Exact.antt =====
-- src/repl/leader.cpp: what `shipPending` ships, and how far.
use key_value_store.Common.{
  ℕ, zero, suc, ◌+◌, ◌-◌, ◌≤◌, ◌≡◌, sym, ap, ◌∙◌, Bool, true, false, not, List, [], ◌∷◌, ◌++◌,
  Bytes, length, take, drop, ltb, if_cases, if_elim, arith, All, length-take, take-append_left,
}
use key_value_store.Repl.Leader.{Session}
use key_value_store.Repl.Leader.Shipping.{
  ReadResult, got, read_interrupted, read_broken, ShipRound, Shipped, goes_on, stops, count_sent,
  next_round, wanted, send_bytes, ship_read, ship_round, ship_loop, ship_pending,
  stream_chunk_bytes,
}
use key_value_store.Repl.Leader.Shipping.Arriving.{RoundWorks, ship_pending-succeeds}
use key_value_store.Repl.Leader.Shipping.Streams.{ship_pending-Ships}
use key_value_store.Wal.Log.{WriteResult, write_all}

module _ (target : ℕ) (file : Bytes) where
  -- The session is not past the offset to ship to.
  abbrev IsWithin : Session → Type 0
  IsWithin s = s.sent_offset ≤ target

  abbrev ShipsWithin : Shipped → Type 0
  ShipsWithin (goes_on s out) = IsWithin s
  ShipsWithin (stops s out) = IsWithin s

  wanted_within : (s : Session) → IsWithin s → s.sent_offset + wanted target file s ≤ target
  unfolding wanted
  wanted_within s h =
      if_cases (λ (n : ℕ). s.sent_offset + n ≤ target)
        (ltb (target - s.sent_offset) stream_chunk_bytes) (λ few. omega (arith, h))
        (λ many. ground (arith, h, many))

  send_bytes-Within :
      (script : List WriteResult) (bytes : Bytes) (s : Session)
      → s.sent_offset + length bytes ≤ target
      → ShipsWithin (send_bytes target file script bytes s)
  unfolding send_bytes
  send_bytes-Within script [] s h = omega (arith, h)
  send_bytes-Within script (b ∷ bytes) s h =
      if_elim ShipsWithin (not (write_all script (b ∷ bytes)).1)
        {x = stops s (write_all script (b ∷ bytes)).0}
        {y = goes_on (count_sent target file (length (b ∷ bytes)) s)
          (write_all script (b ∷ bytes)).0}
        (omega (arith, h)) h

  ship_round-Within :
      (r : ShipRound) (s : Session) → IsWithin s → ShipsWithin (ship_round target file r s)
  unfolding ship_round ship_read
  ship_round-Within r s h =
      if_elim ShipsWithin r.stop {x = stops s []} {y = ship_read target file r.read r.writes s} h
        (read r.read)
    where
      read : (read : ReadResult) → ShipsWithin (ship_read target file read r.writes s)
      read (got n) =
          send_bytes-Within r.writes
            (take n (take (wanted target file s) (drop s.sent_offset file))) s
            (omega (
              arith,
              length-take n (take (wanted target file s) (drop s.sent_offset file)),
              length-take (wanted target file s) (drop s.sent_offset file),
              wanted_within s h,
            ))
      read read_interrupted = h
      read read_broken = h

  IsWithin-more :
      (shipped : Shipped) (k : Session → Bool × Session × Bytes)
      → ShipsWithin shipped
      → ((s : Session) → IsWithin s → IsWithin (k s).1)
      → IsWithin
          (elim shipped as (λ (_ : Shipped). Bool × Session × Bytes) [
            | stops s' out ↦ (false, s', out)
            | goes_on s' out ↦ ((k s').0, (k s').1, out ++ (k s').2)
          ]).1
  IsWithin-more (goes_on s' out) k h rest = rest s' h
  IsWithin-more (stops s' out) k h rest = h

  ship_loop-IsWithin :
      (fuel : ℕ) (rounds : List ShipRound) (s : Session)
      → IsWithin s
      → IsWithin (ship_loop target file fuel rounds s).1
  unfolding ship_loop
  ship_loop-IsWithin zero rounds s h = h
  ship_loop-IsWithin (suc fuel) rounds s h =
      let (r, later) = next_round target file rounds in
      if_elim (λ (y : Bool × Session × Bytes). IsWithin y.1) (not (ltb s.sent_offset target))
        {x = (true, s, [])} h
        (IsWithin-more (ship_round target file r s) (ship_loop target file fuel later)
          (ship_round-Within r s h) (ship_loop-IsWithin fuel later))

  -- What it is to have shipped all up to `target`.
  pub record ShipsAll (s : Session) (y : Bool × Session × Bytes) : Type 0 where
    pub success : y.0 ≡ true
    pub reached : y.1.sent_offset ≡ target
    pub bytes : y.2 ≡ take (target - s.sent_offset) (drop s.sent_offset file)

  -- Where the session is not beyond the offset to ship to and the file of the log reaches to it,
  -- and every call reads a byte at least or is interrupted, writes all, and finds the session not
  -- stopped: the loop ends with success, the session is at that offset, and what was sent is
  -- exactly the bytes of the file from the offset of the session to it, each once and in order.
  pub ship_pending-ShipsAll :
      (rounds : List ShipRound) (s : Session)
      → All RoundWorks rounds
      → s.sent_offset ≤ target
      → target ≤ length file
      → ShipsAll s (ship_pending target file rounds s)
  unfolding ship_pending
  ship_pending-ShipsAll rounds s works h there =
      let y = ship_pending target file rounds s in
      let success = ship_pending-succeeds target file rounds s works there in
      let (goes, far) = (ship_pending-Ships target file rounds s).done success in
      let near = ship_loop-IsWithin (suc (target + length rounds)) rounds s h in
      let reached : y.1.sent_offset ≡ target = omega (arith, far, near) in
      record {
        success = success;
        reached = reached;
        bytes = sym (
            ap (take (target - s.sent_offset)) (sym goes.bytes)
            ∙ take-append_left y.2 (drop y.1.sent_offset file) (target - s.sent_offset)
                (omega (arith, reached, goes.moved)));
      }
