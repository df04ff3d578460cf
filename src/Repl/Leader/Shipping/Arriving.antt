-- ===== src/Repl/Leader/Shipping/Arriving.antt =====
-- src/repl/leader.cpp: the end of `shipPending` where the system calls succeed.
use key_value_store.Common.{
  ℕ, zero, suc, ◌+◌, ◌-◌, ◌<◌, ◌≤◌, ◌≡◌, refl, Bool, true, false, not, List, [], ◌∷◌, ◌++◌, Bytes,
  length, take, drop, ltb, if_cases, if_elim, arith, All, length-drop,
}
use key_value_store.Repl.Follower.Catching.{goes_through, write_all-goes_through}
use key_value_store.Repl.Leader.{Session}
use key_value_store.Repl.Leader.Shipping.{
  ReadResult, got, read_interrupted, read_broken, ShipRound, quiet_round, Shipped, goes_on, stops,
  wanted, send_bytes, ship_read, ship_round, ship_loop, ship_pending, stream_chunk_bytes,
}
use key_value_store.Wal.Log.{WriteResult}

-- A read that is interrupted, or gives a byte at least.
abbrev pub ReadWorks : ReadResult → Type 0
ReadWorks (got n) = 1 ≤ n
ReadWorks read_interrupted = Unit {0}
ReadWorks read_broken = ⊥

abbrev pub RoundWorks : ShipRound → Type 0
RoundWorks r = (r.stop ≡ false) × ReadWorks r.read × (goes_through r.writes ≡ true)

take_filled : (n : ℕ) (xs : Bytes) → 1 ≤ n → 1 ≤ length xs → 1 ≤ length (take n xs)
take_filled zero xs h h' = absurd (omega (arith, h))
take_filled (suc n) [] h h' = absurd (omega (arith, h'))
take_filled (suc n) (x ∷ xs) h h' = omega arith

module _ (target : ℕ) (file : Bytes) where
  -- The loop goes on, behind more bytes where some were read.
  abbrev Advances : ReadResult → Session → Shipped → Type 0
  Advances (got n) s (goes_on s' out) = s.sent_offset < s'.sent_offset
  Advances read_interrupted s (goes_on s' out) = s.sent_offset ≤ s'.sent_offset
  Advances read_broken s (goes_on s' out) = ⊥
  Advances r s (stops s' out) = ⊥

  wanted_some : (s : Session) → s.sent_offset < target → 1 ≤ wanted target file s
  unfolding wanted
  wanted_some s h =
      if_elim (λ (n : ℕ). 1 ≤ n) (ltb (target - s.sent_offset) stream_chunk_bytes)
        (omega (arith, h)) (omega arith)

  send_bytes-Advances :
      (script : List WriteResult) (n : ℕ) (bytes : Bytes) (s : Session)
      → 1 ≤ length bytes
      → goes_through script ≡ true
      → Advances (got n) s (send_bytes target file script bytes s)
  unfolding send_bytes
  send_bytes-Advances script n [] s h works = absurd (omega (arith, h))
  send_bytes-Advances script n (b ∷ bytes) s h works =
      rw (write_all-goes_through script (b ∷ bytes) works) (omega (arith, h))

  ship_round-Advances :
      (r : ShipRound) (s : Session)
      → RoundWorks r
      → s.sent_offset < target
      → target ≤ length file
      → Advances r.read s (ship_round target file r s)
  unfolding ship_round ship_read send_bytes
  ship_round-Advances r s (runs, reads, writes) h h' = rw (runs) (read r.read reads)
    where
      read :
          (read : ReadResult)
          → ReadWorks read
          → Advances read s (ship_read target file read r.writes s)
      read (got n) x =
          send_bytes-Advances r.writes n _ s
            (take_filled n _ x (
              take_filled (wanted target file s) (drop s.sent_offset file) (wanted_some s h)
                (omega (arith, h, h', length-drop s.sent_offset file))))
            writes
      read read_interrupted x = omega arith
      read read_broken x = x

  Advances-le :
      (read : ReadResult) (s s' : Session) (out : Bytes)
      → Advances read s (goes_on s' out)
      → s.sent_offset ≤ s'.sent_offset
  Advances-le (got n) s s' out x = omega (arith, x)
  Advances-le read_interrupted s s' out x = x
  Advances-le read_broken s s' out x = absurd x

  arrives_more :
      (read : ReadResult) (s : Session) (shipped : Shipped) (k : Session → Bool × Session × Bytes)
      → Advances read s shipped
      → ((s' : Session) (out : Bytes) → Advances read s (goes_on s' out) → (k s').0 ≡ true)
      → (elim shipped as (λ (_ : Shipped). Bool × Session × Bytes) [
        | stops s' out ↦ (false, s', out)
        | goes_on s' out ↦ ((k s').0, (k s').1, out ++ (k s').2)
      ]).0
        ≡ true
  arrives_more read s (goes_on s' out) k x rest = rest s' out x
  arrives_more (got n) s (stops s' out) k x rest = absurd x
  arrives_more read_interrupted s (stops s' out) k x rest = absurd x
  arrives_more read_broken s (stops s' out) k x rest = absurd x

  quiet_works : RoundWorks quiet_round
  quiet_works = (refl, omega arith, unfold goes_through in refl)

  ship_loop-succeeds :
      (fuel : ℕ) (rounds : List ShipRound) (s : Session)
      → All RoundWorks rounds
      → target ≤ length file
      → (target - s.sent_offset) + length rounds < fuel
      → (ship_loop target file fuel rounds s).0 ≡ true
  unfolding ship_loop
  ship_loop-succeeds zero rounds s works there enough = absurd (omega (arith, enough))
  ship_loop-succeeds (suc fuel) [] s works there enough =
      if_cases (λ (y : Bool × Session × Bytes). y.0 ≡ true) (not (ltb s.sent_offset target))
        {x = (true, s, [])} (λ reached. refl)
        (λ more.
          arrives_more (got stream_chunk_bytes) s (ship_round target file quiet_round s)
            (ship_loop target file fuel [])
            (ship_round-Advances quiet_round s quiet_works (ground (arith, more)) there)
            (λ s' out x. ship_loop-succeeds fuel [] s' tt there (ground (arith, x, enough, more))))
  ship_loop-succeeds (suc fuel) (r ∷ rounds) s (here, works) there enough =
      if_cases (λ (y : Bool × Session × Bytes). y.0 ≡ true) (not (ltb s.sent_offset target))
        {x = (true, s, [])} (λ reached. refl)
        (λ more.
          arrives_more r.read s (ship_round target file r s) (ship_loop target file fuel rounds)
            (ship_round-Advances r s here (ground (arith, more)) there)
            (λ s' out x.
              ship_loop-succeeds fuel rounds s' works there
                (omega (arith, Advances-le r.read s s' out x, enough))))

  pub ship_pending-succeeds :
      (rounds : List ShipRound) (s : Session)
      → All RoundWorks rounds
      → target ≤ length file
      → (ship_pending target file rounds s).0 ≡ true
  unfolding ship_pending
  ship_pending-succeeds rounds s works there =
      ship_loop-succeeds (suc (target + length rounds)) rounds s works there (omega arith)
