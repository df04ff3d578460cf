-- ===== src/Repl/Leader/Shipping/Streams.antt =====
-- What a leader ships is what is in its log.
use key_value_store.Common.{
  ℕ, zero, suc, ◌+◌, ◌≤◌, ◌≡◌, refl, sym, ap, ◌∙◌, subst, Bool, true, false, not, List, [], ◌∷◌,
  ◌++◌, Bytes, length, take, drop, ltb, if_cases, arith, take-drop, append_assoc, length-append,
  drop-append_right, if_elim, drop_add,
}
use key_value_store.Repl.Leader.{Session}
use key_value_store.Repl.Leader.Shipping.{
  ReadResult, got, read_interrupted, read_broken, ShipRound, Shipped, goes_on, stops, wanted,
  count_sent, send_bytes, ship_read, ship_round, next_round, ship_loop, ship_pending,
}
use key_value_store.Wal.Log.{WriteResult, write_all}
use key_value_store.Wal.Log.Appending.{write_all-IsWritten}

not-false : (b : Bool) → not b ≡ false → b ≡ true
not-false true e = refl
not-false false e = cc

-- The bytes come first in the list.
abbrev pub IsFront : Bytes → Bytes → Type 0
IsFront out xs = (rest : Bytes) × (out ++ rest ≡ xs)

take-IsFront : (n : ℕ) (xs : Bytes) → IsFront (take n xs) xs
take-IsFront n xs = (drop n xs, take-drop n xs)

IsFront-trans : (a b c : Bytes) → IsFront a b → IsFront b c → IsFront a c
IsFront-trans a b c (rest, e) (rest', e') =
    (rest ++ rest', sym (append_assoc a rest rest') ∙ (ap (λ z. z ++ rest') e ∙ e'))

IsFront-append : (a b rest c : Bytes) → a ++ rest ≡ c → IsFront b rest → IsFront (a ++ b) c
IsFront-append a b rest c e (rest', e') =
    (rest', append_assoc a b rest' ∙ (ap (λ z. a ++ z) e' ∙ e))

write_all-IsFront :
    (script : List WriteResult) (bytes : Bytes) → IsFront (write_all script bytes).0 bytes
write_all-IsFront script bytes =
    let w = write_all-IsWritten script bytes in
    subst (λ z. IsFront z bytes) (sym w.prefix) (take-IsFront w.count bytes)

module _ (target : ℕ) (file : Bytes) where
  -- The bytes are the next ones of the log, and the session is behind them.
  pub record Goes (s s' : Session) (out : Bytes) : Type 0 where
    pub bytes : out ++ drop s'.sent_offset file ≡ drop s.sent_offset file
    pub moved : s'.sent_offset ≡ s.sent_offset + length out

  abbrev pub ShipsIf : Session → Shipped → Type 0
  ShipsIf s (goes_on s' out) = Goes s s' out
  ShipsIf s (stops s' out) = IsFront out (drop s.sent_offset file)

  sent_whole :
      (s s' : Session) (out : Bytes)
      → s'.sent_offset ≡ s.sent_offset + length out
      → IsFront out (drop s.sent_offset file)
      → Goes s s' out
  sent_whole s s' out e (rest, e') = record {
    bytes =
        ap (λ z. out ++ z)
          (ap (λ n. drop n file) e
            ∙ (drop_add s.sent_offset (length out) file
                ∙ (ap (drop (length out)) (sym e')
                    ∙ drop-append_right out rest 0 (length out) (omega arith))))
        ∙ e';
    moved = e;
  }

  send_bytes-Ships :
      (script : List WriteResult) (s : Session) (bytes : Bytes)
      → IsFront bytes (drop s.sent_offset file)
      → ShipsIf s (send_bytes target file script bytes s)
  unfolding send_bytes
  send_bytes-Ships script s [] x = x
  send_bytes-Ships script s (b ∷ bytes) x =
      let front = IsFront-trans _ (b ∷ bytes) _ (write_all-IsFront script (b ∷ bytes)) x in
      if_cases (ShipsIf s) (not (write_all script (b ∷ bytes)).1)
        {x = stops s (write_all script (b ∷ bytes)).0}
        {y = goes_on (count_sent target file (length (b ∷ bytes)) s)
          (write_all script (b ∷ bytes)).0}
        (λ torn. front)
        (λ whole.
          sent_whole s _ _
            (ap (λ n. s.sent_offset + n)
              (ap length (sym ((write_all-IsWritten script (b ∷ bytes)).all (not-false _ whole)))))
            front)

  ship_read-Ships :
      (r : ReadResult) (script : List WriteResult) (s : Session)
      → ShipsIf s (ship_read target file r script s)
  unfolding ship_read
  ship_read-Ships (got n) script s =
      let there = take (wanted target file s) (drop s.sent_offset file) in
      send_bytes-Ships script s (take n there)
        (IsFront-trans _ there _ (take-IsFront n there) (take-IsFront _ (drop s.sent_offset file)))
  ship_read-Ships read_interrupted script s = record { bytes = refl; moved = omega arith }
  ship_read-Ships read_broken script s = (drop s.sent_offset file, refl)

  ship_round-Ships : (r : ShipRound) (s : Session) → ShipsIf s (ship_round target file r s)
  unfolding ship_round
  ship_round-Ships r s =
      if_elim (ShipsIf s) r.stop {x = stops s []} {y = ship_read target file r.read r.writes s}
        (drop s.sent_offset file, refl) (ship_read-Ships r.read r.writes s)

  -- What the loop wrote, and where it says that it is done: it wrote all up to `target`.
  pub record Ships (s : Session) (y : Bool × Session × Bytes) : Type 0 where
    pub front : IsFront y.2 (drop s.sent_offset file)
    pub done : y.0 ≡ true → Goes s y.1 y.2 × (target ≤ y.1.sent_offset)

  Ships-more :
      (s : Session) (shipped : Shipped) (k : Session → Bool × Session × Bytes)
      → ShipsIf s shipped
      → ((s' : Session) → Ships s' (k s'))
      → Ships s (elim shipped as (λ (_ : Shipped). Bool × Session × Bytes) [
        | stops s' out ↦ (false, s', out)
        | goes_on s' out ↦ ((k s').0, (k s').1, out ++ (k s').2)
      ])
  Ships-more s (stops s' out) k x rest = record { front = x; done = λ e. absurd (cc) }
  Ships-more s (goes_on s' out) k x rest =
      let y = rest s' in
      record {
        front = IsFront-append out (k s').2 (drop s'.sent_offset file) _ x.bytes y.front;
        done = λ e.
            let (z, reached) = y.done e in
            (
              record {
                bytes = append_assoc out (k s').2 _ ∙ (ap (λ b. out ++ b) z.bytes ∙ x.bytes);
                moved = omega (arith, z.moved, x.moved, length-append out (k s').2);
              },
              reached,
            );
      }

  ship_loop-Ships :
      (fuel : ℕ) (rounds : List ShipRound) (s : Session)
      → Ships s (ship_loop target file fuel rounds s)
  unfolding ship_loop
  ship_loop-Ships zero rounds s = record {
    front = (drop s.sent_offset file, refl);
    done = λ e. absurd (cc);
  }
  ship_loop-Ships (suc fuel) rounds s =
      let (r, later) = next_round target file rounds in
      if_cases (Ships s) (not (ltb s.sent_offset target))
        (λ reached. record {
          front = (drop s.sent_offset file, refl);
          done = λ e. (record { bytes = refl; moved = omega arith }, ground (arith, reached));
        })
        (λ more.
          Ships-more s (ship_round target file r s) (ship_loop target file fuel later)
            (ship_round-Ships r s) (ship_loop-Ships fuel later))

  pub ship_pending-Ships :
      (rounds : List ShipRound) (s : Session) → Ships s (ship_pending target file rounds s)
  unfolding ship_pending
  ship_pending-Ships rounds s = ship_loop-Ships (suc (target + length rounds)) rounds s
