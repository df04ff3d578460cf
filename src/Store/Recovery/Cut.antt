-- ===== src/Store/Recovery/Cut.antt =====
-- What recovery makes of a log that a crash cut at any byte.
use key_value_store.Common.{
  ℕ, ◌-◌, ◌≡◌, refl, ap, ◌∙◌, subst, Bool, false, leb, List, [], ◌∷◌, ◌++◌, some, Bytes, length,
  take, arith, All, take-append_le, take-append_right, take_nil, Bool-cases, inl, inr,
}
use key_value_store.Store.ShardedMap.{ShardedMap}
use key_value_store.Store.Engine.{Store}
use key_value_store.Store.Engine.Applier.{Applier, new_applier, apply, recover_from_log}
use key_value_store.Store.Recovery.{Write, records, journal, IsWritable, whole_writes, run_all}
use key_value_store.Store.Recovery.Records.{Applied, records-Applied, records_cut-Applied}
use key_value_store.Wal.Log.{returned, frames}
use key_value_store.Wal.Replay.{ReplayIo}
use key_value_store.Wal.Replay.Scanning.{AreSmall, handle_all, handle_all-append, cut_result}
use key_value_store.Wal.Replay.Cut.{whole_in, Works, replay-cut}

module _ (hash : Bytes → ℕ) where
  Applied-append :
      (ps qs : List Bytes) (a : Applier) (m m' : ShardedMap) (inside : Bool)
      → (x : Applied hash ps a m false) → Applied hash qs x.final m' inside
      → Applied hash (ps ++ qs) a m' inside
  Applied-append ps qs a m m' inside x y = record {
    final = y.final;
    handled = handle_all-append (apply hash) ps qs a x.final x.handled ∙ y.handled;
    map_is = y.map_is;
    inside_is = y.inside_is;
  }

  -- The first `i` records of a log have the effect of the writes that are whole in them.
  pub journal_cut-Applied :
      (ws : List Write) (i : ℕ) (a : Applier)
      → All IsWritable ws
      → a.inside_transaction ≡ false
      → (inside : Bool) × Applied hash
          (take i (journal ws))
          a
          (run_all hash (take (whole_writes i ws) ws) a.store.map)
          inside
  unfolding journal run_all whole_writes
  journal_cut-Applied [] i a writable idle = (
    false,
    record {
      final = a;
      handled = ap (λ ps. handle_all (apply hash) ps a) (take_nil i) ∙ (unfold handle_all in refl);
      map_is = refl;
      inside_is = idle;
    },
  )
  journal_cut-Applied (w ∷ ws) i a (writable, later) idle =
      let here = length (records w) in
      elim (Bool-cases (leb here i)) [
        | inr short ↦
            let (inside, x) =
              records_cut-Applied hash w i a writable idle (ground (arith, short)) in
            (
              inside,
              rw
                  (
                    short,
                    whole_writes,
                    take-append_le (records w) (journal ws) i (ground (arith, short)),
                  )
                  x,
            )
        | inl whole ↦
            let first = records-Applied hash w a writable idle in
            let (inside, rest) =
              journal_cut-Applied ws (i - here) first.final later first.inside_is in
            let rest' =
              subst
                (λ m.
                  Applied hash (take (i - here) (journal ws)) first.final
                    (run_all hash (take (whole_writes (i - here) ws) ws) m) inside)
                first.map_is rest in
            (
              inside,
              rw
                  (
                    whole,
                    whole_writes,
                    take-append_right (records w) (journal ws) (i - here) i (ground (arith, whole)),
                  )
                  (Applied-append (records w) (take (i - here) (journal ws)) a _ _ inside first
                    rest'),
            )
      ]

  -- Recovery gives a store with this map, and leaves these bytes in the log.
  pub record Recovers (io : ReplayIo) (file : Bytes) (s : Store) (m : ShardedMap) (left : Bytes)
      : Type 0 where
    pub recovered : Store
    pub recovers : recover_from_log hash io (some file) s ≡ (returned recovered, some left)
    pub map_is : recovered.map ≡ m

  -- Recovery from the first `n` bytes of the log of any writes, with small records and a system
  -- whose calls succeed, gives the map that the writes whose records are all there make in order,
  -- and no other write; the log then ends behind its last whole record.
  pub recover_from_log-cut :
      (ws : List Write) (n : ℕ) (io : ReplayIo) (s : Store)
      → All IsWritable ws
      → AreSmall (journal ws)
      → Works io
      → Recovers io
          (take n (frames (journal ws)))
          s
          (run_all hash (take (whole_writes (whole_in n (journal ws)) ws) ws) s.map)
          (frames (take (whole_in n (journal ws)) (journal ws)))
  unfolding recover_from_log
  recover_from_log-cut ws n io s writable small works =
      let i = whole_in n (journal ws) in
      let (inside, x) =
        journal_cut-Applied ws i (new_applier s) writable (unfold new_applier in refl) in
      let ran =
        replay-cut (apply hash) n (journal ws) io (new_applier s) x.final small works x.handled in
      record {
        recovered = record x.final.store {
          recovery =
              cut_result (take i (journal ws))
                (length (take n (frames (journal ws))) - length (frames (take i (journal ws))));
          recovery_discarded_transaction = x.final.inside_transaction;
        };
        recovers =
            rw (ap (λ y. y.0) ran, ap (λ y. y.1) ran, ap (λ y. y.2) ran, recover_from_log) refl;
        map_is = x.map_is ∙ (unfold new_applier in refl);
      }
