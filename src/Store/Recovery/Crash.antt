-- ===== src/Store/Recovery/Crash.antt =====
-- The tie between the log and the map of a running store, and a crash in the middle of a write.
use key_value_store.Common.{
  ℕ, suc, ◌+◌, ◌-◌, ◌<◌, ◌≤◌, ◌≡◌, refl, sym, ap, ◌∙◌, true, false, leb, List, [], ◌∷◌, ◌++◌, some,
  Bytes, length, take, if◌then◌else◌, arith, append-nil, append_assoc, length-append, All,
  take-append_right, inl, inr, Bool-cases,
}
use key_value_store.Store.ShardedMap.{ShardedMap}
use key_value_store.Store.Engine.{Store}
use key_value_store.Store.Recovery.{
  Write, records, journal, IsWritable, whole_writes, run, run_all, perform,
}
use key_value_store.Store.Recovery.Cut.{Recovers, recover_from_log-cut}
use key_value_store.Store.Recovery.Running.{done, logged_only, cut, perform-Ends}
use key_value_store.Wal.Record.{frame}
use key_value_store.Wal.Log.{Io, Log, frames}
use key_value_store.Wal.Replay.{ReplayIo}
use key_value_store.Wal.Replay.Scanning.{AreSmall}
use key_value_store.Wal.Replay.Cut.{whole_in, Works}

frames-append : (ps qs : List Bytes) → frames (ps ++ qs) ≡ frames ps ++ frames qs
unfolding frames
frames-append [] qs = refl
frames-append (p ∷ ps) qs =
    ap (◌++◌ (frame p)) (frames-append ps qs) ∙ sym (append_assoc (frame p) (frames ps) (frames qs))

journal-snoc : (ws : List Write) (w : Write) → journal (ws ++ w ∷ []) ≡ journal ws ++ records w
unfolding journal
journal-snoc [] w = append-nil (records w)
journal-snoc (v ∷ ws) w =
    ap (◌++◌ (records v)) (journal-snoc ws w)
    ∙ sym (append_assoc (records v) (journal ws) (records w))

whole_in-append :
    (ps qs : List Bytes) (n m : ℕ)
    → n ≡ length (frames ps) + m
    → whole_in n (ps ++ qs) ≡ length ps + whole_in m qs
unfolding whole_in frames
whole_in-append [] qs n m e = let same : n ≡ m = omega arith in rw same (omega arith)
whole_in-append (p ∷ ps) qs n m e =
    let sizes = length-append (frame p) (frames ps) in
    let inside : leb (length (frame p)) n ≡ true = ground (arith, sizes) in
    let rest = whole_in-append ps qs (n - length (frame p)) m (omega (arith, sizes)) in
    rw inside (ap suc rest ∙ omega arith)

pub whole_writes-append :
    (ws vs : List Write) (n m : ℕ)
    → n ≡ length (journal ws) + m
    → whole_writes n (ws ++ vs) ≡ length ws + whole_writes m vs
unfolding whole_writes journal
whole_writes-append [] vs n m e = let same : n ≡ m = omega arith in rw same (omega arith)
whole_writes-append (w ∷ ws) vs n m e =
    let sizes = length-append (records w) (journal ws) in
    let inside : leb (length (records w)) n ≡ true = ground (arith, sizes) in
    let rest = whole_writes-append ws vs (n - length (records w)) m (omega (arith, sizes)) in
    rw inside (ap suc rest ∙ omega arith)

-- The records that stand whole in the first bytes are all of them exactly when the bytes are.
pub whole_in_all : (ps : List Bytes) (n : ℕ) → length (frames ps) ≤ n → whole_in n ps ≡ length ps
unfolding whole_in frames
whole_in_all [] n h = refl
whole_in_all (p ∷ ps) n h =
    let sizes = length-append (frame p) (frames ps) in
    let inside : leb (length (frame p)) n ≡ true = ground (arith, sizes) in
    rw inside (ap suc (whole_in_all ps (n - length (frame p)) (omega (arith, sizes))))

whole_in_some : (ps : List Bytes) (n : ℕ) → n < length (frames ps) → whole_in n ps < length ps
unfolding whole_in frames
whole_in_some [] n h = absurd (omega arith)
whole_in_some (p ∷ ps) n h =
    let sizes = length-append (frame p) (frames ps) in
    elim (Bool-cases (leb (length (frame p)) n)) [
      | inl inside ↦
          let rest = whole_in_some ps (n - length (frame p)) (ground (arith, sizes, inside)) in
          rw (inside, whole_in) (omega (arith, rest))
      | inr outside ↦ rw (outside, whole_in) (omega arith)
    ]

module _ (hash : Bytes → ℕ) where
  run_all-snoc :
      (ws : List Write) (w : Write) (m : ShardedMap)
      → run_all hash (ws ++ w ∷ []) m ≡ run hash w (run_all hash ws m)
  unfolding run_all
  run_all-snoc [] w m = refl
  run_all-snoc (v ∷ ws) w m = run_all-snoc ws w (run hash v m)

  -- The log of a store holds the records of some writes, and its map is what they make of `start`.
  pub record IsJournaled (start : ShardedMap) (ws : List Write) (s : Store) : Type 0 where
    pub log : Log
    pub logged : s.log ≡ some log
    pub file : log.file ≡ frames (journal ws)
    pub map_is : s.map ≡ run_all hash ws start

  -- A `SET`, a `DEL` or a commit that succeeds keeps the log and the map of a store together: the
  -- log ends with the records of the write, and the map is what all writes so far make of the first
  -- map.
  pub perform-IsJournaled :
      (start : ShardedMap) (ws : List Write) (io : Io) (w : Write) (s : Store)
      → IsJournaled start ws s
      → (perform hash io w s).0 ≡ true
      → IsJournaled start (ws ++ w ∷ []) (perform hash io w s).1
  perform-IsJournaled start ws io w s j ok = elim (perform-Ends hash io w s j.log j.logged) [
    | done after yes_ok logged file map_is ↦ record {
      log = after;
      logged = logged;
      file =
          file
          ∙ (ap (λ b. b ++ frames (records w)) j.file
              ∙ (sym (frames-append (journal ws) (records w))
                  ∙ ap frames (sym (journal-snoc ws w))));
      map_is = map_is ∙ (ap (run hash w) j.map_is ∙ sym (run_all-snoc ws w start));
    }
    | logged_only after failed logged file map_is ↦ ground (arith, ok, failed)
    | cut after count failed logged file map_is ↦ ground (arith, ok, failed)
  ]

  run_all_last :
      (ws : List Write) (w : Write) (n : ℕ) (start : ShardedMap)
      → run_all hash
          (take (length ws + whole_writes (whole_in n (records w)) (w ∷ [])) (ws ++ w ∷ []))
          start
        ≡ (if leb (length (frames (records w))) n
            then run hash w (run_all hash ws start)
            else run_all hash ws start)
  unfolding whole_writes
  run_all_last ws w n start =
      let k = whole_in n (records w) in
      elim (Bool-cases (leb (length (frames (records w))) n)) [
        | inl whole ↦
            let inside : leb (length (records w)) k ≡ true =
              ground (arith, whole_in_all (records w) n (ground (arith, whole))) in
            let taken = take-append_right ws (w ∷ []) 1 (length ws + 1) refl in
            rw (whole, inside, taken) (run_all-snoc ws w start)
        | inr short ↦
            let outside : leb (length (records w)) k ≡ false =
              ground (arith, whole_in_some (records w) n (ground (arith, short))) in
            let taken = take-append_right ws (w ∷ []) 0 (length ws + 0) refl in
            rw (short, outside, taken, append-nil ws) refl
      ]

  -- For a store whose log holds the records of the writes of its map, with small records and a
  -- system whose calls succeed: a crash that leaves any first part of the bytes of one more write,
  -- a whole transaction for one, is recovered from with the map before that write, or, when all of
  -- its bytes are there, with the map after it; the log keeps the old records and those of the
  -- write that are whole.
  pub crash_in_write :
      (start : ShardedMap) (ws : List Write) (w : Write) (s fresh : Store) (io : ReplayIo) (n : ℕ)
      → IsJournaled start ws s
      → fresh.map ≡ start
      → All IsWritable (ws ++ w ∷ [])
      → AreSmall (journal (ws ++ w ∷ []))
      → Works io
      → Recovers hash io
          (frames (journal ws) ++ take n (frames (records w)))
          fresh
          (if leb (length (frames (records w))) n then run hash w s.map else s.map)
          (frames (journal ws ++ take (whole_in n (records w)) (records w)))
  crash_in_write start ws w s fresh io n j same writable small works =
      let bytes : ℕ = length (frames (journal ws)) + n in
      let r = recover_from_log-cut hash (ws ++ w ∷ []) bytes io fresh writable small works in
      let split : frames (journal (ws ++ w ∷ [])) ≡ frames (journal ws) ++ frames (records w) =
        ap frames (journal-snoc ws w) ∙ frames-append (journal ws) (records w) in
      let file : take bytes (frames (journal (ws ++ w ∷ [])))
          ≡ frames (journal ws) ++ take n (frames (records w)) =
        ap (take bytes) split
        ∙ take-append_right (frames (journal ws)) (frames (records w)) n bytes refl in
      let k : ℕ = whole_in n (records w) in
      let count : whole_in bytes (journal (ws ++ w ∷ [])) ≡ length (journal ws) + k =
        ap (whole_in bytes) (journal-snoc ws w)
        ∙ whole_in-append (journal ws) (records w) bytes n refl in
      let left : frames (take (length (journal ws) + k) (journal (ws ++ w ∷ [])))
          ≡ frames (journal ws ++ take k (records w)) =
        ap (λ ps. frames (take (length (journal ws) + k) ps)) (journal-snoc ws w)
        ∙ ap frames (take-append_right (journal ws) (records w) k (length (journal ws) + k) refl) in
      let writes : whole_writes (length (journal ws) + k) (ws ++ w ∷ [])
          ≡ length ws + whole_writes k (w ∷ []) =
        whole_writes-append ws (w ∷ []) (length (journal ws) + k) k refl in
      let now : s.map ≡ run_all hash ws fresh.map = j.map_is ∙ ap (run_all hash ws) (sym same) in
      rw (count, writes, left, file, run_all_last ws w n fresh.map, ← now) at r
