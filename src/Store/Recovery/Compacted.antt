-- ===== src/Store/Recovery/Compacted.antt =====
-- A log that was compacted is recovered to a map in which the same is found.
use key_value_store.Common.{
  subst, sym, length, true, All, take_of_length-le, append-nil, ℕ, ◌≡◌, refl, ap, ◌∙◌, false, List,
  [], ◌∷◌, none, some, Bytes, KeyMap, find, map, arith, IsDistinct, bytes_eq_iff,
}
use key_value_store.Store.ShardedMap.{ShardedMap, eviction_enabled, map_set, snapshot}
use key_value_store.Store.ShardedMap.Valid.{IsValid, view}
use key_value_store.Store.ShardedMap.Contents.{map_set-IsValid, view-map_set_off}
use key_value_store.Store.ShardedMap.Distinct.{IsDistinct-snapshot}
use key_value_store.Store.ShardedMap.Snapshot.{snapshot_lem}
use key_value_store.Store.Engine.{Store}
use key_value_store.Store.Engine.Applier.{recover_from_log}
use key_value_store.Store.Recovery.Cut.{Recovers, recover_from_log-cut}
use key_value_store.Store.Recovery.Crash.{whole_in_all, whole_writes-append}
use key_value_store.Wal.Log.{frames, returned}
use key_value_store.Wal.Replay.{ReplayIo}
use key_value_store.Wal.Replay.Scanning.{AreSmall}
use key_value_store.Wal.Replay.Cut.{whole_in, Works}
use key_value_store.Wal.Compaction.{CompactionIo, rewrite}
use key_value_store.Store.Recovery.{
  IsWritable, whole_writes, Write, put, records, journal, run, run_all,
}
use key_value_store.Protocol.Commands.{set_command, serialize}
use key_value_store.Wal.Compaction.Rewriting.{rewrite-Rewrites, rewritten, kept, set_payloads}

abbrev pub puts : KeyMap Bytes → List Write
puts entries = map (λ e. put e.0 e.1) entries

pub journal-puts : (entries : KeyMap Bytes) → journal (puts entries) ≡ set_payloads entries
unfolding journal records
journal-puts [] = refl
journal-puts ((key, value) ∷ entries) =
    ap (◌∷◌ (serialize (set_command key value))) (journal-puts entries)

module _ (hash : Bytes → ℕ) where
  -- Writing the entries of a map finds these entries, over what was found before.
  view-puts :
      (entries : KeyMap Bytes) (m : ShardedMap) (k : Bytes)
      → IsValid hash m
      → eviction_enabled m ≡ false
      → IsDistinct entries
      → view hash (run_all hash (puts entries) m) k
        ≡ (elim (find k entries) [ none ↦ view hash m k | some v ↦ some v ])
  unfolding run_all run find
  view-puts [] m k valid off distinct = refl
  view-puts ((j, v) ∷ entries) m k valid off (fresh, distinct) =
      let after = map_set hash j v m in
      let rest =
        view-puts entries after k (map_set-IsValid hash j v m valid) (unfold map_set in off)
          distinct in
      let set = view-map_set_off hash j v m valid off k in
      rest ∙ (ground (arith, set, fresh, bytes_eq_iff j k))

  -- The records that a compaction writes, played into a store that has nothing, give back what was found.
  pub view-compacted :
      (m fresh : ShardedMap) (k : Bytes)
      → IsValid hash m
      → IsValid hash fresh
      → eviction_enabled fresh ≡ false
      → ((j : Bytes) → view hash fresh j ≡ none)
      → view hash (run_all hash (puts (snapshot m)) fresh) k ≡ view hash m k
  view-compacted m fresh k valid valid' off empty =
      let (same, size) = snapshot_lem hash m valid in
      let played = view-puts (snapshot m) fresh k valid' off (IsDistinct-snapshot hash m valid) in
      ground (arith, played, same k, empty k)

  -- The whole log is recovered from with the map that all of its writes make.
  recover_from_log-whole :
      (ws : List Write) (io : ReplayIo) (s : Store)
      → All IsWritable ws
      → AreSmall (journal ws)
      → Works io
      → Recovers hash io (frames (journal ws)) s (run_all hash ws s.map) (frames (journal ws))
  recover_from_log-whole ws io s writable small works =
      let n : ℕ = length (frames (journal ws)) in
      let r = recover_from_log-cut hash ws n io s writable small works in
      let count : whole_in n (journal ws) ≡ length (journal ws) =
        whole_in_all (journal ws) n (omega arith) in
      let writes : whole_writes (length (journal ws)) ws ≡ length ws =
        ap (whole_writes (length (journal ws))) (sym (append-nil ws))
        ∙ (whole_writes-append ws [] (length (journal ws)) 0 (omega arith)
            ∙ (unfold whole_writes in omega arith)) in
      let bytes = take_of_length-le (frames (journal ws)) n (omega arith) in
      let all_records = take_of_length-le (journal ws) (length (journal ws)) (omega arith) in
      let all_writes = take_of_length-le ws (length ws) (omega arith) in
      rw (bytes, count, writes, all_records, all_writes) at r

  -- After a compaction of the log that succeeds, whatever was in the log, recovery into a valid
  -- empty map with no memory budget, on a system whose calls succeed, gives a store in which every
  -- key has what it had in the compacted map, and leaves the log as it is, where that map is valid
  -- and its entries fit the records.
  pub recover_from_log-rewrite :
      (m : ShardedMap) (file : Bytes) (fresh : Store) (compaction_io : CompactionIo) (io : ReplayIo)
      → IsValid hash m
      → IsValid hash fresh.map
      → eviction_enabled fresh.map ≡ false
      → ((j : Bytes) → view hash fresh.map j ≡ none)
      → All IsWritable (puts (snapshot m))
      → AreSmall (set_payloads (snapshot m))
      → Works io
      → (rewrite compaction_io (snapshot m) file).0.ok ≡ true
      → (after : Store) × (recover_from_log hash io
            (some (rewrite compaction_io (snapshot m) file).1)
            fresh
          ≡ (returned after, some (rewrite compaction_io (snapshot m) file).1))
        × ((k : Bytes) → view hash after.map k ≡ view hash m k)
  recover_from_log-rewrite m file fresh compaction_io io valid valid' off empty writable small works
        ok =
      let ws : List Write = puts (snapshot m) in
      let journaled : journal ws ≡ set_payloads (snapshot m) = journal-puts (snapshot m) in
      let r = recover_from_log-whole ws io fresh writable (rw journaled small) works in
      elim (rewrite-Rewrites compaction_io (snapshot m) file) [
        | kept failed same ↦ ground (arith, ok, failed)
        | rewritten done bytes count size ↦
            let file_is : frames (journal ws) ≡ (rewrite compaction_io (snapshot m) file).1 =
              ap frames journaled ∙ sym bytes in
            (
              r.recovered,
              subst (λ b. recover_from_log hash io (some b) fresh ≡ (returned r.recovered, some b))
                  file_is r.recovers,
              λ k.
                  ap (λ n. view hash n k) r.map_is
                  ∙ view-compacted m fresh.map k valid valid' off empty,
            )
      ]
