-- ===== src/Repl/Follower/Catching.antt =====
-- src/repl/follower.cpp: a follower whose log and whose leader take what it writes.
use key_value_store.Common.{
  inl, inr, if◌then◌else◌, ℕ, ◌≤◌, ◌≡◌, refl, sym, ap, ◌∙◌, Bool, true, false, not, List, [], ◌∷◌,
  ◌++◌, some, none, Bytes, length, drop, take, arith, All, take-append_left,
}
use key_value_store.Store.Engine.{Store}
use key_value_store.Store.Engine.Applier.{Applier, apply, new_applier}
use key_value_store.Store.Recovery.{Write, IsWritable, journal}
use key_value_store.Store.Recovery.Cut.{journal_cut-Applied}
use key_value_store.Wal.Log.{
  FsyncMode, always, interval, never, Io, Log, LogError, write_failed, Outcome, returned, threw,
  WriteResult, wrote, interrupted, failed, write_all, sync_if_always, write_blob, append_batch,
  frames,
}
use key_value_store.Wal.Replay.Scanning.{AreSmall, handle_all}
use key_value_store.Repl.Follower.{Follower, new_follower, consume, max_buffered_transaction_bytes}
use key_value_store.Repl.Follower.Parsing.{payload_bytes}
use key_value_store.Repl.Follower.Stream.{
  Drops, too_much, not_logged, unknown, not_acknowledged, bytes_of,
}
use key_value_store.Repl.Follower.Consuming.{DropsIn, FedAll}
use key_value_store.Repl.Follower.Replica.{Replicates, stream-FedAll, Replicates-Fed}

-- No call of `write` fails.
unfoldable pub goes_through : List WriteResult → Bool
goes_through [] = true
goes_through (failed ∷ script) = false
goes_through (interrupted ∷ script) = goes_through script
goes_through (wrote n ∷ script) = goes_through script

pub write_all-goes_through :
    (script : List WriteResult) (bytes : Bytes)
    → goes_through script ≡ true
    → (write_all script bytes).1 ≡ true
unfolding write_all goes_through
write_all-goes_through [] bytes e = refl
write_all-goes_through (r ∷ script) [] e = refl
write_all-goes_through (failed ∷ script) (b ∷ bytes) e = cc
write_all-goes_through (interrupted ∷ script) (b ∷ bytes) e =
    write_all-goes_through script (b ∷ bytes) e
write_all-goes_through (wrote n ∷ script) (b ∷ bytes) e =
    write_all-goes_through script (drop n (b ∷ bytes)) e

-- What a chunk meets: the log is written and synced, and the leader takes the acknowledgement.
abbrev pub ChunkWorks : Io × List WriteResult × Bytes → Type 0
ChunkWorks (io, script, bytes) =
    (goes_through io.writes ≡ true) × (io.sync_ok ≡ true) × (goes_through script ≡ true)

sync_if_always-works :
    (mode : FsyncMode) (ok : Bool) (log : Log) (error : LogError)
    → ok ≡ true
    → (sync_if_always mode ok log).0 ≡ threw error
    → ⊥
unfolding sync_if_always key_value_store.Wal.Log.sync_locked
sync_if_always-works always true log error synced e = cc
sync_if_always-works always false log error synced e = cc
sync_if_always-works interval ok log error synced e = cc
sync_if_always-works never ok log error synced e = cc

written-works :
    (all ok : Bool) (mode : FsyncMode) (torn log : Log) (error : LogError)
    → all ≡ true
    → ok ≡ true
    → (if not all then (threw write_failed, torn) else sync_if_always mode ok log).0 ≡ threw error
    → ⊥
written-works true ok mode torn log error written synced e =
    sync_if_always-works mode ok log error synced e
written-works false ok mode torn log error written synced e = cc

append_batch-works :
    (io : Io) (p : Bytes) (ps : List Bytes) (log : Log) (error : LogError)
    → goes_through io.writes ≡ true
    → io.sync_ok ≡ true
    → (append_batch io (p ∷ ps) log).0 ≡ threw error
    → ⊥
unfolding append_batch write_blob
append_batch-works io p ps log error written synced e =
    written-works (write_all io.writes (frames (p ∷ ps))).1 io.sync_ok log.mode _ _ error
      (write_all-goes_through io.writes (frames (p ∷ ps)) written) synced e

module _ (hash : Bytes → ℕ) (ws : List Write) (a : Applier) (file : Bytes)
    (writable : All IsWritable ws) (idle : a.inside_transaction ≡ false) where
  known :
      (qs later : List Bytes) → journal ws ≡ qs ++ later → handle_all (apply hash) qs a ≡ none → ⊥
  known qs later all none_left =
      let front : take (length qs) (journal ws) ≡ qs =
        ap (take (length qs)) all ∙ take-append_left qs later (length qs) refl in
      let (inside, x) = journal_cut-Applied hash ws (length qs) a writable idle in
      let both = sym none_left ∙ (ap (λ z. handle_all (apply hash) z a) (sym front) ∙ x.handled) in
      cc

  keeps_on :
      (io : Io) (script : List WriteResult) (bytes : Bytes)
      → payload_bytes (journal ws) ≤ max_buffered_transaction_bytes
      → ChunkWorks (io, script, bytes)
      → Drops hash a file (journal ws) io script
      → ⊥
  keeps_on io script bytes room works (too_much h) = omega arith
  keeps_on io script bytes room (written, synced, told) (not_logged l p qs error e) =
      append_batch-works io p qs l error written synced e
  keeps_on io script bytes room works (unknown qs later all e) = known qs later all e
  keeps_on io script bytes room (written, synced, told) (not_acknowledged line e) =
      let e' = write_all-goes_through script line told in cc

  pub stays_linked :
      (chunks : List (Io × List WriteResult × Bytes))
      → payload_bytes (journal ws) ≤ max_buffered_transaction_bytes
      → All ChunkWorks chunks
      → DropsIn hash a file (journal ws) chunks
      → ⊥
  stays_linked [] room works why = why
  stays_linked ((io, script, bytes) ∷ chunks) room (now, later) (inl why) =
      keeps_on io script bytes room now why
  stays_linked ((io, script, bytes) ∷ chunks) room (now, later) (inr why) =
      stays_linked chunks room later why

module _ (hash : Bytes → ℕ) (ws : List Write) (s : Store) (log : Log)
    (writable : All IsWritable ws) where
  kept-Replicates :
      (chunks : List (Io × List WriteResult × Bytes)) (rest : Bytes) (y : Bool × Follower)
      → payload_bytes (journal ws) ≤ max_buffered_transaction_bytes
      → All ChunkWorks chunks
      → FedAll hash (new_applier s) log.file (journal ws) chunks rest y
      → (y.0 ≡ true) × Replicates hash ws s log rest y.1
  kept-Replicates chunks rest (true, f) room works x =
      (refl, Replicates-Fed hash ws s log writable rest f x)
  kept-Replicates chunks rest (false, f) room works why = absurd (
      stays_linked hash ws (new_applier s) log.file writable (unfold new_applier in refl) chunks
        room works why)

  -- A follower whose log and whose leader take what it writes never drops its link at chunks of its
  -- leader's log, however they are cut, while the records fit its buffer and are not too long, and
  -- it has the writes that came as a whole.
  pub consume-CatchesUp :
      (chunks : List (Io × List WriteResult × Bytes)) (rest : Bytes)
      → AreSmall (journal ws)
      → s.log ≡ some log
      → bytes_of chunks ++ rest ≡ frames (journal ws)
      → payload_bytes (journal ws) ≤ max_buffered_transaction_bytes
      → All ChunkWorks chunks
      → ((consume hash chunks (new_follower s)).0 ≡ true)
        × Replicates hash ws s log rest (consume hash chunks (new_follower s)).1
  consume-CatchesUp chunks rest small logged sent room works =
      kept-Replicates chunks rest _ room works
        (stream-FedAll hash ws s log writable chunks rest small logged sent)
