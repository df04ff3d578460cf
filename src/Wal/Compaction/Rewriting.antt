-- ===== src/Wal/Compaction/Rewriting.antt =====
-- What a compaction leaves in the log file.
use key_value_store.Common.{
  ◌≡◌, refl, ap, true, false, not, List, [], ◌∷◌, Bytes, KeyMap, map, length, arith, if_elim,
  Bool-cases, inl, inr,
}
use key_value_store.Protocol.Commands.{set_command, serialize}
use key_value_store.Wal.Record.{frame}
use key_value_store.Wal.Log.{WriteResult, write_all, frames}
use key_value_store.Wal.Log.Appending.{write_all-IsWritten}
use key_value_store.Wal.Compaction.{
  CompactionIo, CompactionResult, first_script, later_scripts, rewrite_entries, rewrite,
}

-- The records of a compacted log.
abbrev pub set_payloads : KeyMap Bytes → List Bytes
set_payloads entries = map (λ e. serialize (set_command e.0 e.1)) entries

rewrite_entries_lem :
    (scripts : List (List WriteResult)) (entries : KeyMap Bytes)
    → (rewrite_entries scripts entries).2 ≡ true
    → ((rewrite_entries scripts entries).0 ≡ length entries)
      × ((rewrite_entries scripts entries).1 ≡ frames (set_payloads entries))
unfolding rewrite_entries frames
rewrite_entries_lem scripts [] ok = (refl, refl)
rewrite_entries_lem scripts ((key, value) ∷ entries) ok =
    let payload = serialize (set_command key value) in
    let w = write_all-IsWritten (first_script scripts) (frame payload) in
    elim (Bool-cases ((write_all (first_script scripts) (frame payload)).1)) [
      | inr partial ↦ ground (arith, partial, ok)
      | inl whole ↦
          let (count, bytes) =
            rewrite_entries_lem (later_scripts scripts) entries (ground (arith, whole, ok)) in
          rw (whole, w.all whole, count, bytes) (refl, refl)
    ]

-- How a compaction ends: the log is the records of the entries and nothing else, or it is untouched.
pub data Rewrites (entries : KeyMap Bytes) (file : Bytes) (r : CompactionResult × Bytes)
    : Type 0 where
  rewritten :
      r.0.ok ≡ true
      → r.1 ≡ frames (set_payloads entries)
      → r.0.records_written ≡ length entries
      → r.0.bytes_after ≡ length (frames (set_payloads entries))
      → Rewrites entries file r
  kept : r.0.ok ≡ false → r.1 ≡ file → Rewrites entries file r

-- A compaction that succeeds leaves in the log the records of the entries, one `SET` for each in
-- order, and nothing else, and reports their number and size; one that fails, whichever call it is
-- that fails, leaves the log as it was.
pub rewrite-Rewrites :
    (io : CompactionIo) (entries : KeyMap Bytes) (file : Bytes)
    → Rewrites entries file (rewrite io entries file)
unfolding rewrite
rewrite-Rewrites io entries file =
    if_elim (Rewrites entries file) (not io.open_ok) (kept refl refl)
      (elim (Bool-cases ((rewrite_entries io.writes entries).2)) [
        | inr partial ↦ rw partial (kept refl refl)
        | inl whole ↦
            let (count, bytes) = rewrite_entries_lem io.writes entries whole in
            rw whole (
              if_elim (Rewrites entries file) (not io.sync_ok) (kept refl refl) (
                if_elim (Rewrites entries file) (not io.rename_ok) (kept refl refl)
                  (rewritten refl bytes count (ap length bytes))))
      ])
