-- ===== src/Wal/Compaction.antt =====
-- src/wal/compactor.cpp: the log is written anew, from a snapshot, into a file beside it, which then
-- takes its name. `stat` succeeds; the `fsync` of the directory, whose answer the source drops, is
-- left out, and the file beside the log is gone after a failure.
pub mod Rewriting
use key_value_store.Common.{
  ℕ, suc, Bool, true, false, List, [], ◌∷◌, ◌++◌, Option, none, some, Bytes, KeyMap, length,
  if◌then◌else◌, not,
}
use key_value_store.Wal.Record.{frame}
use key_value_store.Wal.Log.{WriteResult, write_all}
use key_value_store.Protocol.Commands.{set_command, serialize}

pub data CompactionError : Type 0 where
  no_log open_failed write_failed fsync_failed rename_failed : CompactionError

pub record CompactionResult : Type 0 where
  pub ok : Bool
  pub error : Option CompactionError
  pub records_written : ℕ
  pub bytes_before : ℕ
  pub bytes_after : ℕ

abbrev pub no_compaction : CompactionResult
no_compaction = record {
  ok = false;
  error = none;
  records_written = 0;
  bytes_before = 0;
  bytes_after = 0;
}

-- The answers of the system calls; `writes` has one list for each entry.
pub record CompactionIo : Type 0 where
  pub open_ok : Bool
  pub writes : List (List WriteResult)
  pub sync_ok : Bool
  pub rename_ok : Bool

abbrev pub first_script : List (List WriteResult) → List WriteResult
first_script [] = []
first_script (script ∷ scripts) = script

abbrev pub later_scripts : List (List WriteResult) → List (List WriteResult)
later_scripts [] = []
later_scripts (script ∷ scripts) = scripts

-- The loop over the entries: how many were written, the bytes, and whether that is all of them.
unfoldable pub rewrite_entries : List (List WriteResult) → KeyMap Bytes → ℕ × Bytes × Bool
rewrite_entries scripts [] = (0, [], true)
rewrite_entries scripts ((key, value) ∷ entries) =
    let (out, all) = write_all (first_script scripts) (frame (serialize (set_command key value))) in
    let (n, bytes, ok) = rewrite_entries (later_scripts scripts) entries in
    if not all then (0, out, false) else (suc n, out ++ bytes, ok)

-- `Compactor::rewrite`: the result and what is in the log file.
unfoldable pub rewrite : CompactionIo → KeyMap Bytes → Bytes → CompactionResult × Bytes
rewrite io entries file =
    let start : CompactionResult = record no_compaction { bytes_before = length file } in
    let (n, bytes, ok) = rewrite_entries io.writes entries in
    let written : CompactionResult = record start { records_written = n } in
    if not io.open_ok
    then (record start { error = some open_failed }, file)
    else if not ok
    then (record written { error = some write_failed }, file)
    else if not io.sync_ok
    then (record written { error = some fsync_failed }, file)
    else if not io.rename_ok
    then (record written { error = some rename_failed }, file)
    else (record written { bytes_after = length bytes; ok = true }, bytes)
