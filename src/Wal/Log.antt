-- ===== src/Wal/Log.antt =====
-- src/wal/wal.cpp: the log file as the writer sees it. What the system calls answer is an argument:
-- the results of the `write` calls in order, and whether the calls after them succeed. The loop of
-- the interval thread is a `sync` now and then. Sizes in bytes stay below 2 ^ 64.
pub mod Appending
use key_value_store.Common.{
  ℕ, zero, suc, ◌+◌, Bool, true, false, List, [], ◌∷◌, ◌++◌, Option, none, some, Bytes, length,
  take, drop, if◌then◌else◌, not, codes, bytes_eq, add64,
}
use key_value_store.Wal.Record.{frame}

pub data FsyncMode : Type 0 where
  always interval never : FsyncMode

unfoldable pub parse_fsync_mode : Bytes → Option FsyncMode
parse_fsync_mode text =
    if bytes_eq text (codes "always")
    then some always
    else if bytes_eq text (codes "interval")
    then some interval
    else if bytes_eq text (codes "never")
    then some never
    else none

unfoldable pub fsync_mode_name : FsyncMode → Bytes
fsync_mode_name always = codes "always"
fsync_mode_name interval = codes "interval"
fsync_mode_name never = codes "never"

-- What a `std::runtime_error` of the log says.
pub data LogError : Type 0 where
  open_failed lseek_failed write_failed fsync_failed read_failed truncate_failed : LogError

pub data Outcome {ℓ} (A : Type ℓ) : Type ℓ where
  returned : A → Outcome A
  threw : LogError → Outcome A

-- One answer of `write`: that many bytes (never more than it was handed), `EINTR`, or an error.
pub data WriteResult : Type 0 where
  wrote : ℕ → WriteResult
  interrupted failed : WriteResult

-- `writeAll`: what reaches the file, and whether that is all of it. The calls past the end of the
-- list take whatever is left.
unfoldable pub write_all : List WriteResult → Bytes → Bytes × Bool
write_all [] rest = (rest, true)
write_all (r ∷ script) [] = ([], true)
write_all (interrupted ∷ script) (b ∷ rest) = write_all script (b ∷ rest)
write_all (failed ∷ script) (b ∷ rest) = ([], false)
write_all (wrote n ∷ script) (b ∷ rest) =
    let (more, all) = write_all script (drop n (b ∷ rest)) in (take n (b ∷ rest) ++ more, all)

pub record Io : Type 0 where
  pub writes : List WriteResult
  pub sync_ok : Bool

pub record Log : Type 0 where
  pub path : Bytes
  pub mode : FsyncMode
  pub file : Bytes
  pub offset : ℕ
  pub appends : ℕ
  pub syncs : ℕ
  pub bytes_written : ℕ

-- The constructor, over what is in the file; `O_CREAT` makes an empty one.
unfoldable pub open_log : Bytes → FsyncMode → Bytes → Log
open_log path mode file = record {
  path = path;
  mode = mode;
  file = file;
  offset = length file;
  appends = 0;
  syncs = 0;
  bytes_written = 0;
}

-- `syncLocked`, before a call that returns `result`.
unfoldable pub sync_locked {ℓ} : {A : Type ℓ} → Bool → A → Log → Outcome A × Log
sync_locked true result log = (returned result, record log { syncs = add64 log.syncs 1 })
sync_locked false result log = (threw fsync_failed, log)

unfoldable pub sync_if_always : FsyncMode → Bool → Log → Outcome ℕ × Log
unfolding sync_locked
sync_if_always always ok log = sync_locked ok log.offset log
sync_if_always interval ok log = (returned log.offset, log)
sync_if_always never ok log = (returned log.offset, log)

-- The part that `append` and `appendBatch` share: `count` records in `blob`.
unfoldable pub write_blob : Io → ℕ → Bytes → Log → Outcome ℕ × Log
unfolding write_all sync_if_always
write_blob io count blob log =
    let (out, all) = write_all io.writes blob in
    if not all
    then (threw write_failed, record log { file = log.file ++ out })
    else sync_if_always log.mode io.sync_ok (record log {
      file = log.file ++ out;
      offset = add64 log.offset (length blob);
      appends = add64 log.appends count;
      bytes_written = add64 log.bytes_written (length blob);
    })

unfoldable pub append : Io → Bytes → Log → Outcome ℕ × Log
unfolding write_blob
append io payload log = write_blob io 1 (frame payload) log

-- `blob += frame(payload)` for each payload.
unfoldable pub frames : List Bytes → Bytes
frames [] = []
frames (payload ∷ payloads) = frame payload ++ frames payloads

unfoldable pub append_batch : Io → List Bytes → Log → Outcome ℕ × Log
unfolding write_blob
append_batch io [] log = (returned log.offset, log)
append_batch io (payload ∷ payloads) log =
    write_blob io (length (payload ∷ payloads)) (frames (payload ∷ payloads)) log

unfoldable pub sync : Bool → Log → Outcome (Unit {0}) × Log
unfolding sync_locked
sync ok log = sync_locked ok tt log

-- `ftruncate` to 0, then `syncFile`, which counts in no statistic here.
unfoldable pub truncate_all : Bool → Bool → Log → Outcome (Unit {0}) × Log
truncate_all truncate_ok sync_ok log =
    if not truncate_ok
    then (threw truncate_failed, log)
    else if not sync_ok
    then (threw fsync_failed, record log { file = [] })
    else (returned tt, record log { file = []; offset = 0 })

-- The compacted file has taken the name of the log, whatever the calls answer. Where the open fails,
-- the log has no descriptor from then on, so that its later writes fail.
unfoldable pub reopen_after_compaction : Bool → Bool → Bytes → Log → Outcome (Unit {0}) × Log
reopen_after_compaction open_ok lseek_ok file log =
    if not open_ok
    then (threw open_failed, record log { file = file })
    else if not lseek_ok
    then (threw lseek_failed, record log { file = file })
    else (returned tt, record log { file = file; offset = length file })
