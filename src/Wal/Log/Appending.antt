-- ===== src/Wal/Log/Appending.antt =====
-- What `append` and `appendBatch` leave in the log file, when they return and when they throw.
use key_value_store.Common.{
  ℕ, ◌+◌, ◌≡◌, refl, sym, ap, ◌∙◌, Bool, true, false, List, [], ◌∷◌, ◌++◌, Bytes, length, take,
  drop, add64, arith, Bool-cases, inl, inr, take_add, take-drop, take_of_length-le,
}
use key_value_store.Wal.Record.{frame}
use key_value_store.Wal.Log.{
  WriteResult, wrote, interrupted, failed, write_all, Io, Log, FsyncMode, always, interval, never,
  Outcome, returned, threw, write_failed, fsync_failed, sync_locked, sync_if_always, write_blob,
  append, append_batch, frames,
}

-- Some first part of the bytes, all of them when the call succeeds.
pub record IsWritten (bytes : Bytes) (result : Bytes × Bool) : Type 0 where
  pub count : ℕ
  pub prefix : result.0 ≡ take count bytes
  pub all : result.1 ≡ true → result.0 ≡ bytes

pub write_all-IsWritten :
    (script : List WriteResult) (bytes : Bytes) → IsWritten bytes (write_all script bytes)
unfolding write_all
write_all-IsWritten [] rest = record {
  count = length rest;
  prefix = sym (take_of_length-le rest (length rest) (omega arith));
  all = λ e. refl;
}
write_all-IsWritten (r ∷ script) [] = record { count = 0; prefix = refl; all = λ e. refl }
write_all-IsWritten (interrupted ∷ script) (b ∷ rest) = write_all-IsWritten script (b ∷ rest)
write_all-IsWritten (failed ∷ script) (b ∷ rest) = record {
  count = 0;
  prefix = refl;
  all = λ e. ground (arith, e);
}
write_all-IsWritten (wrote n ∷ script) (b ∷ rest) =
    let bytes : Bytes = b ∷ rest in
    let w = write_all-IsWritten script (drop n bytes) in
    record {
      count = n + w.count;
      prefix = ap (◌++◌ (take n bytes)) w.prefix ∙ take_add n w.count bytes;
      all = λ e. ap (◌++◌ (take n bytes)) (w.all e) ∙ take-drop n bytes;
    }

-- How an append of records ends, and what it leaves in the log: all of them, or all of them and an
-- exception, or only a first part of their bytes.
pub data IsAppended (blob : Bytes) (log : Log) (result : Outcome ℕ × Log) : Type 0 where
  appended :
      result.0 ≡ returned (add64 log.offset (length blob))
      → result.1.file ≡ log.file ++ blob
      → result.1.offset ≡ add64 log.offset (length blob)
      → IsAppended blob log result
  unsynced :
      result.0 ≡ threw fsync_failed → result.1.file ≡ log.file ++ blob → IsAppended blob log result
  torn :
      (count : ℕ)
      → result.0 ≡ threw write_failed
      → result.1.file ≡ log.file ++ take count blob
      → IsAppended blob log result

sync_if_always_lem :
    (mode : FsyncMode) (ok : Bool) (blob : Bytes) (old log : Log)
    → log.file ≡ old.file ++ blob
    → log.offset ≡ add64 old.offset (length blob)
    → IsAppended blob old (sync_if_always mode ok log)
unfolding sync_if_always sync_locked
sync_if_always_lem always true blob old log file offset = appended (ap returned offset) file offset
sync_if_always_lem always false blob old log file offset = unsynced refl file
sync_if_always_lem interval ok blob old log file offset = appended (ap returned offset) file offset
sync_if_always_lem never ok blob old log file offset = appended (ap returned offset) file offset

pub write_blob-IsAppended :
    (io : Io) (count : ℕ) (blob : Bytes) (log : Log)
    → IsAppended blob log (write_blob io count blob log)
unfolding write_blob
write_blob-IsAppended io count blob log =
    let w = write_all-IsWritten io.writes blob in
    elim (Bool-cases ((write_all io.writes blob).1)) [
      | inr partial ↦ rw partial (torn w.count refl (ap (◌++◌ log.file) w.prefix))
      | inl whole ↦ rw whole (
          sync_if_always_lem log.mode io.sync_ok blob log _ (ap (◌++◌ log.file) (w.all whole)) refl)
    ]

-- `append` returns the new offset with the framed record at the end of the log file, or throws
-- after an `fsync` that failed with the record there, or throws after a `write` that failed with
-- some first part of it there.
pub append-IsAppended :
    (io : Io) (payload : Bytes) (log : Log) → IsAppended (frame payload) log (append io payload log)
unfolding append
append-IsAppended io payload log = write_blob-IsAppended io 1 (frame payload) log

pub append_batch-IsAppended :
    (io : Io) (payload : Bytes) (payloads : List Bytes) (log : Log)
    → IsAppended (frames (payload ∷ payloads)) log (append_batch io (payload ∷ payloads) log)
unfolding append_batch
append_batch-IsAppended io payload payloads log =
    write_blob-IsAppended io (length (payload ∷ payloads)) (frames (payload ∷ payloads)) log
