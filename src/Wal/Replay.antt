-- ===== src/Wal/Replay.antt =====
-- `WriteAheadLog::replay` of src/wal/wal.cpp. The handler of a record is a function on a state; the
-- loop that reads the file in chunks ends with the whole file, or throws.
pub mod Scanning
pub mod Cut
pub mod Ends
use key_value_store.Common.{
  ℕ, zero, suc, ◌+◌, Bool, true, false, ◌||◌, List, [], ◌∷◌, Option, none, some, Bytes, length,
  take, if◌then◌else◌, not, ltb,
}
use key_value_store.Wal.Record.{ParseResult, parsed, incomplete, corrupt, parse_record}
use key_value_store.Wal.Log.{
  Outcome, returned, threw, LogError, open_failed, read_failed, truncate_failed, fsync_failed,
}

pub record ReplayResult : Type 0 where
  pub records_applied : ℕ
  pub bytes_consumed : ℕ
  pub file_bytes : ℕ
  pub truncated : Bool
  pub saw_corruption : Bool
  pub saw_unknown_record : Bool

abbrev pub no_replay : ReplayResult
no_replay = record {
  records_applied = 0;
  bytes_consumed = 0;
  file_bytes = 0;
  truncated = false;
  saw_corruption = false;
  saw_unknown_record = false;
}

pub record ReplayIo : Type 0 where
  pub open_ok : Bool
  pub read_ok : Bool
  pub reopen_ok : Bool
  pub truncate_ok : Bool
  pub sync_ok : Bool

-- What is after the loop: the damaged end is cut off.
unfoldable pub repair : ReplayIo → Bytes → ReplayResult → Outcome ReplayResult × Bytes
repair io buffer result =
    if not (result.truncated || result.saw_unknown_record)
    then (returned result, buffer)
    else if not io.reopen_ok
    then (threw open_failed, buffer)
    else if not io.truncate_ok
    then (threw truncate_failed, buffer)
    else if not io.sync_ok
    then (threw fsync_failed, take result.bytes_consumed buffer)
    else (returned result, take result.bytes_consumed buffer)

module _ {ℓ} {S : Type ℓ} (on_record : Bytes → S → Bool × S) where
  -- One round of the loop: the result and the state, and where to go on, if the loop does.
  unfoldable pub replay_round : Bytes → ℕ → ReplayResult → S → ReplayResult × S × Option ℕ
  replay_round buffer offset result s = elim (parse_record buffer offset) [
    | incomplete ↦ (record result { truncated = true }, s, none)
    | corrupt ↦ (record result { truncated = true; saw_corruption = true }, s, none)
    | parsed payload next ↦
        let (known, s') = on_record payload s in
        if known
        then (record result { records_applied = suc result.records_applied }, s', some next)
        else (record result { saw_unknown_record = true }, s', none)
  ]

  -- The loop, with the rounds left; the offset at its end goes into `bytesConsumed`.
  unfoldable pub replay_loop : ℕ → Bytes → ℕ → ReplayResult → S → ReplayResult × S
  unfolding replay_round
  replay_loop zero buffer offset result s = (record result { bytes_consumed = offset }, s)
  replay_loop (suc fuel) buffer offset result s = elim (ltb offset (length buffer)) [
    | false ↦ (record result { bytes_consumed = offset }, s)
    | true ↦
        let (result', s', next) = replay_round buffer offset result s in
        elim next [
          | none ↦ (record result' { bytes_consumed = offset }, s')
          | some offset' ↦ replay_loop fuel buffer offset' result' s'
        ]
  ]

  -- A round that goes on takes a header at least, so the size of the file is enough rounds.
  unfoldable pub scan : Bytes → S → ReplayResult × S
  scan buffer s =
      replay_loop (suc (length buffer)) buffer 0 (record no_replay { file_bytes = length buffer }) s

  -- A missing file (`ENOENT`) is `none`.
  unfoldable pub replay : ReplayIo → Option Bytes → S → Outcome ReplayResult × S × Option Bytes
  replay io none s = (returned no_replay, s, none)
  replay io (some buffer) s =
      if not io.open_ok
      then (threw open_failed, s, some buffer)
      else if not io.read_ok
      then (threw read_failed, s, some buffer)
      else let (result, s') = scan buffer s in
        let (outcome, file) = repair io buffer result in (outcome, s', some file)
