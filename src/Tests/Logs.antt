-- ===== src/Tests/Logs.antt =====
-- Tests of the log and of the commands in it.
use key_value_store.Wal.Replay.{no_replay, replay_loop, scan}
use key_value_store.Wal.Replay.Ends.{scan-enough}
use key_value_store.Wal.Compaction.{CompactionIo, rewrite}
use key_value_store.Wal.Compaction.Rewriting.{Rewrites, rewrite-Rewrites}
use key_value_store.Wal.Log.{wrote, failed}
use key_value_store.Common.{
  suc, KeyMap, ℕ, ◌-◌, Bool, ◌+◌, ◌≡◌, refl, arith, [], ◌∷◌, ◌++◌, some, take, length, Bytes,
  replicate, length-replicate, true, List,
}
use key_value_store.Wal.Record.{little_endian32, frame, parse_record, parsed, incomplete}
use key_value_store.Wal.Record.Framing.{parse_record-frame, parse_record_torn, length-frame}
use key_value_store.Wal.Log.{append, frames, returned}
use key_value_store.Wal.Log.Appending.{IsAppended, append-IsAppended}
use key_value_store.Wal.Replay.{replay}
use key_value_store.Wal.Replay.Scanning.{handle_all, cut_result}
use key_value_store.Wal.Replay.Cut.{whole_in, Works, replay-cut}
use key_value_store.Protocol.Commands.{set_command, serialize, deserialize_command}
use key_value_store.Protocol.Commands.RoundTrip.{deserialize_command-serialize}
use key_value_store.Tests.Samples.{other_key, key, value, io, replay_io, empty_log}

parse_record-frame_example :
    parse_record (value ++ (frame key ++ value)) (length value)
    ≡ parsed key (length value + (8 + length key))
parse_record-frame_example = parse_record-frame value key value (omega arith)

parse_record_torn_example : parse_record (value ++ take 9 (frame key)) (length value) ≡ incomplete
parse_record_torn_example =
    parse_record_torn value key 9 (omega arith) (omega (arith, length-frame key))

append-IsAppended_example : IsAppended (frame key) empty_log (append io key empty_log)
append-IsAppended_example = append-IsAppended io key empty_log

deserialize_command-serialize_example :
    deserialize_command (serialize (set_command key value)) ≡ some (set_command key value)
deserialize_command-serialize_example =
    deserialize_command-serialize (set_command key value) (omega arith, omega arith)

-- A handler that keeps the payloads, newest first.
abbrev keep : Bytes → List Bytes → Bool × List Bytes
keep payload kept = (true, payload ∷ kept)

works : Works replay_io
works = record { opens = refl; reads = refl; reopens = refl; truncates = refl; syncs = refl }

abbrev two_records : List Bytes
two_records = key ∷ value ∷ []

handled : handle_all keep (take (whole_in 12 two_records) two_records) [] ≡ some (key ∷ [])
unfolding handle_all whole_in frame little_endian32
handled = refl

-- The cut is in the second record.
replay-cut_example : replay keep replay_io (some (take 12 (frames two_records))) [] ≡ (
  returned (
      cut_result (take (whole_in 12 two_records) two_records) (
        length (take 12 (frames two_records))
        - length (frames (take (whole_in 12 two_records) two_records)))),
  key ∷ [],
  some (frames (take (whole_in 12 two_records) two_records)),
)
replay-cut_example =
    replay-cut keep 12 two_records replay_io [] (key ∷ []) (omega arith, (omega arith, tt)) works
      handled

unfoldable long : ℕ → Bytes
long n = replicate n b'x'

length-long : (n : ℕ) → length (long n) ≡ n
unfolding long
length-long n = length-replicate n b'x'

-- The disk is full at the second entry.
abbrev compaction_io : CompactionIo
compaction_io = record {
  open_ok = true;
  writes = [] ∷ (wrote 3 ∷ failed ∷ []) ∷ [];
  sync_ok = true;
  rename_ok = true;
}

abbrev two_entries : KeyMap Bytes
two_entries = (key, value) ∷ (other_key, value) ∷ []

rewrite-Rewrites_example : Rewrites two_entries value (rewrite compaction_io two_entries value)
rewrite-Rewrites_example = rewrite-Rewrites compaction_io two_entries value

-- A file of five bytes that are no record.
scan-enough_example :
    replay_loop keep
      (suc (length (value ++ other_key)) + 9)
      (value ++ other_key)
      0
      (record no_replay { file_bytes = length (value ++ other_key) })
      []
    ≡ scan keep (value ++ other_key) []
scan-enough_example = scan-enough keep 9 (value ++ other_key) []
