-- ===== src/Tests/Samples.antt =====
-- Inputs that the tests share.
use key_value_store.Common.{ℕ, true, false, [], ◌∷◌, Bytes, codes, length}
use key_value_store.Store.Mutation.{Mutation}
use key_value_store.Store.ShardedMap.{ShardedMap, sharded, new_map}
use key_value_store.Wal.Log.{Io, Log, always, wrote, interrupted}
use key_value_store.Wal.Replay.{ReplayIo}

-- A stand-in for `std::hash`.
abbrev pub length_hash : Bytes → ℕ
length_hash key = length key

abbrev pub key : Bytes
key = codes "k1"

abbrev pub value : Bytes
value = codes "v1"

abbrev pub other_key : Bytes
other_key = codes "k22"

abbrev pub start : ShardedMap
start = new_map sharded 4 0

abbrev pub bounded : ShardedMap
bounded = new_map sharded 4 1000

abbrev pub setting : Mutation
setting = record { erase = false; key = key; value = value }

abbrev pub erasing : Mutation
erasing = record { erase = true; key = other_key; value = [] }

-- A write in two pieces, with a signal between them.
abbrev pub io : Io
io = record { writes = wrote 5 ∷ interrupted ∷ []; sync_ok = true }

abbrev pub replay_io : ReplayIo
replay_io = record {
  open_ok = true;
  read_ok = true;
  reopen_ok = true;
  truncate_ok = true;
  sync_ok = true;
}

abbrev pub empty_log : Log
empty_log = record {
  path = codes "log";
  mode = always;
  file = [];
  offset = 0;
  appends = 0;
  syncs = 0;
  bytes_written = 0;
}
