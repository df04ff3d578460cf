-- ===== src/Tests/Compactions.antt =====
-- Tests of the recovery of a compacted log.
use key_value_store.Common.{
  assign, ◌≡◌, refl, true, false, [], ◌∷◌, some, Bytes, All, arith, none, assign,
}
use key_value_store.Store.Shard.{shard_set, shard_put, evict_if_needed}
use key_value_store.Store.ShardedMap.{
  ShardedMap, map_set, snapshot, snapshot_in_mode, all_entries, shard_of, shard_for, new_map,
  sharded, shard_total, round_up_to_power_of_two, round_up_loop, eviction_enabled,
}
use key_value_store.Store.ShardedMap.Sizing.{new_map-IsValid}
use key_value_store.Store.ShardedMap.Valid.{IsValid, view}
use key_value_store.Store.ShardedMap.Contents.{map_set-IsValid}
use key_value_store.Store.Engine.{Store, new_store}
use key_value_store.Store.Engine.Applier.{recover_from_log}
use key_value_store.Store.Recovery.{IsWritable}
use key_value_store.Store.Recovery.Compacted.{puts, recover_from_log-rewrite}
use key_value_store.Wal.Log.{returned, write_all}
use key_value_store.Wal.Replay.Scanning.{AreSmall}
use key_value_store.Wal.Replay.Cut.{Works}
use key_value_store.Wal.Compaction.{CompactionIo, rewrite, rewrite_entries}
use key_value_store.Wal.Compaction.Rewriting.{set_payloads}
use key_value_store.Protocol.Commands.{serialize, blob_bytes, u32_bytes}
use key_value_store.Tests.Samples.{length_hash, key, value, start, replay_io}

abbrev written : ShardedMap
written = map_set length_hash key value start

abbrev working : CompactionIo
working = record { open_ok = true; writes = []; sync_ok = true; rename_ok = true }

abbrev fresh : Store
fresh = new_store sharded 4 0 false

start-IsValid : IsValid length_hash start
start-IsValid = (new_map-IsValid length_hash sharded 4 0 (omega arith)).0

written-IsValid : IsValid length_hash written
written-IsValid = map_set-IsValid length_hash key value start start-IsValid

fresh-IsValid : IsValid length_hash fresh.map
unfolding new_store
fresh-IsValid = start-IsValid

fresh_off : eviction_enabled fresh.map ≡ false
unfolding new_store new_map
fresh_off = refl

fresh_empty : (k : Bytes) → view length_hash fresh.map k ≡ none
unfolding new_store
fresh_empty = (new_map-IsValid length_hash sharded 4 0 (omega arith)).1

one_entry : snapshot written ≡ (key, value) ∷ []
unfolding snapshot snapshot_in_mode all_entries map_set shard_of shard_for shard_set shard_put
    evict_if_needed new_map shard_total round_up_to_power_of_two round_up_loop assign
one_entry = refl

writable : All IsWritable (puts (snapshot written))
writable = rw one_entry ((omega arith, omega arith), tt)

small : AreSmall (set_payloads (snapshot written))
unfolding serialize blob_bytes u32_bytes
small = rw one_entry (omega arith, tt)

compacts : (rewrite working (snapshot written) value).0.ok ≡ true
unfolding rewrite rewrite_entries write_all
compacts = rw one_entry refl

works : Works replay_io
works = record { opens = refl; reads = refl; reopens = refl; truncates = refl; syncs = refl }

recover_from_log-rewrite_example :
    (after : Store) × (recover_from_log length_hash replay_io
        (some (rewrite working (snapshot written) value).1)
        fresh
      ≡ (returned after, some (rewrite working (snapshot written) value).1))
    × ((k : Bytes) → view length_hash after.map k ≡ view length_hash written k)
recover_from_log-rewrite_example =
    recover_from_log-rewrite length_hash written value fresh working replay_io written-IsValid
      fresh-IsValid fresh_off fresh_empty writable small works compacts
