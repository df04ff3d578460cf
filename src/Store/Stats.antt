-- ===== src/Store/Stats.antt =====
-- src/store/store.cpp: `statsLine`. What the replicator's own `statsLine` gives is an argument.
use key_value_store.Common.{ℕ, ◌++◌, Option, none, some, Bytes, length, codes, to_string}
use key_value_store.Store.ShardedMap.{lock_mode_name, map_size, bytes_used}
use key_value_store.Store.Engine.{Store}
use key_value_store.Wal.Log.{Log, fsync_mode_name}

-- A field of a statistics line: its name with `=`, and a number.
unfoldable pub counted : Bytes → ℕ → Bytes
counted name n = name ++ to_string n

unfoldable pub log_stats : Option Log → ℕ → Bytes
unfolding counted
log_stats none recovered = codes " log=off"
log_stats (some log) recovered =
    codes " log="
    ++ (fsync_mode_name log.mode
        ++ (counted (codes " log_appends=") log.appends
            ++ (counted (codes " log_syncs=") log.syncs
                ++ (counted (codes " log_bytes=") log.bytes_written
                    ++ counted (codes " recovered=") recovered))))

unfoldable pub map_stats : Store → Bytes
unfolding counted
map_stats s =
    counted (codes "hits=") s.hits
    ++ (counted (codes " misses=") s.misses
        ++ (counted (codes " writes=") s.writes
            ++ (counted (codes " evictions=") s.map.evictions
                ++ (counted (codes " keys=") (map_size s.map)
                    ++ (counted (codes " bytes=") (bytes_used s.map)
                        ++ (counted (codes " limit=") s.map.max_memory_bytes
                            ++ (counted (codes " shards=") (length s.map.shards)
                                ++ (codes " lock=" ++ lock_mode_name s.map.mode))))))))

unfoldable pub replicator_stats : Store → Bytes → Bytes
replicator_stats s line = elim s.replicator [
  | none ↦ codes " repl=off"
  | some calls ↦ codes " " ++ line
]

unfoldable pub stats_line : Bytes → Store → Bytes
unfolding map_stats log_stats counted replicator_stats
stats_line line s =
    map_stats s
    ++ (counted (codes " txn_commits=") s.txn_committed
        ++ (counted (codes " txn_rollbacks=") s.txn_rolled_back
            ++ (log_stats s.log s.recovery.records_applied ++ replicator_stats s line)))
