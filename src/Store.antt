-- ===== src/Store.antt =====
-- src/store: the map, its eviction policy, the store and its recovery.
pub mod Mutation
pub mod Lru
pub mod Shard
pub mod ShardedMap
pub mod Engine
pub mod Recovery
pub mod Stats
