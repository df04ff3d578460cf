-- ===== src/Store/Shard.antt =====
-- One shard of src/store/sharded_map.cpp: a hash map, and an eviction policy if there is a memory
-- budget. What the code does to the one shard that it holds the lock of is a function here.
pub mod Eviction
pub mod Tracked
use key_value_store.Common.{
  ℕ, zero, suc, ◌+◌, Bool, true, false, ◌&&◌, List, [], ◌∷◌, Option, none, some, Bytes, KeyMap,
  find, assign, erase, length, ltb, if◌then◌else◌, add64, is_some,
}
use key_value_store.Store.Mutation.{Mutation}
use key_value_store.Store.Lru
use key_value_store.Store.Lru.{LruPolicy, on_access, on_insert, on_erase, evict, entries}
use mathlib.Core.Option

abbrev pub entry_overhead_bytes : ℕ
entry_overhead_bytes = 192

pub record Shard : Type 0 where
  pub map : KeyMap Bytes
  pub policy : Option LruPolicy

-- `entryBytes`; sizes of strings in memory do not add up to 2 ^ 64.
abbrev pub entry_bytes : Bytes → Bytes → ℕ
entry_bytes key value = length key + length value + entry_overhead_bytes

-- `if (shard.policy) { … }`
abbrev pub with_policy : (LruPolicy → LruPolicy) → Option LruPolicy → Option LruPolicy
with_policy f none = none
with_policy f (some p) = some (f p)

-- The test of the loop of `evictIfNeeded`.
unfoldable pub over_budget : ℕ → LruPolicy → Bool
over_budget budget p = ltb budget p.bytes && ltb 1 (entries p)

-- The loop, with the rounds that are left, over the map, the policy and the count of evictions.
unfoldable pub evict_loop : ℕ → ℕ → KeyMap Bytes → LruPolicy → ℕ → Shard × ℕ
unfolding over_budget
evict_loop zero budget map p n = (record { map = map; policy = some p }, n)
evict_loop (suc fuel) budget map p n = elim (over_budget budget p) [
  | false ↦ (record { map = map; policy = some p }, n)
  | true ↦ elim (evict p) [
    | none ↦ (record { map = map; policy = some p }, n)
    | some (victim, q) ↦ evict_loop fuel budget (erase victim map) q (add64 n 1)
  ]
]

-- Every round takes one entry of the policy away, so the number of entries is enough rounds.
unfoldable pub evict_if_needed : ℕ → Shard → ℕ → Shard × ℕ
unfolding evict_loop
evict_if_needed budget s n = elim s.policy [
  | none ↦ (s, n)
  | some p ↦ evict_loop (entries p) budget s.map p n
]

-- A read: the value, and the shard with the key most recently used.
unfoldable pub shard_get : Bytes → Shard → Option Bytes × Shard
shard_get key s = elim (find key s.map) [
  | none ↦ (none, s)
  | some value ↦ (some value, record s { policy = with_policy (on_access key) s.policy })
]

-- The write of `set` and of `applyOne`, before any eviction.
unfoldable pub shard_put : Bytes → Bytes → Shard → Shard
shard_put key value s = record {
  map = assign key value s.map;
  policy = with_policy (on_insert key (entry_bytes key value)) s.policy;
}

unfoldable pub shard_set : ℕ → Bytes → Bytes → Shard → ℕ → Shard × ℕ
shard_set budget key value s n = evict_if_needed budget (shard_put key value s) n

-- What `erase` leaves, and whether the key was there.
unfoldable pub shard_del : Bytes → Shard → Bool × Shard
shard_del key s = (
  is_some (find key s.map),
  record { map = erase key s.map; policy = with_policy (on_erase key) s.policy },
)

-- `applyOne`
unfoldable pub apply_one : Mutation → Shard → Shard
unfolding shard_put shard_del
apply_one m s = if m.erase then (shard_del m.key s).1 else shard_put m.key m.value s

-- `for (pair : shard.map) shard.policy->onErase(pair.first)`
unfoldable pub erase_all : KeyMap Bytes → LruPolicy → LruPolicy
erase_all [] p = p
erase_all ((k, v) ∷ m) p = erase_all m (on_erase k p)

unfoldable pub clear_shard : Shard → Shard
unfolding erase_all
clear_shard s = record { map = []; policy = with_policy (erase_all s.map) s.policy }
