-- ===== src/Store/ShardedMap.antt =====
-- src/store/sharded_map.cpp. `std::hash<std::string>` is the parameter `hash`. An operation runs
-- under the locks of the shards that it touches, so it is one step here; the cases of the switches
-- on the lock mode differ in the lock that they take, and in the shard that holds a key.
pub mod Sizing
pub mod Valid
pub mod Contents
pub mod Batch
pub mod Settle
pub mod Snapshot
pub mod Distinct
use key_value_store.Common.{
  ℕ, zero, suc, ◌+◌, ◌-◌, ◌*◌, ◌/◌, ◌%◌, ◌^◌, Bool, true, false, ◌&&◌, List, [], ◌∷◌, ◌++◌, Option,
  none, some, Bytes, KeyMap, find, length, get_or, set, replicate, ltb, leb, ◌==◌, if◌then◌else◌,
  is_some, map, codes, bytes_eq, String,
}
use Prim.Native.Nat.{bit_and}
use key_value_store.Store.Mutation.{Mutation}
use key_value_store.Store.Lru.{LruPolicy, new_policy}
use key_value_store.Store.Shard.{
  Shard, evict_if_needed, shard_get, shard_set, shard_del, apply_one, clear_shard,
}

pub data LockMode : Type 0 where
  unlocked global_mutex global_shared_mutex sharded : LockMode

unfoldable pub parse_lock_mode : Bytes → Option LockMode
parse_lock_mode text =
    if bytes_eq text (codes "none")
    then some unlocked
    else if bytes_eq text (codes "global-mutex")
    then some global_mutex
    else if bytes_eq text (codes "global-shared")
    then some global_shared_mutex
    else if bytes_eq text (codes "sharded")
    then some sharded
    else none

unfoldable pub lock_mode_name : LockMode → Bytes
lock_mode_name unlocked = codes "none"
lock_mode_name global_mutex = codes "global-mutex"
lock_mode_name global_shared_mutex = codes "global-shared"
lock_mode_name sharded = codes "sharded"

-- `while (power < n) power <<= 1`, with the rounds left; the shift drops bit 64.
unfoldable pub round_up_loop : ℕ → ℕ → ℕ → ℕ
round_up_loop zero power n = power
round_up_loop (suc fuel) power n = elim (ltb power n) [
  | true ↦ round_up_loop fuel (power * 2 % 2 ^ 64) n
  | false ↦ power
]

-- 63 rounds are enough up to 2 ^ 63; past that the loop of the source does not end.
unfoldable pub round_up_to_power_of_two : ℕ → ℕ
unfolding round_up_loop
round_up_to_power_of_two n = if leb n 1 then 1 else round_up_loop 63 1 n

pub record ShardedMap : Type 0 where
  pub mode : LockMode
  pub shards : List Shard
  pub max_memory_bytes : ℕ
  pub shard_budget_bytes : ℕ
  pub evictions : ℕ

abbrev pub empty_shard : Shard
empty_shard = record { map = []; policy = none }

abbrev pub is_sharded : LockMode → Bool
is_sharded sharded = true
is_sharded unlocked = false
is_sharded global_mutex = false
is_sharded global_shared_mutex = false

unfoldable pub shard_total : LockMode → ℕ → ℕ
shard_total mode shard_count = if is_sharded mode then round_up_to_power_of_two shard_count else 1

unfoldable pub shard_budget : ℕ → ℕ → ℕ
shard_budget max_memory total =
    if max_memory == 0 then 0 else if max_memory / total == 0 then 1 else max_memory / total

-- The constructor.
unfoldable pub new_map : LockMode → ℕ → ℕ → ShardedMap
unfolding shard_total shard_budget
new_map mode shard_count max_memory = record {
  mode = mode;
  shards =
      replicate (shard_total mode shard_count)
        (record { map = []; policy = if max_memory == 0 then none else some new_policy });
  max_memory_bytes = max_memory;
  shard_budget_bytes = shard_budget max_memory (shard_total mode shard_count);
  evictions = 0;
}

abbrev pub eviction_enabled : ShardedMap → Bool
eviction_enabled m = ltb 0 m.max_memory_bytes

-- A shard and the count of evictions are put back.
abbrev pub put_shard : ℕ → Shard × ℕ → ShardedMap → ShardedMap
put_shard i (s, n) m = record m { shards = set m.shards i s; evictions = n }

abbrev pub shard_at : ShardedMap → ℕ → Shard
shard_at m i = get_or m.shards i empty_shard

-- `std::sort`, then `std::unique` with `erase`.
unfoldable pub insert_sorted : ℕ → List ℕ → List ℕ
insert_sorted i [] = i ∷ []
insert_sorted i (j ∷ l) = if leb i j then i ∷ j ∷ l else j ∷ insert_sorted i l

unfoldable pub sort : List ℕ → List ℕ
unfolding insert_sorted
sort [] = []
sort (i ∷ l) = insert_sorted i (sort l)

unfoldable pub unique : List ℕ → List ℕ
unique [] = []
unique (i ∷ []) = i ∷ []
unique (i ∷ j ∷ l) = let rest = unique (j ∷ l) in if i == j then rest else i ∷ rest

-- `for (index : touched) evictIfNeeded(shards_[index])`
unfoldable pub evict_touched : List ℕ → ShardedMap → ShardedMap
evict_touched [] m = m
evict_touched (i ∷ l) m =
    evict_touched l
      (put_shard i (evict_if_needed m.shard_budget_bytes (shard_at m i) m.evictions) m)

unfoldable pub sum_sizes : List Shard → ℕ
sum_sizes [] = 0
sum_sizes (s ∷ l) = length s.map + sum_sizes l

unfoldable pub size_in_mode : LockMode → ShardedMap → ℕ
unfolding sum_sizes
size_in_mode unlocked m = sum_sizes m.shards
size_in_mode global_mutex m = length (shard_at m 0).map
size_in_mode global_shared_mutex m = sum_sizes m.shards
size_in_mode sharded m = sum_sizes m.shards

unfoldable pub map_size : ShardedMap → ℕ
unfolding size_in_mode
map_size m = size_in_mode m.mode m

unfoldable pub policy_bytes : Option LruPolicy → ℕ
policy_bytes none = 0
policy_bytes (some p) = p.bytes

unfoldable pub sum_bytes : List Shard → ℕ
unfolding policy_bytes
sum_bytes [] = 0
sum_bytes (s ∷ l) = policy_bytes s.policy + sum_bytes l

unfoldable pub bytes_in_mode : LockMode → ShardedMap → ℕ
unfolding sum_bytes
bytes_in_mode unlocked m = sum_bytes m.shards
bytes_in_mode global_mutex m = policy_bytes (shard_at m 0).policy
bytes_in_mode global_shared_mutex m = sum_bytes m.shards
bytes_in_mode sharded m = sum_bytes m.shards

unfoldable pub bytes_used : ShardedMap → ℕ
unfolding bytes_in_mode
bytes_used m = if m.max_memory_bytes == 0 then 0 else bytes_in_mode m.mode m

unfoldable pub all_entries : List Shard → KeyMap Bytes
all_entries [] = []
all_entries (s ∷ l) = s.map ++ all_entries l

unfoldable pub snapshot_in_mode : LockMode → ShardedMap → KeyMap Bytes
unfolding all_entries
snapshot_in_mode unlocked m = (shard_at m 0).map
snapshot_in_mode global_mutex m = (shard_at m 0).map
snapshot_in_mode global_shared_mutex m = all_entries m.shards
snapshot_in_mode sharded m = all_entries m.shards

unfoldable pub snapshot : ShardedMap → KeyMap Bytes
unfolding snapshot_in_mode
snapshot m = snapshot_in_mode m.mode m

unfoldable pub clear_in_mode : LockMode → ShardedMap → ShardedMap
clear_in_mode unlocked m = record m { shards = set m.shards 0 (clear_shard (shard_at m 0)) }
clear_in_mode global_mutex m = record m { shards = set m.shards 0 (clear_shard (shard_at m 0)) }
clear_in_mode global_shared_mutex m = record m { shards = map clear_shard m.shards }
clear_in_mode sharded m = record m { shards = map clear_shard m.shards }

unfoldable pub clear : ShardedMap → ShardedMap
unfolding clear_in_mode
clear m = clear_in_mode m.mode m

unfoldable pub apply_mutation : Mutation → ℕ → ShardedMap → ShardedMap
apply_mutation mutation i m = record m {
  shards = set m.shards i (apply_one mutation (shard_at m i));
}

-- In the first two modes every mutation goes to `shards_[0]`.
unfoldable pub apply_to_first : List Mutation → ShardedMap → ShardedMap
unfolding apply_mutation
apply_to_first [] m = m
apply_to_first (mutation ∷ l) m = apply_to_first l (apply_mutation mutation 0 m)

module _ (hash : Bytes → ℕ) where
  unfoldable pub shard_for : Bytes → ShardedMap → ℕ
  shard_for key m = bit_and (hash key) (length m.shards - 1)

  -- The shard that holds a key.
  unfoldable pub shard_of : Bytes → ShardedMap → ℕ
  unfolding shard_for
  shard_of key m = if is_sharded m.mode then shard_for key m else 0

  unfoldable pub map_get : Bytes → ShardedMap → Option Bytes × ShardedMap
  map_get key m =
      let i = shard_of key m in
      let (found, s) = shard_get key (shard_at m i) in (found, put_shard i (s, m.evictions) m)

  unfoldable pub map_set : Bytes → Bytes → ShardedMap → ShardedMap
  map_set key value m =
      let i = shard_of key m in
      put_shard i (shard_set m.shard_budget_bytes key value (shard_at m i) m.evictions) m

  unfoldable pub map_del : Bytes → ShardedMap → Bool × ShardedMap
  map_del key m =
      let i = shard_of key m in
      let (removed, s) = shard_del key (shard_at m i) in (removed, put_shard i (s, m.evictions) m)

  -- `readAll`: a miss is `(false, "")`.
  unfoldable pub get_many : List Bytes → ShardedMap → List (Bool × Bytes) × ShardedMap
  unfolding map_get
  get_many [] m = ([], m)
  get_many (key ∷ keys) m =
      let (found, m') = map_get key m in
      let (results, m'') = get_many keys m' in
      (elim found [ none ↦ (false, []) | some value ↦ (true, value) ] ∷ results, m'')

  unfoldable pub apply_to_shards : List Mutation → ShardedMap → ShardedMap
  unfolding apply_mutation
  apply_to_shards [] m = m
  apply_to_shards (mutation ∷ l) m =
      apply_to_shards l (apply_mutation mutation (shard_for mutation.key m) m)

  unfoldable pub touched : List Mutation → ShardedMap → List ℕ
  unfolding sort unique
  touched mutations m = unique (sort (map (λ mutation. shard_for mutation.key m) mutations))

  unfoldable pub apply_locked : List Mutation → ShardedMap → ShardedMap
  apply_locked mutations m = evict_touched (touched mutations m) (apply_to_shards mutations m)

  unfoldable pub apply_in_mode : LockMode → List Mutation → ShardedMap → ShardedMap
  unfolding apply_locked
  apply_in_mode unlocked mutations m = evict_touched (0 ∷ []) (apply_to_first mutations m)
  apply_in_mode global_mutex mutations m = evict_touched (0 ∷ []) (apply_to_first mutations m)
  apply_in_mode global_shared_mutex mutations m = apply_locked mutations m
  apply_in_mode sharded mutations m = apply_locked mutations m

  unfoldable pub apply_atomically : List Mutation → ShardedMap → ShardedMap
  unfolding apply_in_mode
  apply_atomically [] m = m
  apply_atomically (mutation ∷ l) m = apply_in_mode m.mode (mutation ∷ l) m
