-- ===== src/Tests/Maps.antt =====
-- Tests of the sharded map.
use key_value_store.Common.{
  ◌^◌, ℕ, ◌<◌, ◌≤◌, ◌≡◌, ◌⊎◌, ◌*◌, refl, arith, [], ◌∷◌, some, length, Bytes, false, find,
}
use key_value_store.Store.ShardedMap.{
  ShardedMap, sharded, new_map, map_get, map_set, apply_atomically, snapshot, map_size,
  round_up_to_power_of_two, eviction_enabled,
}
use key_value_store.Store.ShardedMap.Sizing.{new_map-IsValid, round_up_is_least}
use key_value_store.Store.ShardedMap.Valid.{IsValid, view}
use key_value_store.Store.ShardedMap.Contents.{
  update, view-map_get, map_set-IsValid, view-map_set_self, view-map_set_off,
}
use key_value_store.Store.ShardedMap.Settle.{Commits, apply_atomically-Commits}
use key_value_store.Store.ShardedMap.Snapshot.{snapshot_lem}
use key_value_store.Tests.Samples.{
  length_hash, key, value, other_key, start, bounded, setting, erasing,
}

start-IsValid : IsValid length_hash start
start-IsValid = (new_map-IsValid length_hash sharded 4 0 (omega arith)).0

bounded-IsValid : IsValid length_hash bounded
bounded-IsValid = (new_map-IsValid length_hash sharded 4 1000 (omega arith)).0

abbrev written : ShardedMap
written = map_set length_hash key value bounded

map_set-IsValid_example : IsValid length_hash written
map_set-IsValid_example = map_set-IsValid length_hash key value bounded bounded-IsValid

written-IsValid : IsValid length_hash written
written-IsValid = map_set-IsValid length_hash key value bounded bounded-IsValid

view-map_set_self_example :
    view length_hash (map_set length_hash other_key value written) other_key ≡ some value
view-map_set_self_example = view-map_set_self length_hash other_key value written written-IsValid

start_off : eviction_enabled start ≡ false
unfolding new_map
start_off = refl

view-map_set_off_example :
    view length_hash (map_set length_hash other_key value start) key
    ≡ update other_key (some value) (view length_hash start) key
view-map_set_off_example =
    view-map_set_off length_hash other_key value start start-IsValid start_off key

view-map_get_example :
    ((map_get length_hash key written).0 ≡ view length_hash written key)
    × ((j : Bytes)
        → view length_hash (map_get length_hash key written).1 j ≡ view length_hash written j)
view-map_get_example = view-map_get length_hash key written written-IsValid

apply_atomically-Commits_example :
    Commits length_hash
      (setting ∷ erasing ∷ [])
      written
      (apply_atomically length_hash (setting ∷ erasing ∷ []) written)
apply_atomically-Commits_example =
    apply_atomically-Commits length_hash (setting ∷ erasing ∷ []) written written-IsValid

snapshot_lem_example :
    ((k : Bytes) → find k (snapshot written) ≡ view length_hash written k)
    × (map_size written ≡ length (snapshot written))
snapshot_lem_example = snapshot_lem length_hash written written-IsValid

round_up_is_least_example :
    (e : ℕ) × (round_up_to_power_of_two 5 ≡ 2 ^ e) × (5 ≤ 2 ^ e) × ((e ≡ 0) ⊎ (2 ^ e < 2 * 5))
round_up_is_least_example = round_up_is_least 5 (omega arith)
