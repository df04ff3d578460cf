-- ===== src/Tests/Policies.antt =====
-- Tests of the recency policy and of a shard.
use key_value_store.Common.{assign, bytes_eq, ◌<◌, refl, arith, [], ◌∷◌, List, some, find}
use key_value_store.Store.Lru.{LruPolicy, new_policy, on_insert, evict, entries}
use key_value_store.Store.Lru.Invariant.{
  IsConsistent, new_policy-IsConsistent, on_insert-IsConsistent,
}
use key_value_store.Store.Lru.Usage.{
  PolicyCall, accesses, inserts, policy_after, EvictsOldest, evict-EvictsOldest,
}
use key_value_store.Store.Shard.{Shard, evict_if_needed}
use key_value_store.Store.Shard.Tracked.{IsTracked}
use key_value_store.Store.Shard.Eviction.{Evicts, evict_if_needed-Evicts}
use key_value_store.Tests.Samples.{key, other_key}

abbrev one_entry : LruPolicy
one_entry = on_insert key 200 new_policy

abbrev two_entries : LruPolicy
two_entries = on_insert other_key 300 one_entry

one_entry-IsConsistent : IsConsistent one_entry
one_entry-IsConsistent = on_insert-IsConsistent key 200 new_policy new_policy-IsConsistent

two_entries-IsConsistent : IsConsistent two_entries
two_entries-IsConsistent = on_insert-IsConsistent other_key 300 one_entry one_entry-IsConsistent

-- The latest call first: the first key is read behind the second one.
abbrev history : List PolicyCall
history = accesses key ∷ inserts other_key 300 ∷ inserts key 200 ∷ []

evict-EvictsOldest_example :
    EvictsOldest history (policy_after history) (evict (policy_after history))
evict-EvictsOldest_example = evict-EvictsOldest history

two_held : 0 < entries two_entries
unfolding entries on_insert find assign bytes_eq
two_held = omega arith

abbrev shard : Shard
shard = record { map = []; policy = some new_policy }

shard-IsTracked : IsTracked shard
unfolding find
shard-IsTracked = record { tracks = (new_policy-IsConsistent, λ k. refl); distinct = tt }

evict_if_needed-Evicts_example : Evicts 100 shard.map (evict_if_needed 100 shard 0).0
evict_if_needed-Evicts_example = evict_if_needed-Evicts 100 shard 0 shard-IsTracked
