-- ===== src/Store/ShardedMap/Distinct.antt =====
-- A snapshot has no key twice.
use key_value_store.Common.{
  ℕ, suc, ◌+◌, ◌≡◌, ◌∙◌, true, List, [], ◌∷◌, ◌++◌, none, Bytes, KeyMap, find, get_or, is_some,
  arith, IsDistinct, bytes_eq_iff,
}
use key_value_store.Store.Shard.{Shard}
use key_value_store.Store.ShardedMap.{
  ShardedMap, LockMode, unlocked, global_mutex, global_shared_mutex, sharded, empty_shard, shard_of,
  snapshot, snapshot_in_mode, all_entries,
}
use key_value_store.Store.ShardedMap.Valid.{IsValid}
use key_value_store.Store.ShardedMap.Snapshot.{find-append, find-all_none, none_of_not_some}

IsDistinct-append :
    (a b : KeyMap Bytes)
    → IsDistinct a
    → IsDistinct b
    → ((k : Bytes) → is_some (find k a) ≡ true → find k b ≡ none)
    → IsDistinct (a ++ b)
unfolding find
IsDistinct-append [] b da db apart = db
IsDistinct-append ((j, v) ∷ a) b (fresh, da) db apart = (
  find-append j a b ∙ (ground (arith, fresh, apart j, bytes_eq_iff j j)),
  IsDistinct-append a b da db (λ k h. apart k (ground (arith, h))),
)

-- Each shard has its own keys, `home` naming the shard of a key.
IsDistinct-all_entries :
    (home : Bytes → ℕ) (shards : List Shard) (first : ℕ)
    → ((i : ℕ) → IsDistinct (get_or shards i empty_shard).map)
    → ((i : ℕ) (k : Bytes)
        → is_some (find k (get_or shards i empty_shard).map) ≡ true
        → home k ≡ first + i)
    → IsDistinct (all_entries shards)
unfolding all_entries
IsDistinct-all_entries home [] first distinct placed = tt
IsDistinct-all_entries home (s ∷ l) first distinct placed =
    IsDistinct-append s.map (all_entries l) (distinct 0)
      (IsDistinct-all_entries home l (suc first) (λ i. distinct (suc i))
        (λ i k h. omega (arith, placed (suc i) k h)))
      (λ k h.
        find-all_none l k
          (λ i. none_of_not_some _ (λ e. absurd (omega (arith, placed 0 k h, placed (suc i) k e)))))

module _ (hash : Bytes → ℕ) where
  IsDistinct-snapshot_in_mode :
      (mode : LockMode) (m : ShardedMap) → IsValid hash m → IsDistinct (snapshot_in_mode mode m)
  unfolding snapshot_in_mode
  IsDistinct-snapshot_in_mode unlocked m v = (v.tracked 0).distinct
  IsDistinct-snapshot_in_mode global_mutex m v = (v.tracked 0).distinct
  IsDistinct-snapshot_in_mode global_shared_mutex m v =
      IsDistinct-all_entries (λ k. shard_of hash k m) m.shards 0 (λ i. (v.tracked i).distinct)
        (λ i k h. omega (arith, v.placed i k h))
  IsDistinct-snapshot_in_mode sharded m v =
      IsDistinct-all_entries (λ k. shard_of hash k m) m.shards 0 (λ i. (v.tracked i).distinct)
        (λ i k h. omega (arith, v.placed i k h))

  pub IsDistinct-snapshot : (m : ShardedMap) → IsValid hash m → IsDistinct (snapshot m)
  unfolding snapshot
  IsDistinct-snapshot m v = IsDistinct-snapshot_in_mode m.mode m v
