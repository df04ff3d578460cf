-- ===== src/Store/ShardedMap/Snapshot.antt =====
-- `snapshot`, `size` and `clear` against what can be found.
use key_value_store.Common.{
  length-map, ℕ, zero, suc, ◌≡◌, refl, sym, ap, ◌∙◌, subst, true, false, List, [], ◌∷◌, ◌++◌,
  Option, none, some, Bytes, KeyMap, find, length, get_or, set, is_some, arith, map, length-append,
}
use key_value_store.Store.Shard.{Shard, clear_shard}
use key_value_store.Store.Shard.Tracked.{IsTracked, clear_shard-IsTracked}
use key_value_store.Store.ShardedMap.{
  ShardedMap, LockMode, unlocked, global_mutex, global_shared_mutex, sharded, is_sharded,
  empty_shard, shard_at, shard_of, clear, clear_in_mode, snapshot, snapshot_in_mode, all_entries,
  sum_sizes, size_in_mode, map_size,
}
use key_value_store.Store.ShardedMap.Valid.{IsValid, view}

pub find-append :
    (k : Bytes) (a b : KeyMap Bytes)
    → find k (a ++ b) ≡ (elim (find k a) [ none ↦ find k b | some v ↦ some v ])
unfolding find
find-append k [] b = refl
find-append k ((j, v) ∷ a) b = ground (arith, find-append k a b)

pub find-all_none :
    (shards : List Shard) (k : Bytes)
    → ((i : ℕ) → find k (get_or shards i empty_shard).map ≡ none)
    → find k (all_entries shards) ≡ none
unfolding find all_entries
find-all_none [] k h = refl
find-all_none (s ∷ l) k h =
    find-append k s.map (all_entries l) ∙ (ground (arith, h 0, find-all_none l k (λ i. h (suc i))))

pub none_of_not_some : (o : Option Bytes) → (is_some o ≡ true → ⊥) → o ≡ none
none_of_not_some none h = refl
none_of_not_some (some v) h = absurd (h refl)

-- Where one shard alone may hold the key, the concatenation has what that shard has.
find-all_entries :
    (shards : List Shard) (k : Bytes) (t : ℕ)
    → ((i : ℕ) → is_some (find k (get_or shards i empty_shard).map) ≡ true → i ≡ t)
    → find k (all_entries shards) ≡ find k (get_or shards t empty_shard).map
unfolding find all_entries
find-all_entries [] k t h = refl
find-all_entries (s ∷ l) k zero h =
    let others =
      find-all_none l k (λ i. none_of_not_some _ (λ e. absurd (omega (arith, h (suc i) e)))) in
    find-append k s.map (all_entries l) ∙ (ground (arith, others))
find-all_entries (s ∷ l) k (suc t) h =
    let here = none_of_not_some (find k s.map) (λ e. absurd (omega (arith, h 0 e))) in
    find-append k s.map (all_entries l)
    ∙ (ground (arith, here, find-all_entries l k t (λ i e. omega (arith, h (suc i) e))))

length-all_entries : (shards : List Shard) → length (all_entries shards) ≡ sum_sizes shards
unfolding all_entries sum_sizes
length-all_entries [] = refl
length-all_entries (s ∷ l) =
    omega (arith, length-append s.map (all_entries l), length-all_entries l)

sum_sizes_one :
    (shards : List Shard)
    → length shards ≡ 1
    → sum_sizes shards ≡ length (get_or shards 0 empty_shard).map
unfolding sum_sizes
sum_sizes_one [] h = absurd (omega arith)
sum_sizes_one (s ∷ []) h = omega arith
sum_sizes_one (s ∷ t ∷ l) h = absurd (omega arith)

get_or-map :
    (f : Shard → Shard) (xs : List Shard) (i : ℕ) (d : Shard)
    → get_or (map f xs) i (f d) ≡ f (get_or xs i d)
get_or-map f [] i d = refl
get_or-map f (x ∷ xs) zero d = refl
get_or-map f (x ∷ xs) (suc i) d = get_or-map f xs i d

set_only :
    (f : Shard → Shard) (xs : List Shard) (d : Shard)
    → length xs ≡ 1
    → set xs 0 (f (get_or xs 0 d)) ≡ map f xs
set_only f [] d h = absurd (omega arith)
set_only f (x ∷ []) d h = refl
set_only f (x ∷ y ∷ xs) d h = absurd (omega arith)

module _ (hash : Bytes → ℕ) where
  single_home : (k : Bytes) (m : ShardedMap) → is_sharded m.mode ≡ false → shard_of hash k m ≡ 0
  unfolding shard_of
  single_home k m one = rw one refl

  snapshot_single :
      (m : ShardedMap)
      → is_sharded m.mode ≡ false
      → (k : Bytes) → find k (shard_at m 0).map ≡ view hash m k
  snapshot_single m one k = ap (λ (i : ℕ). find k (shard_at m i).map) (sym (single_home k m one))

  snapshot_in_mode_lem :
      (mode : LockMode) (m : ShardedMap)
      → is_sharded mode ≡ is_sharded m.mode
      → IsValid hash m
      → ((k : Bytes) → find k (snapshot_in_mode mode m) ≡ view hash m k)
        × (size_in_mode mode m ≡ length (snapshot_in_mode mode m))
  unfolding snapshot_in_mode size_in_mode
  snapshot_in_mode_lem unlocked m e v =
      (snapshot_single m (sym e), sum_sizes_one m.shards (v.single (sym e)))
  snapshot_in_mode_lem global_mutex m e v = (snapshot_single m (sym e), refl)
  snapshot_in_mode_lem global_shared_mutex m e v = (
    λ k. find-all_entries m.shards k (shard_of hash k m) (λ i h. sym (v.placed i k h)),
    sym (length-all_entries m.shards),
  )
  snapshot_in_mode_lem sharded m e v = (
    λ k. find-all_entries m.shards k (shard_of hash k m) (λ i h. sym (v.placed i k h)),
    sym (length-all_entries m.shards),
  )

  -- A snapshot of a valid map finds what the map finds, and has as many entries as `size` counts.
  pub snapshot_lem :
      (m : ShardedMap)
      → IsValid hash m
      → ((k : Bytes) → find k (snapshot m) ≡ view hash m k) × (map_size m ≡ length (snapshot m))
  unfolding snapshot map_size
  snapshot_lem m v = snapshot_in_mode_lem m.mode m refl v

  module _ (m : ShardedMap) (v : IsValid hash m) where
    abbrev cleared : ShardedMap
    cleared = record m { shards = map clear_shard m.shards }

    cleared_at : (i : ℕ) → shard_at cleared i ≡ clear_shard (shard_at m i)
    unfolding clear_shard
    cleared_at i = get_or-map clear_shard m.shards i empty_shard

    find-cleared : (i : ℕ) (k : Bytes) → find k (shard_at cleared i).map ≡ none
    unfolding clear_shard find
    find-cleared i k = ap (λ (s : Shard). find k s.map) (cleared_at i)

    cleared-IsValid : IsValid hash cleared × ((k : Bytes) → view hash cleared k ≡ none)
    unfolding clear_shard
    cleared-IsValid = (
      record {
        exponent = v.exponent;
        count = length-map m.shards clear_shard ∙ v.count;
        single = λ one. length-map m.shards clear_shard ∙ v.single one;
        tracked = λ i.
            subst IsTracked (sym (cleared_at i))
              (clear_shard-IsTracked (shard_at m i) (v.tracked i));
        policies = λ i lt.
            ap (λ (s : Shard). is_some s.policy) (cleared_at i)
            ∙ (ground (arith, v.policies i (omega (arith, length-map m.shards clear_shard, lt))));
        placed = λ i k h. absurd (cc (h, find-cleared i k));
      },
      λ k. find-cleared (shard_of hash k cleared) k,
    )

    clear_in_mode-map :
        (mode : LockMode) → is_sharded mode ≡ is_sharded m.mode → clear_in_mode mode m ≡ cleared
    unfolding clear_in_mode
    clear_in_mode-map unlocked e =
        ap (λ l. record m { shards = l })
          (set_only clear_shard m.shards empty_shard (v.single (sym e)))
    clear_in_mode-map global_mutex e =
        ap (λ l. record m { shards = l })
          (set_only clear_shard m.shards empty_shard (v.single (sym e)))
    clear_in_mode-map global_shared_mutex e = refl
    clear_in_mode-map sharded e = refl

    -- `clear` leaves a valid map in which nothing is found.
    pub clear-IsValid : IsValid hash (clear m) × ((k : Bytes) → view hash (clear m) k ≡ none)
    unfolding clear
    clear-IsValid =
        subst (λ c. IsValid hash c × ((k : Bytes) → view hash c k ≡ none))
          (sym (clear_in_mode-map m.mode refl)) cleared-IsValid
