-- ===== src/Store/ShardedMap/Settle.antt =====
-- `applyAtomically` as a whole, evictions included, and `clear`.
use key_value_store.Common.{
  ltb, ℕ, ◌<◌, ◌≡◌, refl, sym, ap, ◌∙◌, subst, false, List, [], ◌∷◌, Option, Bytes, find, length,
  is_some, arith, inl, inr,
}
use native.Mathlib.Decide.{ℕ_discrete}
use key_value_store.Store.Mutation.{Mutation}
use key_value_store.Store.Shard.{Shard, evict_if_needed}
use key_value_store.Store.Shard.Eviction.{
  Evicts, evict_if_needed-Evicts, evict_if_needed_policy, evict_if_needed_off,
}
use key_value_store.Store.ShardedMap.{
  apply_in_mode, ShardedMap, LockMode, unlocked, global_mutex, global_shared_mutex, sharded,
  is_sharded, shard_at, put_shard, shard_of, eviction_enabled, apply_to_first, apply_to_shards,
  apply_atomically, evict_touched, touched,
}
use key_value_store.Store.ShardedMap.Valid.{
  IsValid, view, shard_of-lt, put_shard-IsValid, view-put_shard_self, view-put_shard_ne,
}
use key_value_store.Store.ShardedMap.Contents.{OrEvicted}
use key_value_store.Store.ShardedMap.Batch.{
  effect, Applied, apply_to_shards-Applied, apply_to_first-Applied,
}

OrEvicted-trans : {a b c : Option Bytes} → OrEvicted a b → OrEvicted b c → OrEvicted a c
OrEvicted-trans (inl p) (inl q) = inl (p ∙ q)
OrEvicted-trans (inl p) (inr q) = inr (p ∙ q)
OrEvicted-trans (inr p) q = inr p

module _ (hash : Bytes → ℕ) where
  -- One shard of a valid map is brought within its budget.
  module _ (i : ℕ) (m : ShardedMap) (v : IsValid hash m) where
    abbrev settled : Shard × ℕ
    settled = evict_if_needed m.shard_budget_bytes (shard_at m i) m.evictions

    settled-Evicts : Evicts m.shard_budget_bytes (shard_at m i).map settled.0
    settled-Evicts =
        evict_if_needed-Evicts m.shard_budget_bytes (shard_at m i) m.evictions (v.tracked i)

    settled-IsValid : IsValid hash (put_shard i settled m)
    settled-IsValid =
        put_shard-IsValid hash i settled.1 settled.0 m v settled-Evicts.tracked
          (evict_if_needed_policy m.shard_budget_bytes (shard_at m i) m.evictions)
          (λ k h. v.placed i k (ground (arith, settled-Evicts.shrinks k)))

    settled-view : (j : Bytes) → OrEvicted (view hash (put_shard i settled m) j) (view hash m j)
    settled-view j = elim (ℕ_discrete (shard_of hash j m) i) [
      | yes e ↦
          let here =
            view-put_shard_self hash j settled m i
              (subst (λ t. t < length m.shards) e (shard_of-lt hash j m v)) e in
          let there = ap (λ (t : ℕ). find j (shard_at m t).map) e in
          subst (OrEvicted (view hash (put_shard i settled m) j)) (sym there) (
            subst (λ x. OrEvicted x (find j (shard_at m i).map)) (sym here)
              (settled-Evicts.shrinks j))
      | no ne ↦ inl (view-put_shard_ne hash j settled m i ne)
    ]

  evict_touched_lem :
      (l : List ℕ) (m : ShardedMap)
      → IsValid hash m
      → IsValid hash (evict_touched l m)
        × ((j : Bytes) → OrEvicted (view hash (evict_touched l m) j) (view hash m j))
        × ((evict_touched l m).max_memory_bytes ≡ m.max_memory_bytes)
  unfolding evict_touched
  evict_touched_lem [] m v = (v, λ j. inl refl, refl)
  evict_touched_lem (i ∷ l) m v =
      let (v', finds, memory) =
        evict_touched_lem l (put_shard i (settled i m v) m) (settled-IsValid i m v) in
      (v', λ j. OrEvicted-trans (finds j) (settled-view i m v j), memory)

  settled-view_off :
      (i : ℕ) (m : ShardedMap) (v : IsValid hash m)
      → eviction_enabled m ≡ false
      → (j : Bytes) → view hash (put_shard i (settled i m v) m) j ≡ view hash m j
  settled-view_off i m v off j = elim (ℕ_discrete (shard_of hash j m) i) [
    | yes e ↦
        let lt = subst (λ (t : ℕ). t < length m.shards) e (shard_of-lt hash j m v) in
        let absent : is_some (shard_at m i).policy ≡ false = v.policies i lt ∙ off in
        let kept = evict_if_needed_off m.shard_budget_bytes (shard_at m i) m.evictions absent in
        view-put_shard_self hash j (settled i m v) m i lt e
        ∙ ap (λ (x : Shard × ℕ). find j x.0.map) kept
        ∙ sym (ap (λ (t : ℕ). find j (shard_at m t).map) e)
    | no ne ↦ view-put_shard_ne hash j (settled i m v) m i ne
  ]

  view-evict_touched_off :
      (l : List ℕ) (m : ShardedMap)
      → IsValid hash m
      → eviction_enabled m ≡ false
      → (j : Bytes) → view hash (evict_touched l m) j ≡ view hash m j
  unfolding evict_touched
  view-evict_touched_off [] m v off j = refl
  view-evict_touched_off (i ∷ l) m v off j =
      view-evict_touched_off l (put_shard i (settled i m v) m) (settled-IsValid i m v) off j
      ∙ settled-view_off i m v off j

  -- The outcome of a batch: a valid map that follows the specification up to evictions, exactly so
  -- with no memory budget.
  pub record Commits (l : List Mutation) (m m' : ShardedMap) : Type 0 where
    pub valid : IsValid hash m'
    pub finds : (j : Bytes) → OrEvicted (view hash m' j) (effect l (view hash m) j)
    pub exact : eviction_enabled m ≡ false → (j : Bytes) → view hash m' j ≡ effect l (view hash m) j
    pub memory : m'.max_memory_bytes ≡ m.max_memory_bytes

  Commits-settled :
      (l : List Mutation) (is : List ℕ) (m m' : ShardedMap)
      → Applied hash l m m'
      → Commits l m (evict_touched is m')
  Commits-settled l is m m' a =
      let (valid, finds, memory) = evict_touched_lem is m' a.valid in
      record {
        valid = valid;
        finds = λ j.
            subst (OrEvicted (view hash (evict_touched is m') j)) (ap (λ f. f j) a.finds) (finds j);
        exact = λ off j.
            view-evict_touched_off is m' a.valid (ap (λ (b : ℕ). ltb 0 b) a.memory ∙ off) j
            ∙ ap (λ f. f j) a.finds;
        memory = memory ∙ a.memory;
      }

  apply_in_mode-Commits :
      (mode : LockMode) (l : List Mutation) (m : ShardedMap)
      → is_sharded mode ≡ is_sharded m.mode
      → IsValid hash m
      → Commits l m (apply_in_mode hash mode l m)
  unfolding apply_in_mode
  apply_in_mode-Commits unlocked l m e v =
      Commits-settled l (0 ∷ []) m (apply_to_first l m) (apply_to_first-Applied hash l m (sym e) v)
  apply_in_mode-Commits global_mutex l m e v =
      Commits-settled l (0 ∷ []) m (apply_to_first l m) (apply_to_first-Applied hash l m (sym e) v)
  apply_in_mode-Commits global_shared_mutex l m e v =
      Commits-settled l (touched hash l m) m (apply_to_shards hash l m)
        (apply_to_shards-Applied hash l m v)
  apply_in_mode-Commits sharded l m e v =
      Commits-settled l (touched hash l m) m (apply_to_shards hash l m)
        (apply_to_shards-Applied hash l m v)

  -- A batch on a valid map leaves a valid map in which each key has what the mutations give it in
  -- order, or is evicted; with no memory budget nothing is evicted.
  pub apply_atomically-Commits :
      (l : List Mutation) (m : ShardedMap)
      → IsValid hash m
      → Commits l m (apply_atomically hash l m)
  unfolding apply_atomically effect
  apply_atomically-Commits [] m v = record {
    valid = v;
    finds = λ j. inl refl;
    exact = λ off j. refl;
    memory = refl;
  }
  apply_atomically-Commits (mu ∷ l) m v = apply_in_mode-Commits m.mode (mu ∷ l) m refl v
