-- ===== src/Store/ShardedMap/Batch.antt =====
-- `applyAtomically` and `clear`: a batch has the effect of its mutations in order.
use key_value_store.Common.{
  fun_ext, ℕ, ◌≡◌, refl, ap, ◌∙◌, subst, false, List, [], ◌∷◌, Option, none, some, Bytes, find,
  if◌then◌else◌, is_some, arith, Bool-cases, inl, inr, find-assign, find-erase,
}
use key_value_store.Store.Mutation.{Mutation}
use key_value_store.Store.Shard.{Shard, apply_one, shard_put, shard_del}
use key_value_store.Store.Shard.Tracked.{apply_one-IsTracked}
use key_value_store.Store.ShardedMap.{
  ShardedMap, is_sharded, shard_at, shard_of, shard_for, apply_mutation, apply_to_first,
  apply_to_shards,
}
use key_value_store.Store.ShardedMap.Valid.{IsValid, view, shard_for-mod, put_shard-IsValid}
use key_value_store.Store.ShardedMap.Contents.{update, view-put_shard, home_of}

abbrev pub written_value : Mutation → Option Bytes
written_value mu = if mu.erase then none else some mu.value

-- What a batch means: its mutations one after the other.
unfoldable pub effect : List Mutation → (Bytes → Option Bytes) → Bytes → Option Bytes
effect [] f = f
effect (mu ∷ l) f = effect l (update mu.key (written_value mu) f)

find-apply_one :
    (mu : Mutation) (s : Shard) (j : Bytes)
    → find j (apply_one mu s).map ≡ update mu.key (written_value mu) (λ i. find i s.map) j
unfolding apply_one shard_put shard_del
find-apply_one mu s j = elim (Bool-cases mu.erase) [
  | inl e ↦ rw (e, apply_one) (find-erase mu.key j s.map)
  | inr e ↦ rw (e, apply_one) (find-assign mu.key j mu.value s.map)
]

apply_one_policy : (mu : Mutation) (s : Shard) → is_some (apply_one mu s).policy ≡ is_some s.policy
unfolding apply_one shard_put shard_del
apply_one_policy mu s = ground arith

module _ (hash : Bytes → ℕ) where
  -- The mode that does not shard has one shard, and every key is in it.
  shard_for-shard_of :
      (k : Bytes) (m : ShardedMap) → IsValid hash m → shard_for hash k m ≡ shard_of hash k m
  unfolding shard_of
  shard_for-shard_of k m v = elim (Bool-cases (is_sharded m.mode)) [
    | inl many ↦ rw (many, shard_of) refl
    | inr one ↦
        let e = v.single one in
        rw (one, shard_of) (shard_for-mod hash k m v.exponent v.count ∙ (rw e (omega arith)))
  ]

  module _ (mu : Mutation) (m : ShardedMap) (v : IsValid hash m) where
    abbrev after : ShardedMap
    after = apply_mutation mu (shard_of hash mu.key m) m

    after-view : (j : Bytes) → view hash after j ≡ update mu.key (written_value mu) (view hash m) j
    unfolding apply_mutation
    after-view =
        view-put_shard hash ◌≡◌ (λ x. refl) mu.key (written_value mu) m.evictions
          (apply_one mu (shard_at m (shard_of hash mu.key m))) m v
          (find-apply_one mu (shard_at m (shard_of hash mu.key m)))

    after-IsValid : IsValid hash after
    unfolding apply_mutation
    after-IsValid =
        let s = shard_at m (shard_of hash mu.key m) in
        put_shard-IsValid hash (shard_of hash mu.key m) m.evictions (apply_one mu s) m v
          (apply_one-IsTracked mu s (v.tracked (shard_of hash mu.key m))) (apply_one_policy mu s)
          (home_of hash mu.key (apply_one mu s) m v
            (λ j h o. ground (arith, find-apply_one mu s j)))

  -- What the mutations of a batch leave, before any eviction.
  pub record Applied (l : List Mutation) (m m' : ShardedMap) : Type 0 where
    pub valid : IsValid hash m'
    pub finds : view hash m' ≡ effect l (view hash m)
    pub mode : m'.mode ≡ m.mode
    pub memory : m'.max_memory_bytes ≡ m.max_memory_bytes

  Applied-cons :
      (mu : Mutation) (l : List Mutation) (m m' : ShardedMap) (v : IsValid hash m)
      → Applied l (apply_mutation mu (shard_of hash mu.key m) m) m'
      → Applied (mu ∷ l) m m'
  unfolding effect apply_mutation
  Applied-cons mu l m m' v a = record {
    valid = a.valid;
    finds = a.finds ∙ ap (effect l) (fun_ext (after-view mu m v));
    mode = a.mode;
    memory = a.memory;
  }

  pub apply_to_shards-Applied :
      (l : List Mutation) (m : ShardedMap) → IsValid hash m → Applied l m (apply_to_shards hash l m)
  unfolding apply_to_shards effect
  apply_to_shards-Applied [] m v = record { valid = v; finds = refl; mode = refl; memory = refl }
  apply_to_shards-Applied (mu ∷ l) m v =
      rw (shard_for-shard_of mu.key m v)
        (Applied-cons mu l m _ v (apply_to_shards-Applied l (after mu m v) (after-IsValid mu m v)))

  pub apply_to_first-Applied :
      (l : List Mutation) (m : ShardedMap)
      → is_sharded m.mode ≡ false
      → IsValid hash m
      → Applied l m (apply_to_first l m)
  unfolding apply_to_first effect
  apply_to_first-Applied [] m one v = record { valid = v; finds = refl; mode = refl; memory = refl }
  apply_to_first-Applied (mu ∷ l) m one v =
      let first : shard_of hash mu.key m ≡ 0 = unfold shard_of in rw one refl in
      subst (λ (i : ℕ). Applied (mu ∷ l) m (apply_to_first l (apply_mutation mu i m))) first
        (Applied-cons mu l m _ v (
          apply_to_first-Applied l (after mu m v) (unfold apply_mutation in one)
            (after-IsValid mu m v)))
