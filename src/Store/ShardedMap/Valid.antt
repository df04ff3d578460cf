-- ===== src/Store/ShardedMap/Valid.antt =====
-- The invariant of the map: a power of two of shards, each with its policy, and every key in the
-- shard that its hash names.
use key_value_store.Common.{
  get_or-set_cases, ℕ, ◌%◌, ◌^◌, ◌<◌, ◌≡◌, ◌≢◌, refl, sym, ap, ◌∙◌, subst, true, false, Option,
  Bytes, find, length, is_some, arith, bit_and_mask, Bool-cases, inl, inr, length-set,
  get_or-set_self, get_or-set_ne,
}
use native.Mathlib.Nat.{one-le-pow}
use key_value_store.Store.Shard.{Shard}
use key_value_store.Store.Shard.Tracked.{IsTracked}
use key_value_store.Store.ShardedMap.{
  ShardedMap, is_sharded, empty_shard, shard_at, put_shard, shard_for, shard_of, eviction_enabled,
}

module _ (hash : Bytes → ℕ) where
  pub record IsValid (m : ShardedMap) : Type 0 where
    pub exponent : ℕ
    pub count : length m.shards ≡ 2 ^ exponent
    pub single : is_sharded m.mode ≡ false → length m.shards ≡ 1
    pub tracked : (i : ℕ) → IsTracked (shard_at m i)
    pub policies :
        (i : ℕ) → i < length m.shards → is_some (shard_at m i).policy ≡ eviction_enabled m
    pub placed :
        (i : ℕ) (k : Bytes) → is_some (find k (shard_at m i).map) ≡ true → shard_of hash k m ≡ i

  -- What a client can find in the map.
  abbrev pub view : ShardedMap → Bytes → Option Bytes
  view m k = find k (shard_at m (shard_of hash k m)).map

  -- With a power of two of shards the mask of `shardFor` is the remainder of the hash by their
  -- number.
  pub shard_for-mod :
      (k : Bytes) (m : ShardedMap) (e : ℕ)
      → length m.shards ≡ 2 ^ e
      → shard_for hash k m ≡ hash k % length m.shards
  unfolding shard_for
  shard_for-mod k m e h = rw h (bit_and_mask e (hash k))

  pub shard_of-lt : (k : Bytes) (m : ShardedMap) → IsValid m → shard_of hash k m < length m.shards
  unfolding shard_of
  shard_of-lt k m v = elim (Bool-cases (is_sharded m.mode)) [
    | inl many ↦
        rw (many, shard_of)
          (omega (arith, shard_for-mod k m v.exponent v.count, v.count, one-le-pow v.exponent 2))
    | inr one ↦ rw (one, shard_of) (omega (arith, v.single one))
  ]

  pub shard_of-put_shard :
      (k : Bytes) (i : ℕ) (x : Shard × ℕ) (m : ShardedMap)
      → shard_of hash k (put_shard i x m) ≡ shard_of hash k m
  unfolding shard_of shard_for
  shard_of-put_shard k i x m = rw (length-set m.shards i x.0) refl

  pub view-put_shard_self :
      (k : Bytes) (x : Shard × ℕ) (m : ShardedMap) (i : ℕ)
      → i < length m.shards
      → shard_of hash k m ≡ i
      → view (put_shard i x m) k ≡ find k x.0.map
  view-put_shard_self k x m i lt e =
      rw (shard_of-put_shard k i x m, e, get_or-set_self m.shards i x.0 empty_shard lt) refl

  pub view-put_shard_ne :
      (k : Bytes) (x : Shard × ℕ) (m : ShardedMap) (i : ℕ)
      → shard_of hash k m ≢ i
      → view (put_shard i x m) k ≡ view m k
  view-put_shard_ne k x m i ne =
      rw
        (
          shard_of-put_shard k i x m,
          get_or-set_ne m.shards i (shard_of hash k m) x.0 empty_shard (λ e. ne (sym e)),
        )
        refl

  -- Where a shard is put back that tracks its policy and holds keys of its own alone, the map stays
  -- valid.
  pub put_shard-IsValid :
      (i n : ℕ) (s : Shard) (m : ShardedMap)
      → IsValid m
      → IsTracked s
      → is_some s.policy ≡ is_some (shard_at m i).policy
      → ((k : Bytes) → is_some (find k s.map) ≡ true → shard_of hash k m ≡ i)
      → IsValid (put_shard i (s, n) m)
  put_shard-IsValid i n s m v t pol home = record {
    exponent = v.exponent;
    count = length-set m.shards i s ∙ v.count;
    single = λ e. length-set m.shards i s ∙ v.single e;
    tracked = λ j. elim (get_or-set_cases m.shards i j s empty_shard) [
      | inl (e, here) ↦ subst IsTracked (sym here) t
      | inr other ↦ subst IsTracked (sym other) (v.tracked j)
    ];
    policies = λ j lt. elim (get_or-set_cases m.shards i j s empty_shard) [
      | inl (e, here) ↦
          ap (λ (t : Shard). is_some t.policy) here
          ∙ pol
          ∙ (rw e (v.policies j (omega (arith, length-set m.shards i s, lt))))
      | inr other ↦
          ap (λ (t : Shard). is_some t.policy) other
          ∙ v.policies j (omega (arith, length-set m.shards i s, lt))
    ];
    placed = λ j k h.
        shard_of-put_shard k i (s, n) m ∙ (elim (get_or-set_cases m.shards i j s empty_shard) [
          | inl (e, here) ↦ home k (subst (λ (t : Shard). is_some (find k t.map) ≡ true) here h) ∙ e
          | inr other ↦ v.placed j k (subst (λ (t : Shard). is_some (find k t.map) ≡ true) other h)
        ]);
  }
