-- ===== src/Store/ShardedMap/Contents.antt =====
-- The map refines a function from keys to values: what each operation does to what can be found,
-- and that each operation keeps the map valid.
use key_value_store.Store.Shard.Eviction.{
  Evicts, find-shard_set_self, evict_if_needed_policy, evict_if_needed_off, evict_if_needed-Evicts,
}
use key_value_store.Store.Shard.{shard_put, shard_set}
use key_value_store.Common.{
  assign, find-assign, some, ℕ, ◌≡◌, ◌⊎◌, refl, sym, ap, ◌∙◌, subst, true, false, Option, none,
  Bytes, find, if◌then◌else◌, is_some, arith, Bool-cases, inl, inr, bytes_eq, bytes_eq_iff,
  find-erase,
}
use native.Mathlib.Decide.{ℕ_discrete}
use key_value_store.Store.Shard.{shard_put, shard_set, Shard, shard_get, shard_del}
use key_value_store.Store.Shard.Tracked.{
  shard_put-IsTracked, shard_get-IsTracked, shard_del-IsTracked,
}
use key_value_store.Store.ShardedMap.{
  eviction_enabled, map_set, ShardedMap, shard_at, put_shard, shard_of, map_get, map_del,
}
use key_value_store.Store.ShardedMap.Valid.{
  IsValid, view, shard_of-lt, put_shard-IsValid, view-put_shard_self, view-put_shard_ne,
}

-- The specification: a write of one key, where `none` is an erasure.
abbrev pub update : Bytes → Option Bytes → (Bytes → Option Bytes) → Bytes → Option Bytes
update k o f j = if bytes_eq k j then o else f j

-- As the specification says, or evicted.
abbrev pub OrEvicted : Option Bytes → Option Bytes → Type 0
OrEvicted found expected = (found ≡ expected) ⊎ (found ≡ none)

module _ (hash : Bytes → ℕ) where
  -- A shard whose finds change at one key changes the finds of the map there alone; `R` is how they
  -- follow the specification.
  pub view-put_shard :
      (R : Option Bytes → Option Bytes → Type 0)
      → ((x : Option Bytes) → R x x)
      → (k : Bytes) (o : Option Bytes) (n : ℕ) (s : Shard) (m : ShardedMap) → IsValid hash m
      → ((j : Bytes)
          → R (find j s.map) (update k o (λ i. find i (shard_at m (shard_of hash k m)).map) j))
      → (j : Bytes)
      → R (view hash (put_shard (shard_of hash k m) (s, n) m) j) (update k o (view hash m) j)
  view-put_shard R R-refl k o n s m v change j =
      elim (ℕ_discrete (shard_of hash j m) (shard_of hash k m)) [
        | yes e ↦
            let here =
              view-put_shard_self hash j (s, n) m (shard_of hash k m) (shard_of-lt hash k m v) e in
            let there = ap (λ (i : ℕ). find j (shard_at m i).map) e in
            subst (λ x. R x (update k o (view hash m) j)) (sym here)
              (subst (λ y. R (find j s.map) (if bytes_eq k j then o else y)) (sym there) (change j))
        | no ne ↦
            let here = view-put_shard_ne hash j (s, n) m (shard_of hash k m) ne in
            let other : bytes_eq k j ≡ false = elim (Bool-cases (bytes_eq k j)) [
              | inl same ↦
                  absurd (ne (ap (λ i. shard_of hash i m) (sym ((bytes_eq_iff k j).0 same))))
              | inr e ↦ e
            ] in
            subst (λ x. R x (update k o (view hash m) j)) (sym here)
              (rw other (R-refl (view hash m j)))
      ]

  -- A key that the shard of `k` holds after the change was there before, or is `k`.
  pub home_of :
      (k : Bytes) (s : Shard) (m : ShardedMap)
      → IsValid hash m
      → ((j : Bytes)
          → is_some (find j s.map) ≡ true
          → bytes_eq k j ≡ false
          → is_some (find j (shard_at m (shard_of hash k m)).map) ≡ true)
      → (j : Bytes) → is_some (find j s.map) ≡ true
      → shard_of hash j m ≡ shard_of hash k m
  home_of k s m v before j here = elim (Bool-cases (bytes_eq k j)) [
    | inl same ↦ ap (λ i. shard_of hash i m) (sym ((bytes_eq_iff k j).0 same))
    | inr other ↦ v.placed (shard_of hash k m) j (before j here other)
  ]

  -- On a valid map `get` returns what is found under its key, and changes nothing that is found.
  pub view-map_get :
      (k : Bytes) (m : ShardedMap)
      → IsValid hash m
      → ((map_get hash k m).0 ≡ view hash m k)
        × ((j : Bytes) → view hash (map_get hash k m).1 j ≡ view hash m j)
  unfolding map_get shard_get
  view-map_get k m v = (
    ground arith,
    λ j.
        view-put_shard ◌≡◌ (λ x. refl) k (view hash m k) m.evictions
          (shard_get k (shard_at m (shard_of hash k m))).1 m v
          (λ i. ground (arith, bytes_eq_iff k i)) j
        ∙ (ground (arith, bytes_eq_iff k j)),
  )

  pub map_get-IsValid :
      (k : Bytes) (m : ShardedMap) → IsValid hash m → IsValid hash (map_get hash k m).1
  unfolding map_get
  map_get-IsValid k m v =
      let s = shard_at m (shard_of hash k m) in
      put_shard-IsValid hash (shard_of hash k m) m.evictions (shard_get k s).1 m v
        (shard_get-IsTracked k s (v.tracked (shard_of hash k m))) (unfold shard_get in ground arith)
        (home_of k (shard_get k s).1 m v (unfold shard_get in λ j h o. ground arith))

  -- On a valid map `del` says whether its key was found, and takes this key away and no other.
  pub view-map_del :
      (k : Bytes) (m : ShardedMap)
      → IsValid hash m
      → ((map_del hash k m).0 ≡ is_some (view hash m k))
        × ((j : Bytes) → view hash (map_del hash k m).1 j ≡ update k none (view hash m) j)
  unfolding map_del shard_del
  view-map_del k m v =
      (refl, view-put_shard ◌≡◌ (λ x. refl) k none m.evictions _ m v (λ j. find-erase k j _))

  pub map_del-IsValid :
      (k : Bytes) (m : ShardedMap) → IsValid hash m → IsValid hash (map_del hash k m).1
  unfolding map_del
  map_del-IsValid k m v =
      let s = shard_at m (shard_of hash k m) in
      put_shard-IsValid hash (shard_of hash k m) m.evictions (shard_del k s).1 m v
        (shard_del-IsTracked k s (v.tracked (shard_of hash k m))) (unfold shard_del in ground arith)
        (home_of k (shard_del k s).1 m v
          (unfold shard_del in λ j h o. ground (arith, find-erase k j s.map)))

  module _ (k v : Bytes) (m : ShardedMap) (valid : IsValid hash m) where
    abbrev home : Shard
    home = shard_at m (shard_of hash k m)

    abbrev written : Shard × ℕ
    written = shard_set m.shard_budget_bytes k v home m.evictions

    written-Evicts : Evicts m.shard_budget_bytes (assign k v home.map) written.0
    unfolding shard_set shard_put
    written-Evicts =
        evict_if_needed-Evicts m.shard_budget_bytes (shard_put k v home) m.evictions
          (shard_put-IsTracked k v home (valid.tracked (shard_of hash k m)))

    written_finds :
        (j : Bytes) → OrEvicted (find j written.0.map) (update k (some v) (λ i. find i home.map) j)
    written_finds j =
        subst (OrEvicted (find j written.0.map)) (find-assign k j v home.map)
          (written-Evicts.shrinks j)

    policy_kept : is_some written.0.policy ≡ is_some home.policy
    unfolding shard_set shard_put
    policy_kept =
        evict_if_needed_policy m.shard_budget_bytes (shard_put k v home) m.evictions
        ∙ (ground arith)

    -- `set` keeps a map valid: each shard tracked by its policy, each key in the shard of its hash.
    pub map_set-IsValid : IsValid hash (map_set hash k v m)
    unfolding map_set
    map_set-IsValid =
        put_shard-IsValid hash (shard_of hash k m) written.1 written.0 m valid
          written-Evicts.tracked policy_kept
          (home_of k written.0 m valid (λ j h o. ground (arith, written_finds j)))

    -- On a valid map `set` makes its value found under its key, whatever it evicts.
    pub view-map_set_self : view hash (map_set hash k v m) k ≡ some v
    unfolding map_set
    view-map_set_self =
        view-put_shard_self hash k written m (shard_of hash k m) (shard_of-lt hash k m valid) refl
        ∙ find-shard_set_self m.shard_budget_bytes k v home m.evictions
            (valid.tracked (shard_of hash k m))

    -- After `set` on a valid map every key has what the write gives it, or is evicted.
    pub view-map_set :
        (j : Bytes)
        → OrEvicted (view hash (map_set hash k v m) j) (update k (some v) (view hash m) j)
    unfolding map_set
    view-map_set =
        view-put_shard OrEvicted (λ x. inl refl) k (some v) written.1 written.0 m valid
          written_finds

    written_finds_off :
        eviction_enabled m ≡ false
        → (j : Bytes) → find j written.0.map ≡ update k (some v) (λ i. find i home.map) j
    unfolding shard_set shard_put
    written_finds_off off j =
        let absent : is_some (shard_put k v home).policy ≡ false =
          ground (arith, valid.policies (shard_of hash k m) (shard_of-lt hash k m valid)) in
        rw (evict_if_needed_off m.shard_budget_bytes (shard_put k v home) m.evictions absent)
          (find-assign k j v home.map)

    -- On a valid map with no memory budget `set` is the update of one key.
    pub view-map_set_off :
        eviction_enabled m ≡ false
        → (j : Bytes) → view hash (map_set hash k v m) j ≡ update k (some v) (view hash m) j
    unfolding map_set
    view-map_set_off off =
        view-put_shard ◌≡◌ (λ x. refl) k (some v) written.1 written.0 m valid
          (written_finds_off off)
