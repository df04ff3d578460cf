-- ===== src/Store/ShardedMap/Sizing.antt =====
-- The number of shards is the next power of two, and a new map is valid and empty.
use key_value_store.Common.{
  ℕ, zero, suc, ◌+◌, ◌*◌, ◌%◌, ◌^◌, ◌<◌, ◌≤◌, ◌≡◌, ◌⊎◌, refl, sym, ap, ◌∙◌, subst, [], none, some,
  Bytes, find, length, get_or, replicate, ltb, leb, ◌==◌, if◌then◌else◌, is_some, arith, Bool-cases,
  inl, inr, length-replicate, ltb→lt, ltb→le,
}
use native.Mathlib.Nat.{pow-suc}
use key_value_store.Store.Lru.{new_policy}
use key_value_store.Store.Lru.Invariant.{new_policy-IsConsistent}
use key_value_store.Store.Shard.{Shard}
use key_value_store.Store.Shard.Tracked.{IsTracked}
use key_value_store.Store.ShardedMap.{
  ShardedMap, LockMode, is_sharded, empty_shard, shard_at, shard_total, new_map, round_up_loop,
  round_up_to_power_of_two,
}
use key_value_store.Store.ShardedMap.Valid.{IsValid, view}

round_up_loop_lem :
    (fuel e n : ℕ)
    → e + fuel ≡ 63
    → n ≤ 2 ^ 63
    → 2 ^ e < 2 * n
    → (r : ℕ) × (round_up_loop fuel (2 ^ e) n ≡ 2 ^ r) × (n ≤ 2 ^ r) × (2 ^ r < 2 * n)
unfolding round_up_loop
round_up_loop_lem zero e n s bound low =
    let full : e ≡ 63 = omega arith in (e, refl, rw full bound, low)
round_up_loop_lem (suc fuel) e n s bound low = elim (Bool-cases (ltb (2 ^ e) n)) [
  | inl below ↦
      let lt = ltb→lt (2 ^ e) n below in
      let twice : 2 ^ e * 2 % 2 ^ 64 ≡ 2 ^ suc e = omega (arith, pow-suc 2 e) in
      rw (below, round_up_loop, twice)
        (round_up_loop_lem fuel (suc e) n (omega arith) bound (omega (arith, pow-suc 2 e)))
  | inr reached ↦ (e, rw (reached, round_up_loop) refl, ltb→le (2 ^ e) n reached, low)
]

-- For at most 2 ^ 63 shards the loop of `roundUpToPowerOfTwo` ends, with the least power of two
-- that is not smaller.
pub round_up_is_least :
    (n : ℕ)
    → n ≤ 2 ^ 63
    → (e : ℕ) × (round_up_to_power_of_two n ≡ 2 ^ e) × (n ≤ 2 ^ e) × ((e ≡ 0) ⊎ (2 ^ e < 2 * n))
unfolding round_up_to_power_of_two
round_up_is_least n h = elim (Bool-cases (leb n 1)) [
  | inl small ↦ (0, rw (small, round_up_to_power_of_two) refl, ground arith, inl refl)
  | inr large ↦
      let (e, end, above, least) = round_up_loop_lem 63 0 n refl h (ground arith) in
      (e, rw (large, round_up_to_power_of_two) end, above, inr least)
]

get_or-replicate :
    {A : Type 0} (n i : ℕ) (a d : A)
    → (get_or (replicate n a) i d ≡ a) ⊎ ((get_or (replicate n a) i d ≡ d) × (n ≤ i))
get_or-replicate zero i a d = inr (refl, omega arith)
get_or-replicate (suc n) zero a d = inl refl
get_or-replicate (suc n) (suc i) a d = elim (get_or-replicate n i a d) [
  | inl here ↦ inl here
  | inr (out, le) ↦ inr (out, omega arith)
]

fresh_shard : ℕ → Shard
fresh_shard max_memory = record {
  map = [];
  policy = if max_memory == 0 then none else some new_policy;
}

empty_shard-IsTracked : IsTracked empty_shard
empty_shard-IsTracked = record { tracks = tt; distinct = tt }

fresh_shard-IsTracked : (max_memory : ℕ) → IsTracked (fresh_shard max_memory)
unfolding fresh_shard find
fresh_shard-IsTracked max_memory = elim (Bool-cases (max_memory == 0)) [
  | inl off ↦ rw (off, fresh_shard) (record { tracks = tt; distinct = tt })
  | inr on ↦
      rw (on, fresh_shard) (record { tracks = (new_policy-IsConsistent, λ k. refl); distinct = tt })
]

module _ (hash : Bytes → ℕ) (mode : LockMode) (shard_count max_memory : ℕ)
    (h : shard_count ≤ 2 ^ 63) where
  abbrev fresh : ShardedMap
  fresh = new_map mode shard_count max_memory

  fresh_cases :
      (i : ℕ)
      → (shard_at fresh i ≡ fresh_shard max_memory)
        ⊎ ((shard_at fresh i ≡ empty_shard) × (shard_total mode shard_count ≤ i))
  unfolding new_map fresh_shard
  fresh_cases i =
      get_or-replicate (shard_total mode shard_count) i (fresh_shard max_memory) empty_shard

  find-fresh : (i : ℕ) (k : Bytes) → find k (shard_at fresh i).map ≡ none
  unfolding fresh_shard find
  find-fresh i k = elim (fresh_cases i) [
    | inl e ↦ ap (λ (s : Shard). find k s.map) e
    | inr e ↦ ap (λ (s : Shard). find k s.map) e.0
  ]

  total_power : (e : ℕ) × (length fresh.shards ≡ 2 ^ e)
  unfolding new_map shard_total
  total_power = elim (Bool-cases (is_sharded mode)) [
    | inl many ↦
        let (e, end, above, least) = round_up_is_least shard_count h in
        (e, length-replicate _ _ ∙ (rw (many, shard_total) end))
    | inr one ↦ (0, length-replicate _ _ ∙ (rw (one, shard_total) refl))
  ]

  -- The constructor, for at most 2 ^ 63 shards, builds a valid map in which nothing is found.
  pub new_map-IsValid : IsValid hash fresh × ((k : Bytes) → view hash fresh k ≡ none)
  unfolding new_map shard_total fresh_shard
  new_map-IsValid = (
    record {
      exponent = total_power.0;
      count = total_power.1;
      single = λ e. length-replicate _ _ ∙ (rw (e, shard_total) refl);
      tracked = λ i. elim (fresh_cases i) [
        | inl e ↦ subst IsTracked (sym e) (fresh_shard-IsTracked max_memory)
        | inr e ↦ subst IsTracked (sym e.0) empty_shard-IsTracked
      ];
      policies = λ i lt. elim (fresh_cases i) [
        | inl e ↦ ap (λ (s : Shard). is_some s.policy) e ∙ ground arith
        | inr e ↦ absurd (
            omega (
              arith,
              lt,
              e.1,
              length-replicate (shard_total mode shard_count) (fresh_shard max_memory),
            ))
      ];
      placed = λ i k some_key. absurd (cc (some_key, find-fresh i k));
    },
    λ k. find-fresh _ k,
  )
