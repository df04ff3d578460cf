-- ===== src/Store/Shard/Eviction.antt =====
-- `evictIfNeeded`: the loop ends by its test, drops only whole keys from the map and the policy
-- together, and never drops the key that was used last.
use key_value_store.Common.{
  assign, find-assign_self, ap, is_some, sym, ◌∙◌, ℕ, zero, suc, ◌≤◌, ◌<◌, ◌≡◌, ◌⊎◌, refl, true,
  false, List, [], ◌∷◌, ◌++◌, Option, none, some, Bytes, KeyMap, find, erase, length, add64, arith,
  bytes_eq, bytes_eq_refl, find-erase, IsDistinct, IsDistinct-erase, Option-cases, Bool-cases, inl,
  inr, subst,
}
use key_value_store.Store.Lru.{on_insert, evict, LruPolicy, on_erase, entries}
use key_value_store.Store.Lru.Invariant.{IsConsistent, on_erase-IsConsistent}
use native.Mathlib.Nat.{le_refl}
use key_value_store.Store.Lru.Order.{
  order-on_insert, without, order, order-evict, contains, contains-node_of,
}
use key_value_store.Store.Lru.Size.{length-order, evict-some}
use key_value_store.Store.Shard.{
  entry_bytes, shard_put, shard_set, Shard, over_budget, evict_loop, evict_if_needed,
}
use key_value_store.Store.Shard.Tracked.{
  shard_put-IsTracked, Tracks, IsTracked, Tracks-on_erase, find-on_erase,
}

-- What an eviction leaves of a map: every key with its value, or without one.
abbrev pub Shrinks : KeyMap Bytes → KeyMap Bytes → Type 0
Shrinks m m' = (k : Bytes) → (find k m' ≡ find k m) ⊎ (find k m' ≡ none)

abbrev pub WithinBudget : ℕ → Option LruPolicy → Type 0
WithinBudget budget none = Unit
WithinBudget budget (some p) = over_budget budget p ≡ false

pub record Evicts (budget : ℕ) (m : KeyMap Bytes) (s : Shard) : Type 0 where
  pub tracked : IsTracked s
  pub within : WithinBudget budget s.policy
  pub shrinks : Shrinks m s.map

Shrinks-erase : (k : Bytes) (m m' : KeyMap Bytes) → Shrinks (erase k m) m' → Shrinks m m'
Shrinks-erase k m m' h j = elim (h j) [
  | inl same ↦ ground (arith, find-erase k j m)
  | inr gone ↦ inr gone
]

over_budget-entries : (budget : ℕ) (p : LruPolicy) → over_budget budget p ≡ true → 1 < entries p
unfolding over_budget
over_budget-entries budget p h = ground arith

pub evict_loop-Evicts :
    (fuel budget : ℕ) (m : KeyMap Bytes) (p : LruPolicy) (n : ℕ)
    → entries p ≤ fuel
    → IsDistinct m
    → Tracks m (some p)
    → Evicts budget m (evict_loop fuel budget m p n).0
unfolding evict_loop
evict_loop-Evicts zero budget m p n enough d t = record {
  tracked = record { tracks = t; distinct = d };
  within = unfold over_budget in ground arith;
  shrinks = λ k. inl refl;
}
evict_loop-Evicts (suc fuel) budget m p n enough d t = elim (Bool-cases (over_budget budget p)) [
  | inr fine ↦
      rw (fine, evict_loop)
        (record {
          tracked = record { tracks = t; distinct = d };
          within = fine;
          shrinks = λ k. inl refl;
        })
  | inl over ↦
      let more = over_budget-entries budget p over in
      let (victim, out, fewer) = evict-some p t.0 (omega arith) in
      let ih =
        evict_loop-Evicts fuel budget (erase victim m) (on_erase victim p) (add64 n 1) (omega arith)
          (IsDistinct-erase victim m d) (Tracks-on_erase victim m (some p) t) in
      rw (over, evict_loop, out)
        (record {
          tracked = ih.tracked;
          within = ih.within;
          shrinks = Shrinks-erase victim m _ ih.shrinks;
        })
]

-- The eviction loop on a shard whose policy tracks its map ends within the budget, or with one
-- entry; the policy still tracks the map, and every key has its value or is gone.
pub evict_if_needed-Evicts :
    (budget : ℕ) (s : Shard) (n : ℕ)
    → IsTracked s
    → Evicts budget s.map (evict_if_needed budget s n).0
unfolding evict_if_needed
evict_if_needed-Evicts budget s n t = elim (Option-cases s.policy) [
  | inl off ↦
      rw (off, evict_if_needed)
        (record {
          tracked = t;
          within = subst (WithinBudget budget) (sym off) tt;
          shrinks = λ k. inl refl;
        })
  | inr (p, on) ↦
      rw (on, evict_if_needed)
        (evict_loop-Evicts (entries p) budget s.map p n (le_refl _) t.distinct
          (subst (Tracks s.map) on t.tracks))
]

-- The key at the front of a policy is in its index.
front_held :
    (q : LruPolicy) (k : Bytes) (l : List Bytes)
    → IsConsistent q
    → order q ≡ k ∷ l
    → is_some (find k q.index) ≡ true
unfolding contains
front_held q k l c front =
    ground (arith, contains-node_of k q.recency, ap (contains k) front, bytes_eq_refl k, c.linked k)

-- The key at the front is not the victim while there is another one.
front_survives :
    (p : LruPolicy) (k victim : Bytes) (l rest : List Bytes)
    → IsConsistent p
    → 1 < entries p
    → order p ≡ order (on_erase victim p) ++ victim ∷ []
    → order p ≡ k ∷ l
    → order (on_erase victim p) ≡ rest
    → ((l' : List Bytes) × (order (on_erase victim p) ≡ k ∷ l')) × (bytes_eq victim k ≡ false)
front_survives p k victim l [] c more split front e =
    let alone = ap length (split ∙ ap (λ (o : List Bytes). o ++ victim ∷ []) e) in
    absurd (omega (arith, alone, length-order p c))
front_survives p k victim l (j ∷ rest) c more split front e =
    let joined = sym front ∙ split ∙ ap (λ (o : List Bytes). o ++ victim ∷ []) e in
    let same : j ≡ k = cc joined in
    let front' : order (on_erase victim p) ≡ k ∷ rest = rw (← same) e in
    (
      (rest, front'),
      ground (
        arith,
        front_held (on_erase victim p) k rest (on_erase-IsConsistent victim p c) front',
        find-on_erase victim k p,
      ),
    )

pub find-evict_loop_front :
    (fuel budget : ℕ) (m : KeyMap Bytes) (p : LruPolicy) (n : ℕ) (k : Bytes) (l : List Bytes)
    → IsDistinct m
    → Tracks m (some p)
    → order p ≡ k ∷ l
    → find k (evict_loop fuel budget m p n).0.map ≡ find k m
unfolding evict_loop
find-evict_loop_front zero budget m p n k l d t front = refl
find-evict_loop_front (suc fuel) budget m p n k l d t front =
    elim (Bool-cases (over_budget budget p)) [
      | inr fine ↦ rw (fine, evict_loop) refl
      | inl over ↦
          let more = over_budget-entries budget p over in
          let (victim, out, fewer) = evict-some p t.0 (omega arith) in
          let ((l', front'), other) =
            front_survives p k victim l (order (on_erase victim p)) t.0 more
              (order-evict p (on_erase victim p) victim out) front refl in
          let ih =
            find-evict_loop_front fuel budget (erase victim m) (on_erase victim p) (add64 n 1) k l'
              (IsDistinct-erase victim m d) (Tracks-on_erase victim m (some p) t) front' in
          rw (over, evict_loop, out) (ih ∙ (rw (find-erase, other) refl))
    ]

evict_loop_policy :
    (fuel budget : ℕ) (m : KeyMap Bytes) (p : LruPolicy) (n : ℕ)
    → is_some (evict_loop fuel budget m p n).0.policy ≡ true
unfolding evict_loop
evict_loop_policy zero budget m p n = refl
evict_loop_policy (suc fuel) budget m p n = elim (Bool-cases (over_budget budget p)) [
  | inr fine ↦ rw (fine, evict_loop) refl
  | inl over ↦ elim (Option-cases (evict p)) [
    | inl nothing ↦ rw (over, evict_loop, nothing) refl
    | inr ((victim, q), out) ↦
        rw (over, evict_loop, out) (evict_loop_policy fuel budget (erase victim m) q (add64 n 1))
  ]
]

pub evict_if_needed_policy :
    (budget : ℕ) (s : Shard) (n : ℕ)
    → is_some (evict_if_needed budget s n).0.policy ≡ is_some s.policy
unfolding evict_if_needed
evict_if_needed_policy budget s n = elim (Option-cases s.policy) [
  | inl off ↦ rw (off, evict_if_needed, off) refl
  | inr (p, on) ↦ rw (on, evict_if_needed) (evict_loop_policy (entries p) budget s.map p n)
]

pub evict_if_needed_off :
    (budget : ℕ) (s : Shard) (n : ℕ)
    → is_some s.policy ≡ false
    → evict_if_needed budget s n ≡ (s, n)
unfolding evict_if_needed
evict_if_needed_off budget s n off = ground arith

front_kept :
    (budget : ℕ) (k v : Bytes) (m : KeyMap Bytes) (o : Option LruPolicy) (n : ℕ)
    → IsTracked (record { map = m; policy = o })
    → find k (evict_if_needed budget (shard_put k v (record { map = m; policy = o })) n).0.map
      ≡ some v
unfolding shard_put evict_if_needed
front_kept budget k v m none n t = find-assign_self k v m
front_kept budget k v m (some p) n t =
    let p' = on_insert k (entry_bytes k v) p in
    let t' = shard_put-IsTracked k v (record { map = m; policy = some p }) t in
    find-evict_loop_front (entries p') budget (assign k v m) p' n k (without k (order p))
      t'.distinct t'.tracks (order-on_insert k (entry_bytes k v) p t.tracks.0)
    ∙ find-assign_self k v m

-- A key that was just written to a tracked shard survives the evictions that the write causes.
pub find-shard_set_self :
    (budget : ℕ) (k v : Bytes) (s : Shard) (n : ℕ)
    → IsTracked s
    → find k (shard_set budget k v s n).0.map ≡ some v
unfolding shard_set
find-shard_set_self budget k v s n t = front_kept budget k v s.map s.policy n t
