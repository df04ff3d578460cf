-- ===== src/Store/Shard/Tracked.antt =====
-- The policy of a shard tracks its map: it holds the same keys.
use key_value_store.Common.{
  ℕ, ◌≡◌, refl, true, [], ◌∷◌, Option, none, some, Bytes, KeyMap, find, assign, erase,
  if◌then◌else◌, is_some, arith, bytes_eq, bytes_eq_iff, find-assign, find-erase, IsDistinct,
  IsDistinct-assign, IsDistinct-erase, Option-cases, inl, inr, Bool-cases,
}
use key_value_store.Store.Lru.{LruPolicy, on_access, on_insert, on_erase}
use key_value_store.Store.Lru.Invariant.{
  IsConsistent, on_access-IsConsistent, on_insert-IsConsistent, on_erase-IsConsistent,
}
use key_value_store.Store.Shard.{
  Mutation, Shard, with_policy, shard_get, shard_put, shard_del, apply_one, erase_all, clear_shard,
  entry_bytes,
}

-- The same keys are held.
abbrev pub SameKeys : KeyMap Bytes → LruPolicy → Type 0
SameKeys m p = (k : Bytes) → is_some (find k m) ≡ is_some (find k p.index)

abbrev pub Tracks : KeyMap Bytes → Option LruPolicy → Type 0
Tracks m none = Unit
Tracks m (some p) = IsConsistent p × SameKeys m p

pub record IsTracked (s : Shard) : Type 0 where
  pub tracks : Tracks s.map s.policy
  pub distinct : IsDistinct s.map

find-on_access : (k j : Bytes) (p : LruPolicy) → find j (on_access k p).index ≡ find j p.index
unfolding on_access
find-on_access k j p = ground arith

some-on_insert :
    (k j : Bytes) (b : ℕ) (p : LruPolicy)
    → is_some (find j (on_insert k b p).index)
      ≡ (if bytes_eq k j then true else is_some (find j p.index))
unfolding on_insert
some-on_insert k j b p = elim (Option-cases (find k p.index)) [
  | inl absent ↦ rw (absent, on_insert, find-assign) (ground arith)
  | inr (e, here) ↦ rw (here, on_insert, find-assign) (ground arith)
]

pub find-on_erase :
    (k j : Bytes) (p : LruPolicy)
    → find j (on_erase k p).index ≡ (if bytes_eq k j then none else find j p.index)
unfolding on_erase
find-on_erase k j p = elim (Option-cases (find k p.index)) [
  | inl absent ↦ rw (absent, on_erase) (ground (arith, bytes_eq_iff k j))
  | inr (e, here) ↦ rw (here, on_erase) (find-erase k j p.index)
]

Tracks-on_access :
    (k : Bytes) (m : KeyMap Bytes) (o : Option LruPolicy)
    → Tracks m o
    → Tracks m (with_policy (on_access k) o)
Tracks-on_access k m none t = tt
Tracks-on_access k m (some p) t = (on_access-IsConsistent k p t.0, λ j. rw find-on_access (t.1 j))

Tracks-on_insert :
    (k v : Bytes) (m : KeyMap Bytes) (o : Option LruPolicy)
    → Tracks m o
    → Tracks (assign k v m) (with_policy (on_insert k (entry_bytes k v)) o)
Tracks-on_insert k v m none t = tt
Tracks-on_insert k v m (some p) t = (
  on_insert-IsConsistent k (entry_bytes k v) p t.0,
  λ j. rw (find-assign, some-on_insert k j (entry_bytes k v) p) (ground (arith, t.1 j)),
)

pub Tracks-on_erase :
    (k : Bytes) (m : KeyMap Bytes) (o : Option LruPolicy)
    → Tracks m o
    → Tracks (erase k m) (with_policy (on_erase k) o)
Tracks-on_erase k m none t = tt
Tracks-on_erase k m (some p) t = (
  on_erase-IsConsistent k p t.0,
  λ j. rw (find-erase, find-on_erase k j p) (ground (arith, t.1 j)),
)

pub shard_get-IsTracked : (k : Bytes) (s : Shard) → IsTracked s → IsTracked (shard_get k s).1
unfolding shard_get
shard_get-IsTracked k s t = elim (Option-cases (find k s.map)) [
  | inl absent ↦ rw (absent, shard_get) t
  | inr (v, here) ↦
      rw (here, shard_get)
        (record { tracks = Tracks-on_access k s.map s.policy t.tracks; distinct = t.distinct })
]

pub shard_put-IsTracked : (k v : Bytes) (s : Shard) → IsTracked s → IsTracked (shard_put k v s)
unfolding shard_put
shard_put-IsTracked k v s t = record {
  tracks = Tracks-on_insert k v s.map s.policy t.tracks;
  distinct = IsDistinct-assign k v s.map t.distinct;
}

pub shard_del-IsTracked : (k : Bytes) (s : Shard) → IsTracked s → IsTracked (shard_del k s).1
unfolding shard_del
shard_del-IsTracked k s t = record {
  tracks = Tracks-on_erase k s.map s.policy t.tracks;
  distinct = IsDistinct-erase k s.map t.distinct;
}

pub apply_one-IsTracked : (m : Mutation) (s : Shard) → IsTracked s → IsTracked (apply_one m s)
unfolding apply_one
apply_one-IsTracked m s t = elim (Bool-cases m.erase) [
  | inl e ↦ rw (e, apply_one) (shard_del-IsTracked m.key s t)
  | inr e ↦ rw (e, apply_one) (shard_put-IsTracked m.key m.value s t)
]

find-head :
    (k v j : Bytes) (m : KeyMap Bytes)
    → find j ((k, v) ∷ m) ≡ (if bytes_eq k j then some v else find j m)
unfolding find
find-head k v j m = refl

-- Erasing every key of the map from the policy leaves a policy that tracks no key.
erase_all_lem :
    (rest : KeyMap Bytes) (p : LruPolicy)
    → IsDistinct rest
    → IsConsistent p
    → SameKeys rest p
    → IsConsistent (erase_all rest p) × SameKeys [] (erase_all rest p)
unfolding erase_all
erase_all_lem [] p d c same = (c, same)
erase_all_lem ((k, v) ∷ rest) p d c same =
    erase_all_lem rest (on_erase k p) d.1 (on_erase-IsConsistent k p c) (λ j.
      rw (find-on_erase k j p)
        (ground (arith, same j, bytes_eq_iff k j, d.0, find-head k v j rest)))

Tracks-clear :
    (m : KeyMap Bytes) (o : Option LruPolicy)
    → IsDistinct m
    → Tracks m o
    → Tracks [] (with_policy (erase_all m) o)
Tracks-clear m none d t = tt
Tracks-clear m (some p) d t = erase_all_lem m p d t.0 t.1

pub clear_shard-IsTracked : (s : Shard) → IsTracked s → IsTracked (clear_shard s)
unfolding clear_shard
clear_shard-IsTracked s t = record {
  tracks = Tracks-clear s.map s.policy t.distinct t.tracks;
  distinct = tt;
}
