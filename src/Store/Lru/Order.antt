-- ===== src/Store/Lru/Order.antt =====
-- The policy refines a list of keys, most recently used first: an access or an insertion moves its
-- key to the front, an erasure takes it out, and the victim is the last.
use key_value_store.Common.{
  suc, ap, length, is_some, ℕ, if◌then◌else◌, List, [], ◌∷◌, ◌++◌, none, some, Bytes, bytes_eq, ◌≡◌,
  arith, bytes_eq_iff, refl, Option-cases, inl, inr, find, false, Bool, ◌||◌,
}
use key_value_store.Store.Lru.{
  Recency, LruPolicy, remove_node, split_last, on_access, on_insert, on_erase, evict, forget,
}
use key_value_store.Store.Lru.Recency.{
  split_last-none, key_of-node_of, node_of, AreNodes, remove_node_absent, key_of-node_of,
  split_last-none, splice_front_lem,
}
use key_value_store.Store.Lru.Invariant.{IsConsistent, linked_some}

abbrev pub keys : Recency → List Bytes
keys [] = []
keys ((n, k) ∷ r) = k ∷ keys r

-- The keys of a policy in order of use.
abbrev pub order : LruPolicy → List Bytes
order p = keys p.recency

unfoldable pub without : Bytes → List Bytes → List Bytes
without k [] = []
without k (j ∷ l) = let rest = without k l in if bytes_eq j k then rest else j ∷ rest

unfoldable pub contains : Bytes → List Bytes → Bool
contains k [] = false
contains k (j ∷ l) = bytes_eq j k || contains k l

pub length-keys : (r : Recency) → length (keys r) ≡ length r
length-keys [] = refl
length-keys ((n, k) ∷ r) = ap suc (length-keys r)

keys-remove_absent : (k : Bytes) (r : Recency) → node_of k r ≡ none → without k (keys r) ≡ keys r
unfolding node_of without
keys-remove_absent k [] h = refl
keys-remove_absent k ((m, j) ∷ r) h = ground (arith, keys-remove_absent k r)

keys-remove_node :
    (k : Bytes) (n : ℕ) (r : Recency)
    → AreNodes r
    → node_of k r ≡ some n
    → keys (remove_node n r) ≡ without k (keys r)
unfolding node_of remove_node without
keys-remove_node k n [] w h = ground arith
keys-remove_node k n ((m, j) ∷ r) w h = ground (
  arith,
  bytes_eq_iff j k,
  key_of-node_of k n r w.2,
  remove_node_absent n r,
  keys-remove_absent k r,
  keys-remove_node k n r w.2,
)

pub contains-node_of : (k : Bytes) (r : Recency) → contains k (keys r) ≡ is_some (node_of k r)
unfolding node_of contains
contains-node_of k [] = refl
contains-node_of k ((m, j) ∷ r) = ground (arith, contains-node_of k r)

-- In a consistent policy an access of a key that is held makes it the most recently used, and no
-- other access counts.
pub order-on_access :
    (k : Bytes) (p : LruPolicy)
    → IsConsistent p
    → order (on_access k p) ≡ (if contains k (order p) then k ∷ without k (order p) else order p)
unfolding on_access
order-on_access k p c = elim (Option-cases (find k p.index)) [
  | inl absent ↦ ground (arith, contains-node_of k p.recency, c.linked k)
  | inr (e, here) ↦
      let l = linked_some p k e c here in
      ground (
        arith,
        contains-node_of k p.recency,
        splice_front_lem k e.node p.recency c.nodes l,
        keys-remove_node k e.node p.recency c.nodes l,
        l,
      )
]

-- In a consistent policy an insertion makes its key the most recently used, new or not.
pub order-on_insert :
    (k : Bytes) (bytes : ℕ) (p : LruPolicy)
    → IsConsistent p
    → order (on_insert k bytes p) ≡ k ∷ without k (order p)
unfolding on_insert
order-on_insert k bytes p c = elim (Option-cases (find k p.index)) [
  | inl absent ↦ ground (arith, keys-remove_absent k p.recency, c.linked k)
  | inr (e, here) ↦
      let l = linked_some p k e c here in
      ground (
        arith,
        splice_front_lem k e.node p.recency c.nodes l,
        keys-remove_node k e.node p.recency c.nodes l,
      )
]

-- In a consistent policy an erasure takes its key out of the order and keeps the rest.
pub order-on_erase :
    (k : Bytes) (p : LruPolicy) → IsConsistent p → order (on_erase k p) ≡ without k (order p)
unfolding on_erase
order-on_erase k p c = elim (Option-cases (find k p.index)) [
  | inl absent ↦ ground (arith, keys-remove_absent k p.recency, c.linked k)
  | inr (e, here) ↦
      let l = linked_some p k e c here in
      ground (arith, keys-remove_node k e.node p.recency c.nodes l)
]

keys-split_last :
    (r kept : Recency) (last : ℕ × Bytes)
    → split_last r ≡ some (kept, last)
    → keys r ≡ keys kept ++ last.1 ∷ []
unfolding split_last
keys-split_last [] kept last h = ground arith
keys-split_last (e ∷ r) kept last h = elim (Option-cases (split_last r)) [
  | inl alone ↦ ground (arith, split_last-none r alone)
  | inr (cut, more) ↦ ground (arith, keys-split_last r cut.0 cut.1 more)
]

-- An eviction takes the last key off the order.
pub order-evict :
    (p q : LruPolicy) (victim : Bytes)
    → evict p ≡ some (victim, q)
    → order p ≡ order q ++ victim ∷ []
unfolding evict forget
order-evict p q victim h = elim (Option-cases (split_last p.recency)) [
  | inl empty ↦ absurd (ground arith)
  | inr (cut, last) ↦ ground (arith, keys-split_last p.recency cut.0 cut.1 last)
]
