-- ===== src/Store/Lru/Invariant.antt =====
-- The index and the recency list agree, and `bytes_` is the sum of the sizes in the index, modulo
-- 2 ^ 64.
use key_value_store.Common.{
  IsDistinct-erase, find-erase, IsDistinct-assign, inr, find-assign, inl, Option-cases, ℕ, ◌+◌, ◌%◌,
  ◌^◌, [], ◌∷◌, none, some, Option, Bytes, KeyMap, ◌≡◌, arith, bytes_eq_iff, refl, find, assign,
  erase, IsDistinct,
}
use key_value_store.Store.Lru.{
  split_last, forget, evict, on_erase, on_access, on_insert, Entry, LruPolicy, new_policy,
}
use key_value_store.Store.Lru.Recency.{
  AllocatedBelow-remove_node, AreNodes-remove_node, split_last_lem, node_of-remove_node,
  AllocatedBelow-splice_front, AreNodes-splice_front, AllocatedBelow-suc, key_of-fresh,
  node_of-splice_front, node_of, AreNodes, AllocatedBelow,
}

-- The sum of the sizes.
unfoldable pub total : KeyMap Entry → ℕ
total [] = 0
total ((k, e) ∷ m) = e.bytes + total m

total-assign_absent :
    (k : Bytes) (e : Entry) (m : KeyMap Entry)
    → find k m ≡ none
    → total (assign k e m) ≡ total m + e.bytes
unfolding find assign total
total-assign_absent k e [] h = omega arith
total-assign_absent k e ((j, f) ∷ m) h = ground (arith, total-assign_absent k e m)

total-assign :
    (k : Bytes) (e old : Entry) (m : KeyMap Entry)
    → find k m ≡ some old
    → total (assign k e m) + old.bytes ≡ total m + e.bytes
unfolding find assign total
total-assign k e old [] h = ground arith
total-assign k e old ((j, f) ∷ m) h = ground (arith, total-assign k e old m)

total-erase_absent : (k : Bytes) (m : KeyMap Entry) → find k m ≡ none → total (erase k m) ≡ total m
unfolding find erase total
total-erase_absent k [] h = refl
total-erase_absent k ((j, f) ∷ m) h = ground (arith, total-erase_absent k m)

total-erase :
    (k : Bytes) (old : Entry) (m : KeyMap Entry)
    → IsDistinct m
    → find k m ≡ some old
    → total (erase k m) + old.bytes ≡ total m
unfolding find erase total
total-erase k old [] d h = ground arith
total-erase k old ((j, f) ∷ m) d h =
    ground (arith, bytes_eq_iff j k, total-erase_absent k m, total-erase k old m d.1)

abbrev node_in : Option Entry → Option ℕ
node_in none = none
node_in (some e) = some e.node

pub record IsConsistent (p : LruPolicy) : Type 0 where
  pub linked : (k : Bytes) → node_of k p.recency ≡ node_in (find k p.index)
  pub nodes : AreNodes p.recency
  pub allocated : AllocatedBelow p.next_node p.recency
  pub distinct : IsDistinct p.index
  pub sized : p.bytes ≡ total p.index % 2 ^ 64

pub new_policy-IsConsistent : IsConsistent new_policy
unfolding node_of find total
new_policy-IsConsistent = record {
  linked = λ k. refl;
  nodes = tt;
  allocated = tt;
  distinct = tt;
  sized = refl;
}

-- What the index says of a key that it holds, in the recency list.
pub linked_some :
    (p : LruPolicy) (k : Bytes) (e : Entry)
    → IsConsistent p
    → find k p.index ≡ some e
    → node_of k p.recency ≡ some e.node
linked_some p k e c h = ground (arith, c.linked k)

pub on_access-IsConsistent :
    (k : Bytes) (p : LruPolicy) → IsConsistent p → IsConsistent (on_access k p)
unfolding on_access
on_access-IsConsistent k p c = elim (Option-cases (find k p.index)) [
  | inl absent ↦ rw (absent, on_access) c
  | inr (e, here) ↦
      let l = linked_some p k e c here in
      rw (here, on_access)
        (record {
          linked = λ j. rw (node_of-splice_front k j e.node p.recency c.nodes l) (c.linked j);
          nodes = AreNodes-splice_front k e.node p.recency c.nodes l;
          allocated =
              AllocatedBelow-splice_front p.next_node e.node k p.recency c.nodes c.allocated l;
          distinct = c.distinct;
          sized = c.sized;
        })
]

-- An insertion keeps a policy consistent: the index names the node of each key of the recency list,
-- and the byte count is the sum of the entries modulo 2 ^ 64.
pub on_insert-IsConsistent :
    (k : Bytes) (bytes : ℕ) (p : LruPolicy) → IsConsistent p → IsConsistent (on_insert k bytes p)
unfolding on_insert
on_insert-IsConsistent k bytes p c = elim (Option-cases (find k p.index)) [
  | inl absent ↦
      rw (absent, on_insert)
        (record {
          linked = λ j. unfold node_of in rw find-assign (ground (arith, c.linked j));
          nodes =
              (key_of-fresh p.next_node p.recency c.allocated, ground (arith, c.linked k), c.nodes);
          allocated = (omega arith, AllocatedBelow-suc p.next_node p.recency c.allocated);
          distinct = IsDistinct-assign k _ p.index c.distinct;
          sized = omega (
            arith,
            c.sized,
            total-assign_absent k (record { node = p.next_node; bytes = bytes }) p.index absent,
          );
        })
  | inr (e, here) ↦
      let l = linked_some p k e c here in
      rw (here, on_insert)
        (record {
          linked = λ j. rw (node_of-splice_front k j e.node p.recency c.nodes l) (
              ground (
                arith,
                find-assign k j (record e { bytes = bytes }) p.index,
                bytes_eq_iff k j,
                c.linked j,
                l,
              ));
          nodes = AreNodes-splice_front k e.node p.recency c.nodes l;
          allocated =
              AllocatedBelow-splice_front p.next_node e.node k p.recency c.nodes c.allocated l;
          distinct = IsDistinct-assign k (record e { bytes = bytes }) p.index c.distinct;
          sized =
              omega (arith, c.sized, total-assign k (record e { bytes = bytes }) e p.index here);
        })
]

-- An erasure keeps a policy consistent, its byte count included.
pub on_erase-IsConsistent :
    (k : Bytes) (p : LruPolicy) → IsConsistent p → IsConsistent (on_erase k p)
unfolding on_erase
on_erase-IsConsistent k p c = elim (Option-cases (find k p.index)) [
  | inl absent ↦ rw (absent, on_erase) c
  | inr (e, here) ↦
      let l = linked_some p k e c here in
      rw (here, on_erase)
        (record {
          linked = λ j.
              rw (node_of-remove_node k j e.node p.recency c.nodes l, find-erase)
                (ground (arith, c.linked j));
          nodes = AreNodes-remove_node e.node p.recency c.nodes;
          allocated = AllocatedBelow-remove_node p.next_node e.node p.recency c.allocated;
          distinct = IsDistinct-erase k p.index c.distinct;
          sized = omega (arith, c.sized, total-erase k e p.index c.distinct here);
        })
]

-- On a consistent policy `evict` forgets the last node as `onErase` forgets its key.
pub evict-on_erase :
    (p q : LruPolicy) (victim : Bytes)
    → IsConsistent p
    → evict p ≡ some (victim, q)
    → q ≡ on_erase victim p
unfolding evict on_erase forget
evict-on_erase p q victim c h = elim (Option-cases (split_last p.recency)) [
  | inl empty ↦ absurd (ground arith)
  | inr (cut, last) ↦
      ground (arith, split_last_lem p.recency cut.0 cut.1.0 cut.1.1 c.nodes last, c.linked victim)
]

pub evict-IsConsistent :
    (p q : LruPolicy) (victim : Bytes)
    → IsConsistent p
    → evict p ≡ some (victim, q)
    → IsConsistent q
evict-IsConsistent p q victim c h =
    rw (evict-on_erase p q victim c h) (on_erase-IsConsistent victim p c)
