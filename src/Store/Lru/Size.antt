-- ===== src/Store/Lru/Size.antt =====
-- The recency list is as long as the index, and a policy that is not empty has a victim.
use key_value_store.Common.{
  ◌∙◌, subst, ap, ℕ, ◌+◌, ◌<◌, ◌≡◌, refl, [], ◌∷◌, some, Bytes, find, length, arith, bytes_eq_refl,
  Option-cases, inl, inr, length-erase, nil_of_find, ==_refl,
}
use key_value_store.Store.Lru.{
  LruPolicy, Entry, Recency, on_erase, evict, entries, remove_node, split_last, forget,
}
use key_value_store.Store.Lru.Recency.{
  node_of, AreNodes, remove_node_absent, split_last-none, split_last_lem,
}
use key_value_store.Store.Lru.Order.{order, length-keys}
use key_value_store.Store.Lru.Invariant.{IsConsistent, on_erase-IsConsistent, evict-on_erase}

pub entries-on_erase :
    (k : Bytes) (e : Entry) (p : LruPolicy)
    → IsConsistent p
    → find k p.index ≡ some e
    → entries (on_erase k p) + 1 ≡ entries p
unfolding entries on_erase
entries-on_erase k e p c h = ground (arith, length-erase k e p.index c.distinct)

-- A key with a node is in the index.
held_of_node :
    (k : Bytes) (n : ℕ) (p : LruPolicy)
    → IsConsistent p
    → node_of k p.recency ≡ some n
    → (e : Entry) × (find k p.index ≡ some e)
held_of_node k n p c h = elim (Option-cases (find k p.index)) [
  | inl absent ↦ absurd (ground (arith, c.linked k))
  | inr found ↦ found
]

-- Erasing the key at the front leaves the tail.
tail_of_erase :
    (n : ℕ) (k : Bytes) (r : Recency) (p : LruPolicy)
    → IsConsistent p
    → p.recency ≡ (n, k) ∷ r
    → ((e : Entry) × (find k p.index ≡ some e)) × ((on_erase k p).recency ≡ r)
unfolding on_erase node_of remove_node
tail_of_erase n k r p c h =
    let nodes : AreNodes ((n, k) ∷ r) = subst AreNodes h c.nodes in
    let front : node_of k p.recency ≡ some n = rw (h, node_of, bytes_eq_refl) refl in
    elim (Option-cases (find k p.index)) [
      | inl absent ↦ absurd (ground (arith, c.linked k, front))
      | inr (e, here) ↦
          ((e, here), ground (arith, c.linked k, front, remove_node_absent n r nodes.0, ==_refl n))
    ]

pub length-recency :
    (r : Recency) (p : LruPolicy) → p.recency ≡ r → IsConsistent p → length r ≡ entries p
unfolding entries node_of
length-recency [] p h c =
    let none_found = nil_of_find p.index (λ k. ground (arith, c.linked k)) in rw none_found refl
length-recency ((n, k) ∷ r) p h c =
    let (found, rest) = tail_of_erase n k r p c h in
    omega (
      arith,
      length-recency r (on_erase k p) rest (on_erase-IsConsistent k p c),
      entries-on_erase k found.0 p c found.1,
    )

-- A consistent policy with an entry has a victim; evicting it is erasing it, and leaves one entry
-- fewer.
pub evict-some :
    (p : LruPolicy)
    → IsConsistent p
    → 0 < entries p
    → (victim : Bytes) × (evict p ≡ some (victim, on_erase victim p))
      × (entries (on_erase victim p) + 1 ≡ entries p)
unfolding evict
evict-some p c h = elim (Option-cases (split_last p.recency)) [
  | inl empty ↦
      let short = ap length (split_last-none p.recency empty) in
      absurd (omega (arith, short, length-recency p.recency p refl c))
  | inr ((kept, (n, k)), last) ↦
      let q = forget k (record p { recency = kept }) in
      let out : evict p ≡ some (k, q) = unfold evict in rw (last, evict) refl in
      let found = held_of_node k n p c (split_last_lem p.recency kept n k c.nodes last).0 in
      (
        k,
        subst (λ r. evict p ≡ some (k, r)) (evict-on_erase p q k c out) out,
        entries-on_erase k found.0 p c found.1,
      )
]

pub length-order : (p : LruPolicy) → IsConsistent p → length (order p) ≡ entries p
length-order p c = length-keys p.recency ∙ length-recency p.recency p refl c
