-- ===== src/Store/Lru/Recency.antt =====
-- Lists of nodes with distinct numbers and distinct keys.
use key_value_store.Common.{
  inr, inl, ◌<◌, bytes_eq_refl, Option-cases, ℕ, suc, ◌==◌, if◌then◌else◌, [], ◌∷◌, none, some,
  Option, Bytes, bytes_eq, ◌≡◌, arith, bytes_eq_iff, refl,
}
use key_value_store.Store.Lru.{Recency, key_of, remove_node, splice_front, split_last}

-- The node of a key.
unfoldable pub node_of : Bytes → Recency → Option ℕ
node_of k [] = none
node_of k ((n, j) ∷ r) = if bytes_eq j k then some n else node_of k r

abbrev pub AreNodes : Recency → Type 0
AreNodes [] = Unit
AreNodes ((n, k) ∷ r) = (key_of n r ≡ none) × (node_of k r ≡ none) × AreNodes r

pub key_of-node_of :
    (k : Bytes) (n : ℕ) (r : Recency) → AreNodes r → node_of k r ≡ some n → key_of n r ≡ some k
unfolding node_of key_of
key_of-node_of k n [] w h = ground arith
key_of-node_of k n ((m, j) ∷ r) w h = ground (arith, bytes_eq_iff j k, key_of-node_of k n r w.2)

pub key_of-remove_node :
    (n m : ℕ) (r : Recency) → key_of m (remove_node n r) ≡ (if n == m then none else key_of m r)
unfolding key_of remove_node
key_of-remove_node n m [] = ground arith
key_of-remove_node n m ((i, j) ∷ r) = ground (arith, key_of-remove_node n m r)

node_of-remove_node-none :
    (n : ℕ) (j : Bytes) (r : Recency) → node_of j r ≡ none → node_of j (remove_node n r) ≡ none
unfolding node_of remove_node
node_of-remove_node-none n j [] h = h
node_of-remove_node-none n j ((i, k) ∷ r) h = ground (arith, node_of-remove_node-none n j r)

pub remove_node_absent : (n : ℕ) (r : Recency) → key_of n r ≡ none → remove_node n r ≡ r
unfolding key_of remove_node
remove_node_absent n [] h = refl
remove_node_absent n ((m, k) ∷ r) h = ground (arith, remove_node_absent n r)

pub node_of-remove_node :
    (k j : Bytes) (n : ℕ) (r : Recency)
    → AreNodes r
    → node_of k r ≡ some n
    → node_of j (remove_node n r) ≡ (if bytes_eq k j then none else node_of j r)
unfolding node_of remove_node
node_of-remove_node k j n [] w h = ground arith
node_of-remove_node k j n ((m, i) ∷ r) w h = ground (
  arith,
  bytes_eq_iff i k,
  bytes_eq_iff i j,
  bytes_eq_iff k j,
  key_of-node_of k n r w.2,
  remove_node_absent n r,
  node_of-remove_node k j n r w.2,
)

pub AreNodes-remove_node : (n : ℕ) (r : Recency) → AreNodes r → AreNodes (remove_node n r)
unfolding remove_node
AreNodes-remove_node n [] w = w
AreNodes-remove_node n ((m, k) ∷ r) w =
    ground (
      arith,
      key_of-remove_node n m r,
      node_of-remove_node-none n k r,
      AreNodes-remove_node n r w.2,
    )

pub split_last-none : (r : Recency) → split_last r ≡ none → r ≡ []
unfolding split_last
split_last-none [] h = refl
split_last-none (e ∷ r) h = ground arith

-- The last node is the node of its key, and to drop it is to remove that node.
pub split_last_lem :
    (r kept : Recency) (n : ℕ) (k : Bytes)
    → AreNodes r
    → split_last r ≡ some (kept, (n, k))
    → (node_of k r ≡ some n) × (kept ≡ remove_node n r)
unfolding split_last node_of remove_node
split_last_lem [] kept n k w h = absurd (ground arith)
split_last_lem ((m, j) ∷ r) kept n k w h = elim (Option-cases (split_last r)) [
  | inl alone ↦ ground (arith, split_last-none r alone, bytes_eq_iff j k, remove_node_absent m r)
  | inr (rest, more) ↦ ground (
    arith,
    bytes_eq_iff j k,
    split_last_lem r rest.0 rest.1.0 rest.1.1 w.2 more,
    key_of-node_of k n r w.2,
  )
]

-- A splice moves the node of a key to the front and keeps the nodes as they are.
pub splice_front_lem :
    (k : Bytes) (n : ℕ) (r : Recency)
    → AreNodes r
    → node_of k r ≡ some n
    → splice_front n r ≡ (n, k) ∷ remove_node n r
unfolding splice_front
splice_front_lem k n r w h = rw (key_of-node_of k n r w h, splice_front)

pub AreNodes-splice_front :
    (k : Bytes) (n : ℕ) (r : Recency)
    → AreNodes r
    → node_of k r ≡ some n
    → AreNodes (splice_front n r)
AreNodes-splice_front k n r w h = rw (splice_front_lem k n r w h) (
  rw key_of-remove_node (ground arith),
  rw (node_of-remove_node k k n r w h, bytes_eq_refl),
  AreNodes-remove_node n r w,
)

pub node_of-splice_front :
    (k j : Bytes) (n : ℕ) (r : Recency)
    → AreNodes r
    → node_of k r ≡ some n
    → node_of j (splice_front n r) ≡ node_of j r
unfolding node_of
node_of-splice_front k j n r w h =
    ground (arith, splice_front_lem k n r w h, node_of-remove_node k j n r w h, bytes_eq_iff k j)

-- Every node was allocated before `limit`.
abbrev pub AllocatedBelow : ℕ → Recency → Type 0
AllocatedBelow limit [] = Unit
AllocatedBelow limit ((n, k) ∷ r) = (n < limit) × AllocatedBelow limit r

pub AllocatedBelow-remove_node :
    (limit n : ℕ) (r : Recency) → AllocatedBelow limit r → AllocatedBelow limit (remove_node n r)
unfolding remove_node
AllocatedBelow-remove_node limit n [] h = h
AllocatedBelow-remove_node limit n ((m, k) ∷ r) h =
    ground (arith, AllocatedBelow-remove_node limit n r h.1)

pub AllocatedBelow-suc :
    (limit : ℕ) (r : Recency) → AllocatedBelow limit r → AllocatedBelow (suc limit) r
AllocatedBelow-suc limit [] h = h
AllocatedBelow-suc limit ((m, k) ∷ r) h = (omega arith, AllocatedBelow-suc limit r h.1)

pub key_of-fresh : (limit : ℕ) (r : Recency) → AllocatedBelow limit r → key_of limit r ≡ none
unfolding key_of
key_of-fresh limit [] h = refl
key_of-fresh limit ((m, k) ∷ r) h = ground (arith, key_of-fresh limit r h.1)

node_below :
    (limit n : ℕ) (k : Bytes) (r : Recency)
    → AllocatedBelow limit r
    → node_of k r ≡ some n
    → n < limit
unfolding node_of
node_below limit n k [] h e = ground arith
node_below limit n k ((m, j) ∷ r) h e = ground (arith, node_below limit n k r h.1)

pub AllocatedBelow-splice_front :
    (limit n : ℕ) (k : Bytes) (r : Recency)
    → AreNodes r
    → AllocatedBelow limit r
    → node_of k r ≡ some n
    → AllocatedBelow limit (splice_front n r)
AllocatedBelow-splice_front limit n k r w h e =
    rw (splice_front_lem k n r w e)
      (node_below limit n k r h e, AllocatedBelow-remove_node limit n r h)
