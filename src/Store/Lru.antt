-- ===== src/Store/Lru.antt =====
-- src/store/lru_policy.cpp: the recency list and its index. A node of the `std::list` is a number,
-- so that an iterator is the number of its node; `next_node` names the next node to be allocated.
pub mod Recency
pub mod Invariant
pub mod Order
pub mod Size
pub mod Ages
pub mod Usage
use key_value_store.Common.{
  ℕ, zero, suc, ◌+◌, ◌*◌, ◌/◌, ◌%◌, ◌^◌, ◌==◌, if◌then◌else◌, Bool, true, false, List, [], ◌∷◌,
  ◌++◌, Option, none, some, Bytes, KeyMap, find, assign, erase, length, add64, sub64, bytes_eq,
}

-- The front is the most recently used.
abbrev pub Recency : Type 0
Recency = List (ℕ × Bytes)

pub record Entry : Type 0 where
  pub node : ℕ
  pub bytes : ℕ

pub record LruPolicy : Type 0 where
  pub recency : Recency
  pub index : KeyMap Entry
  pub bytes : ℕ
  pub next_node : ℕ

abbrev pub new_policy : LruPolicy
new_policy = record { recency = []; index = []; bytes = 0; next_node = 0 }

-- The key that a node holds.
unfoldable pub key_of : ℕ → Recency → Option Bytes
key_of n [] = none
key_of n ((m, k) ∷ r) = if m == n then some k else key_of n r

-- `recency_.erase(node)`
unfoldable pub remove_node : ℕ → Recency → Recency
remove_node n [] = []
remove_node n ((m, k) ∷ r) = let rest = remove_node n r in if m == n then rest else (m, k) ∷ rest

-- `recency_.splice(recency_.begin(), recency_, node)`
unfoldable pub splice_front : ℕ → Recency → Recency
unfolding key_of remove_node
splice_front n r = elim (key_of n r) [ none ↦ r | some k ↦ (n, k) ∷ remove_node n r ]

-- `back()` and `pop_back()`: what stays, and the last node.
unfoldable pub split_last : Recency → Option (Recency × (ℕ × Bytes))
split_last [] = none
split_last (e ∷ r) = elim (split_last r) [
  | none ↦ some ([], e)
  | some (kept, last) ↦ some (e ∷ kept, last)
]

unfoldable pub on_access : Bytes → LruPolicy → LruPolicy
unfolding splice_front
on_access key p = elim (find key p.index) [
  | none ↦ p
  | some e ↦ record p { recency = splice_front e.node p.recency }
]

unfoldable pub on_insert : Bytes → ℕ → LruPolicy → LruPolicy
unfolding splice_front
on_insert key bytes p = elim (find key p.index) [
  | none ↦ record {
    recency = (p.next_node, key) ∷ p.recency;
    index = assign key (record { node = p.next_node; bytes = bytes }) p.index;
    bytes = add64 p.bytes bytes;
    next_node = suc p.next_node;
  }
  | some e ↦ record p {
    recency = splice_front e.node p.recency;
    index = assign key (record e { bytes = bytes }) p.index;
    bytes = add64 (sub64 p.bytes e.bytes) bytes;
  }
]

unfoldable pub on_erase : Bytes → LruPolicy → LruPolicy
unfolding remove_node
on_erase key p = elim (find key p.index) [
  | none ↦ p
  | some e ↦ record p {
    recency = remove_node e.node p.recency;
    index = erase key p.index;
    bytes = sub64 p.bytes e.bytes;
  }
]

-- The index and the byte count without the victim, if the index has it.
unfoldable pub forget : Bytes → LruPolicy → LruPolicy
forget victim p = elim (find victim p.index) [
  | none ↦ p
  | some e ↦ record p { index = erase victim p.index; bytes = sub64 p.bytes e.bytes }
]

-- `none` is `false`; else the victim, and the policy without it.
unfoldable pub evict : LruPolicy → Option (Bytes × LruPolicy)
unfolding split_last forget
evict p = elim (split_last p.recency) [
  | none ↦ none
  | some (kept, last) ↦ some (last.1, forget last.1 (record p { recency = kept }))
]

unfoldable pub entries : LruPolicy → ℕ
entries p = length p.index
