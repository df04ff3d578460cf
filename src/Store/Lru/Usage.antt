-- ===== src/Store/Lru/Usage.antt =====
-- src/store/lru_policy.cpp: what a policy does to its order, against the history of its calls.
use key_value_store.Common.{
  ℕ, suc, ◌<◌, ◌≡◌, refl, sym, ap, ◌∙◌, subst, Bool, true, false, List, [], ◌∷◌, ◌++◌, Option, none,
  some, Bytes, bytes_eq, bytes_eq_refl, if◌then◌else◌, if_cases, arith, All, inl, inr, Option-cases,
}
use key_value_store.Store.Lru.{
  LruPolicy, new_policy, on_access, on_insert, on_erase, evict, split_last,
}
use key_value_store.Store.Lru.Invariant.{
  IsConsistent, new_policy-IsConsistent, on_access-IsConsistent, on_insert-IsConsistent,
  on_erase-IsConsistent, evict-on_erase, evict-IsConsistent,
}
use key_value_store.Store.Lru.Recency.{split_last-none}
use key_value_store.Store.Lru.Ages.{
  IsByUse, GrowsOlder, older-IsByUse, without-IsByUse, absent-All, used-IsByUse, front-IsByUse,
  last-IsByUse,
}
use key_value_store.Store.Lru.Order.{
  keys, order, without, contains, order-on_access, order-on_insert, order-on_erase, order-evict,
}

-- The calls of a policy.
pub data PolicyCall : Type 0 where
  accesses erases : Bytes → PolicyCall
  inserts : Bytes → ℕ → PolicyCall
  evicts : PolicyCall

abbrev after_evict : LruPolicy → Option (Bytes × LruPolicy) → LruPolicy
after_evict p none = p
after_evict p (some (victim, q)) = q

unfoldable pub call_policy : PolicyCall → LruPolicy → LruPolicy
call_policy (accesses key) p = on_access key p
call_policy (erases key) p = on_erase key p
call_policy (inserts key bytes) p = on_insert key bytes p
call_policy evicts p = after_evict p (evict p)

-- The policy behind a history, whose latest call comes first.
unfoldable pub policy_after : List PolicyCall → LruPolicy
policy_after [] = new_policy
policy_after (call ∷ history) = call_policy call (policy_after history)

-- Whether a call uses a key: it is read or written.
unfoldable pub is_use : Bytes → PolicyCall → Bool
is_use key (accesses k) = bytes_eq key k
is_use key (inserts k bytes) = bytes_eq key k
is_use key (erases k) = false
is_use key evicts = false

-- How many calls ago a key was used.
unfoldable pub calls_since_use : List PolicyCall → Bytes → ℕ
calls_since_use [] key = 0
calls_since_use (call ∷ history) key =
    let before = calls_since_use history key in if is_use key call then 0 else suc before

calls_since_used :
    (call : PolicyCall) (history : List PolicyCall) (key : Bytes)
    → is_use key call ≡ true
    → calls_since_use (call ∷ history) key ≡ 0
unfolding calls_since_use
calls_since_used call history key e = rw (e) refl

calls_since_other :
    (call : PolicyCall) (history : List PolicyCall) (key : Bytes)
    → is_use key call ≡ false
    → calls_since_use (call ∷ history) key ≡ suc (calls_since_use history key)
unfolding calls_since_use
calls_since_other call history key e = rw (e) refl

-- The keys of a policy stand in the order in which the history used them.
record FollowsUse (history : List PolicyCall) (p : LruPolicy) : Type 0 where
  consistent : IsConsistent p
  by_use : IsByUse (calls_since_use history) (order p)

-- A call that uses no key of the list makes each older.
not_used :
    (call : PolicyCall) (history : List PolicyCall) (l : List Bytes)
    → ((j : Bytes) → is_use j call ≡ false)
    → GrowsOlder (calls_since_use history) (calls_since_use (call ∷ history)) l
not_used call history [] h = tt
not_used call history (j ∷ l) h =
    (calls_since_other call history j (h j), not_used call history l h)

accesses-FollowsUse :
    (k : Bytes) (history : List PolicyCall) (p : LruPolicy)
    → FollowsUse history p
    → FollowsUse (accesses k ∷ history) (on_access k p)
unfolding is_use
accesses-FollowsUse k history p x =
    let age = calls_since_use history in
    let age' = calls_since_use (accesses k ∷ history) in
    record {
      consistent = on_access-IsConsistent k p x.consistent;
      by_use = subst (IsByUse age') (sym (order-on_access k p x.consistent)) (
          if_cases (IsByUse age') (contains k (order p))
            (λ held.
              used-IsByUse age age' k (order p)
                (calls_since_used (accesses k) history k (bytes_eq_refl k))
                (calls_since_other (accesses k) history) x.by_use)
            (λ absent.
              older-IsByUse age age' (order p)
                (absent-All (λ j. age' j ≡ suc (age j)) k (order p) absent
                  (calls_since_other (accesses k) history))
                x.by_use));
    }

inserts-FollowsUse :
    (k : Bytes) (bytes : ℕ) (history : List PolicyCall) (p : LruPolicy)
    → FollowsUse history p
    → FollowsUse (inserts k bytes ∷ history) (on_insert k bytes p)
unfolding is_use
inserts-FollowsUse k bytes history p x =
    let age' = calls_since_use (inserts k bytes ∷ history) in
    record {
      consistent = on_insert-IsConsistent k bytes p x.consistent;
      by_use = subst (IsByUse age') (sym (order-on_insert k bytes p x.consistent)) (
          used-IsByUse (calls_since_use history) age' k (order p)
            (calls_since_used (inserts k bytes) history k (bytes_eq_refl k))
            (calls_since_other (inserts k bytes) history) x.by_use);
    }

erases-FollowsUse :
    (k : Bytes) (history : List PolicyCall) (p : LruPolicy)
    → FollowsUse history p
    → FollowsUse (erases k ∷ history) (on_erase k p)
unfolding is_use
erases-FollowsUse k history p x =
    let age' = calls_since_use (erases k ∷ history) in
    record {
      consistent = on_erase-IsConsistent k p x.consistent;
      by_use = subst (IsByUse age') (sym (order-on_erase k p x.consistent)) (
          without-IsByUse age' k (order p) (
            older-IsByUse (calls_since_use history) age' (order p)
              (not_used (erases k) history (order p) (λ j. refl)) x.by_use));
    }

evicts-FollowsUse :
    (history : List PolicyCall) (p : LruPolicy)
    → FollowsUse history p
    → FollowsUse (evicts ∷ history) (call_policy evicts p)
unfolding is_use call_policy
evicts-FollowsUse history p x = elim (Option-cases (evict p)) [
  | inl empty ↦ rw (empty) (record { consistent = x.consistent; by_use = older (order p) x.by_use })
  | inr ((victim, q), out) ↦ rw (out) (record {
    consistent = evict-IsConsistent p q victim x.consistent out;
    by_use = older (order q) (
        front-IsByUse (calls_since_use history) (order q) (victim ∷ [])
          (subst (IsByUse (calls_since_use history)) (order-evict p q victim out) x.by_use));
  })
]
  where
    older :
        (l : List Bytes)
        → IsByUse (calls_since_use history) l
        → IsByUse (calls_since_use (evicts ∷ history)) l
    older l h =
        older-IsByUse (calls_since_use history) (calls_since_use (evicts ∷ history)) l
          (not_used evicts history l (λ j. refl)) h

policy_after-FollowsUse : (history : List PolicyCall) → FollowsUse history (policy_after history)
unfolding policy_after call_policy
policy_after-FollowsUse [] = record { consistent = new_policy-IsConsistent; by_use = tt }
policy_after-FollowsUse (accesses k ∷ history) =
    accesses-FollowsUse k history _ (policy_after-FollowsUse history)
policy_after-FollowsUse (erases k ∷ history) =
    erases-FollowsUse k history _ (policy_after-FollowsUse history)
policy_after-FollowsUse (inserts k bytes ∷ history) =
    inserts-FollowsUse k bytes history _ (policy_after-FollowsUse history)
policy_after-FollowsUse (evicts ∷ history) =
    evicts-FollowsUse history _ (policy_after-FollowsUse history)

-- What is left behind the eviction of the least recently used key.
pub record LosesOldest (history : List PolicyCall) (p : LruPolicy) (victim : Bytes) (q : LruPolicy)
    : Type 0 where
  pub held : contains victim (order p) ≡ true
  pub rest : order q ≡ without victim (order p)
  pub oldest : All (λ key. calls_since_use history key < calls_since_use history victim) (order q)
  pub erased : q ≡ on_erase victim p
  pub consistent : IsConsistent q

contains-last : (l : List Bytes) (k : Bytes) → contains k (l ++ k ∷ []) ≡ true
unfolding contains
contains-last [] k = rw (bytes_eq_refl k) refl
contains-last (j ∷ l) k = ground (arith, contains-last l k)

evict-LosesOldest :
    (history : List PolicyCall) (victim : Bytes) (q : LruPolicy)
    → evict (policy_after history) ≡ some (victim, q)
    → LosesOldest history (policy_after history) victim q
evict-LosesOldest history victim q out =
    let p = policy_after history in
    let x = policy_after-FollowsUse history in
    let split = order-evict p q victim out in
    let erased = evict-on_erase p q victim x.consistent out in
    record {
      held = ap (contains victim) split ∙ contains-last (order q) victim;
      rest = ap order erased ∙ order-on_erase victim p x.consistent;
      oldest =
          last-IsByUse (calls_since_use history) (order q) victim
            (subst (IsByUse (calls_since_use history)) split x.by_use);
      erased = erased;
      consistent = evict-IsConsistent p q victim x.consistent out;
    }

evict-none : (p : LruPolicy) → evict p ≡ none → order p ≡ []
unfolding evict
evict-none p out = elim (Option-cases (split_last p.recency)) [
  | inl empty ↦ ap keys (split_last-none p.recency empty)
  | inr (cut, last) ↦ absurd (ground arith)
]

-- An eviction has no victim where no key is held.
abbrev pub EvictsOldest : List PolicyCall → LruPolicy → Option (Bytes × LruPolicy) → Type 0
EvictsOldest history p none = order p ≡ []
EvictsOldest history p (some (victim, q)) = LosesOldest history p victim q

victim-EvictsOldest :
    (history : List PolicyCall) (o : Option (Bytes × LruPolicy))
    → evict (policy_after history) ≡ o
    → EvictsOldest history (policy_after history) o
victim-EvictsOldest history none out = evict-none (policy_after history) out
victim-EvictsOldest history (some (victim, q)) out = evict-LosesOldest history victim q out

-- Behind any history of accesses, insertions, erasures and evictions of a new policy, an eviction
-- has no victim only where no key is held. Otherwise the victim is a key that is held, and its last
-- access or insertion in the history is longer ago than that of every other key that is held; those
-- keep their order, and the policy is the one that an erasure of the victim leaves, with its index
-- and its count of bytes right.
pub evict-EvictsOldest :
    (history : List PolicyCall)
    → EvictsOldest history (policy_after history) (evict (policy_after history))
evict-EvictsOldest history = victim-EvictsOldest history (evict (policy_after history)) refl
