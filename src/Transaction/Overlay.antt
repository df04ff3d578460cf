-- ===== src/Transaction/Overlay.antt =====
-- A transaction reads its own writes: what it finds is the effect of its mutations on the store.
use key_value_store.Common.{
  ℕ, ◌<◌, ◌≡◌, refl, sym, ap, ◌∙◌, List, [], ◌∷◌, ◌++◌, Option, none, some, Bytes, find, length,
  get_or, if◌then◌else◌, arith, not, is_some, if_elim, bytes_eq, find-assign, get_or-append_left,
  get_or-append_right, length-append, Bool-cases, Option-cases, inl, inr,
}
use key_value_store.Store.Mutation.{Mutation}
use key_value_store.Store.ShardedMap.Valid.{IsValid, view}
use key_value_store.Store.ShardedMap.Contents.{update, view-map_get}
use key_value_store.Store.ShardedMap.Batch.{effect, written_value}
use key_value_store.Store.ShardedMap.{map_get}
use key_value_store.Store.Engine.{Store, store_get}
use key_value_store.Transaction.{
  Transaction, no_mutation, pushed, new_transaction, push_mutation, txn_get,
}

pub effect-append :
    (l r : List Mutation) (f : Bytes → Option Bytes) → effect (l ++ r) f ≡ effect r (effect l f)
unfolding effect
effect-append [] r f = refl
effect-append (mu ∷ l) r f = effect-append l r (update mu.key (written_value mu) f)

-- `latest` names the last mutation of each key.
pub record IsIndexed (t : Transaction) : Type 0 where
  pub unwritten :
      (k : Bytes)
      → find k t.latest ≡ none
      → (f : Bytes → Option Bytes) → effect t.mutations f k ≡ f k
  pub written :
      (k : Bytes) (i : ℕ)
      → find k t.latest ≡ some i
      → (i < length t.mutations)
        × ((f : Bytes → Option Bytes)
            → effect t.mutations f k ≡ written_value (get_or t.mutations i no_mutation))

-- A new transaction has nothing in it.
pub new_transaction-IsIndexed : (s : Store) → IsIndexed (new_transaction s).0
unfolding new_transaction
new_transaction-IsIndexed s = record {
  unwritten = λ k e f. unfold effect in refl;
  written = λ k i e. unfold find in (ground (arith, e));
}

module _ (mu : Mutation) (t : Transaction) (x : IsIndexed t) where
  -- The effect with one mutation more, at its own key and at another.
  effect-pushed :
      (k : Bytes) (f : Bytes → Option Bytes)
      → effect (pushed mu t).mutations f k
        ≡ (if bytes_eq mu.key k then written_value mu else effect t.mutations f k)
  unfolding effect
  effect-pushed k f = ap (λ g. g k) (effect-append t.mutations (mu ∷ []) f)

  last_pushed : get_or (pushed mu t).mutations (length t.mutations) no_mutation ≡ mu
  last_pushed =
      get_or-append_right t.mutations (mu ∷ []) 0 (length t.mutations) no_mutation (omega arith)

  pushed-IsIndexed : IsIndexed (pushed mu t)
  pushed-IsIndexed = record {
    unwritten = λ k e f.
        let found = find-assign mu.key k (length t.mutations) t.latest in
        elim (Bool-cases (bytes_eq mu.key k)) [
          | inl same ↦ ground (arith, same, found, e)
          | inr other ↦
              effect-pushed k f ∙ rw other (x.unwritten k (ground (arith, other, found, e)) f)
        ];
    written = λ k i e.
        let found = find-assign mu.key k (length t.mutations) t.latest in
        elim (Bool-cases (bytes_eq mu.key k)) [
          | inl same ↦
              let at : i ≡ length t.mutations = ground (arith, same, found, e) in
              (
                omega (arith, length-append t.mutations (mu ∷ [])),
                λ f. effect-pushed k f ∙ rw (same, at, last_pushed) refl,
              )
          | inr other ↦
              let (short, value) = x.written k i (ground (arith, other, found, e)) in
              (
                omega (arith, length-append t.mutations (mu ∷ [])),
                λ f.
                    effect-pushed k f
                    ∙ rw (other, get_or-append_left t.mutations (mu ∷ []) i no_mutation short)
                        (value f),
              )
        ];
  }

  -- A write of a transaction keeps its index right: it names the last mutation of each key that has
  -- one.
  pub push_mutation-IsIndexed : IsIndexed (push_mutation mu t)
  unfolding push_mutation
  push_mutation-IsIndexed = if_elim IsIndexed (not t.active) x pushed-IsIndexed

module _ (hash : Bytes → ℕ) where
  pub store_get_lem : (k : Bytes) (s : Store) → (store_get hash k s).0 ≡ (map_get hash k s.map).0
  unfolding store_get
  store_get_lem k s =
      if_elim (λ (p : Option Bytes × Store). p.0 ≡ (map_get hash k s.map).0)
        (is_some (map_get hash k s.map).0) refl refl

  -- A read in a transaction whose index is right finds the effect of the mutations of the
  -- transaction so far on what the store holds, over a valid map.
  pub txn_get-effect :
      (k : Bytes) (t : Transaction) (s : Store)
      → IsIndexed t
      → IsValid hash s.map
      → (txn_get hash k t s).0 ≡ effect t.mutations (view hash s.map) k
  unfolding txn_get
  txn_get-effect k t s x v = elim (Option-cases (find k t.latest)) [
    | inl absent ↦
        rw (absent, txn_get)
          (store_get_lem k s
            ∙ ((view-map_get hash k s.map v).0 ∙ sym (x.unwritten k absent (view hash s.map))))
    | inr (i, there) ↦ rw (there, txn_get) (sym ((x.written k i there).1 (view hash s.map)))
  ]
