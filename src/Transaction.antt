-- ===== src/Transaction.antt =====
-- src/txn/transaction.cpp: the mutations of a transaction wait until its commit. `latest` gives the
-- index of the last one for a key.
pub mod Overlay
use key_value_store.Common.{
  ℕ, ◌+◌, Bool, true, false, List, [], ◌∷◌, ◌++◌, Option, none, some, Bytes, KeyMap, find, assign,
  length, get_or, if◌then◌else◌, not,
}
use key_value_store.Store.Mutation.{Mutation}
use key_value_store.Store.Engine.{
  Store, next_transaction_id, note_rollback, store_get, commit_transaction,
}
use key_value_store.Wal.Log.{Io}

pub record Transaction : Type 0 where
  pub id : ℕ
  pub mutations : List Mutation
  pub latest : KeyMap ℕ
  pub active : Bool

abbrev pub no_mutation : Mutation
no_mutation = record { erase = false; key = []; value = [] }

-- The constructor.
unfoldable pub new_transaction : Store → Transaction × Store
new_transaction s =
    let (id, s') = next_transaction_id s in
    (record { id = id; mutations = []; latest = []; active = true }, s')

-- `push_back`, and the index of the new mutation.
abbrev pub pushed : Mutation → Transaction → Transaction
pushed mutation t = record t {
  mutations = t.mutations ++ (mutation ∷ []);
  latest = assign mutation.key (length t.mutations) t.latest;
}

unfoldable pub push_mutation : Mutation → Transaction → Transaction
push_mutation mutation t = if not t.active then t else pushed mutation t

unfoldable pub txn_set : Bytes → Bytes → Transaction → Transaction
txn_set key value t = push_mutation (record { erase = false; key = key; value = value }) t

unfoldable pub txn_del : Bytes → Transaction → Transaction
txn_del key t = push_mutation (record { erase = true; key = key; value = [] }) t

abbrev pub emptied : Transaction → Transaction
emptied t = record t { active = false; mutations = []; latest = [] }

unfoldable pub txn_rollback : Transaction → Store → Transaction × Store
txn_rollback t s = if not t.active then (t, s) else (emptied t, note_rollback s)

abbrev pub pending_operations : Transaction → ℕ
pending_operations t = length t.mutations

-- The end of a commit by what the store answers.
unfoldable pub after_commit : Transaction → Bool × Store → Bool × Transaction × Store
after_commit t (ok, s) = if not ok then (false, t, s) else (true, emptied t, s)

module _ (hash : Bytes → ℕ) where
  unfoldable pub txn_get : Bytes → Transaction → Store → Option Bytes × Store
  txn_get key t s = elim (find key t.latest) [
    | none ↦ store_get hash key s
    | some i ↦
        let mutation = get_or t.mutations i no_mutation in
        (if mutation.erase then none else some mutation.value, s)
  ]

  unfoldable pub txn_commit : Io → Transaction → Store → Bool × Transaction × Store
  txn_commit io t s =
      if not t.active
      then (false, t, s)
      else after_commit t (commit_transaction hash io t.id t.mutations s)
