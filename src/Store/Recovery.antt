-- ===== src/Store/Recovery.antt =====
-- Recovery: the writes of a store as records of its log, and what a crash leaves of them.
pub mod Records
pub mod Cut
pub mod Running
pub mod Crash
pub mod Compacted
use key_value_store.Common.{
  Bool, true, false, ◌^◌, ℕ, suc, ◌+◌, ◌-◌, ◌<◌, ◌≡◌, List, [], ◌∷◌, ◌++◌, Bytes, length, leb,
  if◌then◌else◌, All,
}
use key_value_store.Store.Mutation.{Mutation}
use key_value_store.Store.ShardedMap.{ShardedMap, map_set, map_del, apply_atomically}
use key_value_store.Store.Engine.{
  Store, command_of, transaction_payloads, store_set, store_del, commit_transaction,
}
use key_value_store.Wal.Log.{Io, Outcome, returned, threw}
use key_value_store.Protocol.Commands.{set_command, del_command, serialize, to_mutation}
use key_value_store.Protocol.Commands.RoundTrip.{Fits}

-- What changes a store: a `SET`, a `DEL`, or the commit of a transaction that is not empty.
pub data Write : Type 0 where
  put : Bytes → Bytes → Write
  remove : Bytes → Write
  commit : ℕ → Mutation → List Mutation → Write

abbrev pub is_returned {ℓ} : {A : Type ℓ} → Outcome A → Bool
is_returned (returned a) = true
is_returned (threw error) = false

unfoldable pub records : Write → List Bytes
records (put key value) = serialize (set_command key value) ∷ []
records (remove key) = serialize (del_command key) ∷ []
records (commit txn_id mutation l) = transaction_payloads txn_id (mutation ∷ l)

unfoldable pub journal : List Write → List Bytes
journal [] = []
journal (w ∷ ws) = records w ++ journal ws

-- The mutations that `Transaction` makes, with sizes that a length field can hold.
abbrev pub IsSound : Mutation → Type 0
IsSound mutation = Fits (command_of mutation) × (to_mutation (command_of mutation) ≡ mutation)

abbrev pub IsWritable : Write → Type 0
IsWritable (put key value) = Fits (set_command key value)
IsWritable (remove key) = Fits (del_command key)
IsWritable (commit txn_id mutation l) = (txn_id < 2 ^ 64) × All IsSound (mutation ∷ l)

-- How many writes have all their records among the first `i`.
unfoldable pub whole_writes : ℕ → List Write → ℕ
whole_writes i [] = 0
whole_writes i (w ∷ ws) =
    let rest = whole_writes (i - length (records w)) ws in
    if leb (length (records w)) i then suc rest else 0

module _ (hash : Bytes → ℕ) where
  -- What a write does to the map of a store.
  unfoldable pub run : Write → ShardedMap → ShardedMap
  run (put key value) m = map_set hash key value m
  run (remove key) m = (map_del hash key m).1
  run (commit txn_id mutation l) m = apply_atomically hash (mutation ∷ l) m

  unfoldable pub run_all : List Write → ShardedMap → ShardedMap
  run_all [] m = m
  run_all (w ∷ ws) m = run_all ws (run w m)

  -- A write as a client asks for it: whether it succeeded, and the store.
  unfoldable pub perform : Io → Write → Store → Bool × Store
  perform io (put key value) s =
      let (outcome, s') = store_set hash io key value s in (is_returned outcome, s')
  perform io (remove key) s =
      let (outcome, s') = store_del hash io key s in (is_returned outcome, s')
  perform io (commit txn_id mutation l) s = commit_transaction hash io txn_id (mutation ∷ l) s
