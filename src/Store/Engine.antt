-- ===== src/Store/Engine.antt =====
-- src/store/store.cpp: the store, which writes to the log first and then to the map. An operation
-- takes the answers of its system calls, and an exception of the log is `threw`. The calls that the
-- store makes of its replicator are kept in order, newest first. The counters have 64 bits.
pub mod Applier
pub mod Endings
use key_value_store.Common.{
  ℕ, zero, suc, ◌+◌, Bool, true, false, List, [], ◌∷◌, ◌++◌, Option, none, some, Bytes, length,
  if◌then◌else◌, not, add64, is_some, map,
}
use key_value_store.Store.Mutation.{Mutation}
use key_value_store.Store.ShardedMap.{
  LockMode, ShardedMap, new_map, snapshot, clear, map_get, map_set, map_del, get_many,
  apply_atomically,
}
use key_value_store.Wal.Log.{
  FsyncMode, Outcome, returned, threw, Io, Log, open_log, append, append_batch, truncate_all,
  reopen_after_compaction,
}
use key_value_store.Wal.Replay.{ReplayResult, no_replay}
use key_value_store.Wal.Compaction.{CompactionIo, CompactionResult, no_compaction, no_log, rewrite}
use key_value_store.Protocol.Commands.{
  Command, set_command, del_command, serialize, serialize_begin_marker, serialize_commit_marker,
}

pub data ReplicatorCall : Type 0 where
  on_append : ℕ → ReplicatorCall
  on_log_replaced : ReplicatorCall

pub record Store : Type 0 where
  pub map : ShardedMap
  pub log : Option Log
  pub recovery : ReplayResult
  pub recovery_discarded_transaction : Bool
  pub replicator : Option (List ReplicatorCall)
  pub read_only : Bool
  pub hits : ℕ
  pub misses : ℕ
  pub writes : ℕ
  pub next_txn_id : ℕ
  pub txn_committed : ℕ
  pub txn_rolled_back : ℕ

-- The constructor of a store without a log, and of one whose log is not recovered yet.
unfoldable pub new_store : LockMode → ℕ → ℕ → Bool → Store
new_store mode shard_count max_memory read_only = record {
  map = new_map mode shard_count max_memory;
  log = none;
  recovery = no_replay;
  recovery_discarded_transaction = false;
  replicator = none;
  read_only = read_only;
  hits = 0;
  misses = 0;
  writes = 0;
  next_txn_id = 1;
  txn_committed = 0;
  txn_rolled_back = 0;
}

abbrev pub notify : ReplicatorCall → Store → Store
notify call s = record s {
  replicator = elim s.replicator [ none ↦ none | some calls ↦ some (call ∷ calls) ];
}

abbrev pub count_writes : ℕ → Store → Store
count_writes n s = record s { writes = add64 s.writes n }

abbrev pub with_map : ShardedMap → Store → Store
with_map m s = record s { map = m }

abbrev pub with_log : Log → Store → Store
with_log log s = record s { log = some log }

abbrev pub count_commit : Store → Store
count_commit s = record s { txn_committed = add64 s.txn_committed 1 }

-- What `commitTransaction` and `Transaction` log a mutation as.
unfoldable pub command_of : Mutation → Command
command_of mutation =
    if mutation.erase then del_command mutation.key else set_command mutation.key mutation.value

-- The payloads of a transaction.
unfoldable pub transaction_payloads : ℕ → List Mutation → List Bytes
transaction_payloads txn_id mutations =
    serialize_begin_marker txn_id
    ∷ (map (λ mutation. serialize (command_of mutation)) mutations
        ++ (serialize_commit_marker txn_id ∷ []))

-- `count` hits or misses, one for each result of `getMany`.
unfoldable pub count_results : List (Bool × Bytes) → Store → Store
count_results [] s = s
count_results ((true, value) ∷ results) s =
    count_results results (record s { hits = add64 s.hits 1 })
count_results ((false, value) ∷ results) s =
    count_results results (record s { misses = add64 s.misses 1 })

unfoldable pub next_transaction_id : Store → ℕ × Store
next_transaction_id s = (s.next_txn_id, record s { next_txn_id = add64 s.next_txn_id 1 })

unfoldable pub note_rollback : Store → Store
note_rollback s = record s { txn_rolled_back = add64 s.txn_rolled_back 1 }

unfoldable pub log_offset : Store → ℕ
log_offset s = elim s.log [ none ↦ 0 | some log ↦ log.offset ]

-- The rest of a write whose record is in the log, or not: `write` is what it does to the store.
unfoldable pub after_append {ℓ} :
    {A : Type ℓ} → Outcome ℕ × Log → A → (Store → Store) → Store → Outcome A × Store
after_append (threw error, log) result write s = (threw error, with_log log s)
after_append (returned end_offset, log) result write s =
    (returned result, notify (on_append end_offset) (write (with_log log s)))

-- A write: to the log first, when there is one, and then to the map.
unfoldable pub log_and_write {ℓ} :
    {A : Type ℓ}
    → Option Log
    → (Log → Outcome ℕ × Log)
    → A
    → (Store → Store)
    → Store
    → Outcome A × Store
log_and_write none append_to result write s = (returned result, write s)
log_and_write (some log) append_to result write s = after_append (append_to log) result write s

-- The exception of a failed append is caught.
unfoldable pub caught : Outcome Bool × Store → Bool × Store
caught (returned ok, s) = (ok, s)
caught (threw error, s) = (false, s)

unfoldable pub append_replicated_records : Io → List Bytes → Store → Outcome ℕ × Store
append_replicated_records io payloads s = elim s.log [
  | none ↦ (returned 0, s)
  | some log ↦ let (outcome, log') = append_batch io payloads log in (outcome, with_log log' s)
]

-- `truncateAll` and its two answers.
unfoldable pub reset_for_full_resync : Bool → Bool → Store → Outcome (Unit {0}) × Store
reset_for_full_resync truncate_ok sync_ok s =
    let s' = with_map (clear s.map) s in
    elim s.log [
      | none ↦ (returned tt, s')
      | some log ↦
          let (outcome, log') = truncate_all truncate_ok sync_ok log in (outcome, with_log log' s')
    ]

-- The reopening of the log after a compaction, with the answers of `open` and `lseek`.
unfoldable pub after_rewrite :
    Bool → Bool → Log → CompactionResult × Bytes → Store → Outcome CompactionResult × Store
after_rewrite open_ok lseek_ok log (result, file) s =
    let (outcome, log') = reopen_after_compaction open_ok lseek_ok file log in
    if not result.ok then (returned result, s) else elim outcome [
      | threw error ↦ (threw error, with_log log' s)
      | returned u ↦ (returned result, notify on_log_replaced (with_log log' s))
    ]

unfoldable pub compact : CompactionIo → Bool → Bool → Store → Outcome CompactionResult × Store
compact io open_ok lseek_ok s = elim s.log [
  | none ↦ (returned (record no_compaction { error = some no_log }), s)
  | some log ↦ after_rewrite open_ok lseek_ok log (rewrite io (snapshot s.map) log.file) s
]

module _ (hash : Bytes → ℕ) where
  unfoldable pub store_get : Bytes → Store → Option Bytes × Store
  store_get key s =
      let (found, m) = map_get hash key s.map in
      if is_some found
      then (found, record s { map = m; hits = add64 s.hits 1 })
      else (found, record s { map = m; misses = add64 s.misses 1 })

  unfoldable pub store_get_many : List Bytes → Store → List (Bool × Bytes) × Store
  store_get_many keys s =
      let (results, m) = get_many hash keys s.map in (results, count_results results (with_map m s))

  -- The part of `set` and of `applyFromLog` that changes the map.
  unfoldable pub apply_from_log : Bytes → Bytes → Store → Store
  apply_from_log key value s = with_map (map_set hash key value s.map) s

  unfoldable pub erase_from_log : Bytes → Store → Store
  erase_from_log key s = with_map (map_del hash key s.map).1 s

  unfoldable pub store_set : Io → Bytes → Bytes → Store → Outcome (Unit {0}) × Store
  store_set io key value s =
      log_and_write s.log (append io (serialize (set_command key value))) tt
        (λ s'. count_writes 1 (apply_from_log key value s')) s

  unfoldable pub store_del : Io → Bytes → Store → Outcome Bool × Store
  store_del io key s =
      log_and_write s.log (append io (serialize (del_command key))) (map_del hash key s.map).0
        (λ s'. count_writes 1 (erase_from_log key s')) s

  unfoldable pub apply_transaction_from_log : List Mutation → Store → Store
  apply_transaction_from_log [] s = count_commit s
  apply_transaction_from_log (mutation ∷ l) s = count_commit (
      count_writes (length (mutation ∷ l))
        (with_map (apply_atomically hash (mutation ∷ l) s.map) s))

  unfoldable pub commit_transaction : Io → ℕ → List Mutation → Store → Bool × Store
  commit_transaction io txn_id [] s = (true, count_commit s)
  commit_transaction io txn_id (mutation ∷ l) s = caught (
      log_and_write s.log (append_batch io (transaction_payloads txn_id (mutation ∷ l))) true
        (apply_transaction_from_log (mutation ∷ l)) s)
