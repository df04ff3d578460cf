-- ===== src/Store/Engine/Applier.antt =====
-- src/store/record_applier.cpp, and the recovery of src/store/store.cpp that uses it.
use key_value_store.Common.{
  ℕ, Bool, true, false, ◌||◌, ◌==◌, List, [], ◌∷◌, ◌++◌, Option, none, some, Bytes, if◌then◌else◌,
  not, add64,
}
use key_value_store.Store.Mutation.{Mutation}
use key_value_store.Store.Engine.{
  Store, new_store, with_log, apply_from_log, erase_from_log, apply_transaction_from_log,
}
use key_value_store.Store.ShardedMap.{LockMode}
use key_value_store.Wal.Log.{FsyncMode, Outcome, returned, threw, open_log}
use key_value_store.Wal.Replay.{ReplayIo, replay}
use key_value_store.Protocol.Commands.{
  Command, set_command, del_command, to_mutation, parse_begin_marker, parse_commit_marker,
  deserialize_command,
}

-- The applier and the store that it refers to.
pub record Applier : Type 0 where
  pub store : Store
  pub pending : List Mutation
  pub inside_transaction : Bool
  pub open_txn_id : ℕ
  pub records_applied : ℕ
  pub transactions_applied : ℕ

unfoldable pub new_applier : Store → Applier
new_applier s = record {
  store = s;
  pending = [];
  inside_transaction = false;
  open_txn_id = 0;
  records_applied = 0;
  transactions_applied = 0;
}

unfoldable pub begin_record : ℕ → Applier → Bool × Applier
begin_record txn_id a = if a.inside_transaction then (false, a) else (
  true,
  record a {
    inside_transaction = true;
    open_txn_id = txn_id;
    pending = [];
    records_applied = add64 a.records_applied 1;
  },
)

unfoldable pub abandon_open_transaction : Applier → Applier
abandon_open_transaction a = record a { pending = []; inside_transaction = false; open_txn_id = 0 }

module _ (hash : Bytes → ℕ) where
  unfoldable pub commit_record : ℕ → Applier → Bool × Applier
  commit_record txn_id a =
      if not a.inside_transaction || not (txn_id == a.open_txn_id) then (false, a) else (
        true,
        record a {
          store = apply_transaction_from_log hash a.pending a.store;
          pending = [];
          inside_transaction = false;
          transactions_applied = add64 a.transactions_applied 1;
          records_applied = add64 a.records_applied 1;
        },
      )

  -- `command->apply(store_)`
  unfoldable pub apply_command : Command → Store → Store
  apply_command (set_command key value) s = apply_from_log hash key value s
  apply_command (del_command key) s = erase_from_log hash key s

  unfoldable pub command_record : Command → Applier → Bool × Applier
  command_record command a =
      let count = add64 a.records_applied 1 in
      if a.inside_transaction
      then (
        true,
        record a { pending = a.pending ++ (to_mutation command ∷ []); records_applied = count },
      )
      else (true, record a { store = apply_command command a.store; records_applied = count })

  unfoldable pub apply : Bytes → Applier → Bool × Applier
  apply payload a = elim (parse_begin_marker payload) [
    | some txn_id ↦ begin_record txn_id a
    | none ↦ elim (parse_commit_marker payload) [
      | some txn_id ↦ commit_record txn_id a
      | none ↦ elim (deserialize_command payload) [
        | none ↦ (false, a)
        | some command ↦ command_record command a
      ]
    ]
  ]

  -- `recoverFromLog`: what `replay` throws ends the constructor.
  unfoldable pub recover_from_log : ReplayIo → Option Bytes → Store → Outcome Store × Option Bytes
  recover_from_log io file s =
      let (outcome, a, file') = replay apply io file (new_applier s) in
      elim outcome [
        | threw error ↦ (threw error, file')
        | returned result ↦ (
          returned (record a.store {
            recovery = result;
            recovery_discarded_transaction = a.inside_transaction;
          }),
          file',
        )
      ]

  -- The constructor of a store with a log, over the file at `path`.
  unfoldable pub open_store :
      ReplayIo
      → Bytes
      → FsyncMode
      → LockMode
      → ℕ
      → ℕ
      → Bool
      → Option Bytes
      → Outcome Store × Option Bytes
  open_store io path fsync_mode mode shard_count max_memory read_only file =
      let (outcome, file') =
        recover_from_log io file (new_store mode shard_count max_memory read_only) in
      elim outcome [
        | threw error ↦ (threw error, file')
        | returned s ↦
            let bytes : Bytes = elim file' [ none ↦ [] | some b ↦ b ] in
            (returned (with_log (open_log path fsync_mode bytes) s), some bytes)
      ]
