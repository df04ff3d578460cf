-- ===== src/Tests/Recoveries.antt =====
-- Tests of a running store, of its recovery and of a transaction.
use key_value_store.Common.{
  ◌≡◌, refl, arith, [], ◌∷◌, ◌++◌, some, length, true, false, leb, if◌then◌else◌, take, All,
}
use key_value_store.Store.ShardedMap.{sharded}
use key_value_store.Store.ShardedMap.Sizing.{new_map-IsValid}
use key_value_store.Store.ShardedMap.Valid.{IsValid, view}
use key_value_store.Store.ShardedMap.Batch.{effect}
use key_value_store.Wal.Record.{frame, little_endian32}
use key_value_store.Wal.Log.{append, write_blob, write_all, sync_if_always, sync_locked}
use key_value_store.Protocol.Commands.{
  to_mutation, serialize, blob_bytes, u32_bytes, serialize_begin_marker, serialize_commit_marker,
  u64_bytes, u64_bytes_from,
}
use key_value_store.Store.Engine.{
  command_of, transaction_payloads, store_set, log_and_write, after_append, Store, new_store,
}
use key_value_store.Store.Recovery.{
  Write, put, commit, records, journal, IsWritable, whole_writes, run, run_all, perform,
}
use key_value_store.Store.Recovery.Cut.{Recovers, recover_from_log-cut}
use key_value_store.Store.Recovery.Running.{Ends, perform-Ends}
use key_value_store.Store.Recovery.Crash.{IsJournaled, perform-IsJournaled, crash_in_write}
use key_value_store.Wal.Log.{frames}
use key_value_store.Wal.Replay.Scanning.{AreSmall}
use key_value_store.Wal.Replay.Cut.{whole_in, Works}
use key_value_store.Transaction.{Transaction, new_transaction, push_mutation, txn_get}
use key_value_store.Transaction.Overlay.{
  IsIndexed, new_transaction-IsIndexed, push_mutation-IsIndexed, txn_get-effect,
}
use key_value_store.Tests.Samples.{
  length_hash, key, value, start, setting, erasing, io, replay_io, empty_log,
}

abbrev pub store : Store
store = record (new_store sharded 4 0 false) { log = some empty_log }

perform-Ends_example :
    Ends
      (frames (records (put key value)))
      empty_log
      store.map
      (run length_hash (put key value) store.map)
      (perform length_hash io (put key value) store).0
      (perform length_hash io (put key value) store).1
perform-Ends_example = perform-Ends length_hash io (put key value) store empty_log refl

journaled : IsJournaled length_hash start [] store
unfolding journal frames run_all new_store
journaled = record { log = empty_log; logged = refl; file = refl; map_is = refl }

succeeds : (perform length_hash io (put key value) store).0 ≡ true
unfolding perform store_set log_and_write append write_blob write_all after_append sync_if_always
    sync_locked new_store frame little_endian32
succeeds = refl

perform-IsJournaled_example :
    IsJournaled length_hash start
      ([] ++ put key value ∷ [])
      (perform length_hash io (put key value) store).1
perform-IsJournaled_example =
    perform-IsJournaled length_hash start [] io (put key value) store journaled succeeds

works : Works replay_io
works = record { opens = refl; reads = refl; reopens = refl; truncates = refl; syncs = refl }

abbrev pub transaction : Write
transaction = commit 7 setting (erasing ∷ [])

pub writable : All IsWritable (transaction ∷ [])
unfolding command_of to_mutation
writable = ((omega arith, (((omega arith, omega arith), refl), ((omega arith, refl), tt))), tt)

pub small : AreSmall (journal (transaction ∷ []))
unfolding journal records transaction_payloads serialize command_of blob_bytes u32_bytes
    serialize_begin_marker serialize_commit_marker u64_bytes u64_bytes_from
small = (omega arith, (omega arith, (omega arith, (omega arith, tt))))

pub same_map : store.map ≡ start
unfolding new_store
same_map = refl

-- The cut is between the begin marker and the commit marker.
crash_in_write_example :
    Recovers length_hash replay_io
      (frames (journal []) ++ take 20 (frames (records transaction)))
      store
      (if leb (length (frames (records transaction))) 20
        then run length_hash transaction store.map
        else store.map)
      (frames (journal [] ++ take (whole_in 20 (records transaction)) (records transaction)))
crash_in_write_example =
    crash_in_write length_hash start [] transaction store store replay_io 20 journaled same_map
      writable small works

recover_from_log-cut_example :
    Recovers length_hash replay_io
      (take 20 (frames (journal (transaction ∷ []))))
      store
      (run_all length_hash
        (take
          (whole_writes (whole_in 20 (journal (transaction ∷ []))) (transaction ∷ []))
          (transaction ∷ []))
        store.map)
      (frames (take (whole_in 20 (journal (transaction ∷ []))) (journal (transaction ∷ []))))
recover_from_log-cut_example =
    recover_from_log-cut length_hash (transaction ∷ []) 20 replay_io store writable small works

abbrev opened : Transaction
opened = (new_transaction store).0

push_mutation-IsIndexed_example : IsIndexed (push_mutation setting opened)
push_mutation-IsIndexed_example =
    push_mutation-IsIndexed setting opened (new_transaction-IsIndexed store)

indexed : IsIndexed (push_mutation setting opened)
indexed = push_mutation-IsIndexed setting opened (new_transaction-IsIndexed store)

store-IsValid : IsValid length_hash store.map
unfolding new_store
store-IsValid = (new_map-IsValid length_hash sharded 4 0 (omega arith)).0

txn_get-effect_example :
    (txn_get length_hash key (push_mutation setting opened) store).0
    ≡ effect (push_mutation setting opened).mutations (view length_hash store.map) key
txn_get-effect_example =
    txn_get-effect length_hash key (push_mutation setting opened) store indexed store-IsValid
