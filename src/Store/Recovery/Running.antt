-- ===== src/Store/Recovery/Running.antt =====
-- The writes of a running store, in each of their endings, and the tie between its log and its map.
use key_value_store.Common.{
  ℕ, ◌≡◌, refl, sym, subst, Bool, true, false, [], ◌∷◌, ◌++◌, Option, none, some, Bytes, take,
  arith, append-nil,
}
use key_value_store.Store.ShardedMap.{ShardedMap, apply_atomically, map_del, map_set}
use key_value_store.Protocol.Commands.{set_command, del_command, serialize}
use key_value_store.Store.Engine.{
  Store, log_and_write, after_append, count_writes, with_log, caught, store_set, store_del,
  commit_transaction, apply_from_log, erase_from_log, apply_transaction_from_log,
  transaction_payloads,
}
use key_value_store.Store.Recovery.{Write, put, remove, commit, is_returned, perform, records, run}
use key_value_store.Wal.Log.{Outcome, returned, threw, Io, Log, append, append_batch, frames}
use key_value_store.Wal.Log.Appending.{
  IsAppended, appended, unsynced, torn, append-IsAppended, append_batch-IsAppended,
}
use key_value_store.Wal.Record.{frame}

-- How a write of `blob` to the log ends: it succeeds, and log and map have it; or it fails, and the
-- map is as before, with all or a first part of the bytes in the log.
pub data Ends (blob : Bytes) (log : Log) (old new : ShardedMap) (ok : Bool) (s : Store)
    : Type 0 where
  done :
      (after : Log)
      → ok ≡ true
      → s.log ≡ some after
      → after.file ≡ log.file ++ blob
      → s.map ≡ new
      → Ends blob log old new ok s
  logged_only :
      (after : Log)
      → ok ≡ false
      → s.log ≡ some after
      → after.file ≡ log.file ++ blob
      → s.map ≡ old
      → Ends blob log old new ok s
  cut :
      (after : Log) (count : ℕ)
      → ok ≡ false
      → s.log ≡ some after
      → after.file ≡ log.file ++ take count blob
      → s.map ≡ old
      → Ends blob log old new ok s

module _ {ℓ} {A : Type ℓ} (result : A) (write : Store → Store) (s : Store) (log : Log)
    (new : ShardedMap) (same_log : (t : Store) → (write t).log ≡ t.log)
    (new_map : (after : Log) → (write (with_log after s)).map ≡ new) where
  after_append-Ends :
      (blob : Bytes) (x : Outcome ℕ × Log)
      → IsAppended blob log x
      → Ends blob log s.map new
          (is_returned (after_append x result write s).0)
          (after_append x result write s).1
  unfolding after_append
  after_append-Ends blob (returned offset, after) (appended e file o) =
      done after refl (same_log (with_log after s)) file (new_map after)
  after_append-Ends blob (returned offset, after) (unsynced e file) = ground (arith, e)
  after_append-Ends blob (returned offset, after) (torn count e file) = ground (arith, e)
  after_append-Ends blob (threw error, after) (appended e file o) = ground (arith, e)
  after_append-Ends blob (threw error, after) (unsynced e file) =
      logged_only after refl refl file refl
  after_append-Ends blob (threw error, after) (torn count e file) =
      cut after count refl refl file refl

  log_and_write-Ends :
      (append_to : Log → Outcome ℕ × Log) (blob : Bytes)
      → s.log ≡ some log
      → IsAppended blob log (append_to log)
      → Ends blob log s.map new
          (is_returned (log_and_write s.log append_to result write s).0)
          (log_and_write s.log append_to result write s).1
  unfolding log_and_write
  log_and_write-Ends append_to blob logged x =
      subst
        (λ o.
          Ends blob log s.map new (is_returned (log_and_write o append_to result write s).0)
            (log_and_write o append_to result write s).1)
        (sym logged) (after_append-Ends blob (append_to log) x)

-- The `catch` of `commitTransaction` tells a failed append by its result.
caught_append :
    (x : Outcome ℕ × Log) (write : Store → Store) (s : Store)
    → ((caught (after_append x true write s)).0 ≡ is_returned (after_append x true write s).0)
      × ((caught (after_append x true write s)).1 ≡ (after_append x true write s).1)
unfolding caught after_append
caught_append (returned offset, after) write s = (refl, refl)
caught_append (threw error, after) write s = (refl, refl)

caught_lem :
    (o : Option Log) (append_to : Log → Outcome ℕ × Log) (write : Store → Store) (s : Store)
    → ((caught (log_and_write o append_to true write s)).0
        ≡ is_returned (log_and_write o append_to true write s).0)
      × ((caught (log_and_write o append_to true write s)).1
          ≡ (log_and_write o append_to true write s).1)
unfolding log_and_write
caught_lem none append_to write s = (unfold caught in refl, unfold caught in refl)
caught_lem (some log) append_to write s = caught_append (append_to log) write s

append_one : (io : Io) (p : Bytes) (log : Log) → IsAppended (frames (p ∷ [])) log (append io p log)
unfolding frames
append_one io p log =
    subst (λ b. IsAppended b log (append io p log)) (sym (append-nil (frame p)))
      (append-IsAppended io p log)

module _ (hash : Bytes → ℕ) where
  -- Every `SET`, `DEL` or commit of a store with a log ends in one of three ways: it succeeds, the
  -- log has all of its bytes and the map its effect; or it fails with the map as before and all of
  -- its bytes in the log; or it fails with the map as before and a first part of its bytes in the
  -- log.
  pub perform-Ends :
      (io : Io) (w : Write) (s : Store) (log : Log)
      → s.log ≡ some log
      → Ends
          (frames (records w))
          log
          s.map
          (run hash w s.map)
          (perform hash io w s).0
          (perform hash io w s).1
  unfolding perform run records store_set store_del commit_transaction
  perform-Ends io (put key value) s log logged =
      log_and_write-Ends tt (λ s'. count_writes 1 (apply_from_log hash key value s')) s log
        (map_set hash key value s.map) (λ t. unfold apply_from_log in refl)
        (λ after. unfold apply_from_log in refl) (append io (serialize (set_command key value))) _
        logged (append_one io (serialize (set_command key value)) log)
  perform-Ends io (remove key) s log logged =
      log_and_write-Ends (map_del hash key s.map).0
        (λ s'. count_writes 1 (erase_from_log hash key s')) s log (map_del hash key s.map).1
        (λ t. unfold erase_from_log in refl) (λ after. unfold erase_from_log in refl)
        (append io (serialize (del_command key))) _ logged
        (append_one io (serialize (del_command key)) log)
  perform-Ends io (commit txn_id mu l) s log logged =
      let append_to : Log → Outcome ℕ × Log =
        append_batch io (transaction_payloads txn_id (mu ∷ l)) in
      let write : Store → Store = apply_transaction_from_log hash (mu ∷ l) in
      let (same, same') = caught_lem s.log append_to write s in
      let ends =
        log_and_write-Ends true write s log (apply_atomically hash (mu ∷ l) s.map)
          (λ t. unfold apply_transaction_from_log in refl)
          (λ after. unfold apply_transaction_from_log in refl) append_to
          (frames (transaction_payloads txn_id (mu ∷ l))) logged
          (unfold transaction_payloads in append_batch-IsAppended io _ _ log) in
      rw (same, same') ends
