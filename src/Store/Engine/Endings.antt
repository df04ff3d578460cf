-- ===== src/Store/Engine/Endings.antt =====
-- How the writes of the store end, for what the map and the read-only flag are to be.
use key_value_store.Common.{
  sym, subst, Option-cases, ◌⊎◌, inl, inr, if_elim, not, ℕ, Bool, true, false, [], ◌∷◌, List,
  Option, none, some, Bytes, ◌≡◌, refl, ap,
}
use key_value_store.Store.Mutation.{Mutation}
use key_value_store.Store.ShardedMap.{snapshot, ShardedMap, map_set, map_del, apply_atomically}
use key_value_store.Store.Engine.{
  compact, after_rewrite, Store, log_and_write, after_append, with_log, caught, store_set,
  store_del, count_writes, apply_from_log, erase_from_log, transaction_payloads,
  apply_transaction_from_log, commit_transaction,
}
use key_value_store.Protocol.Commands.{set_command, del_command, serialize}
use key_value_store.Wal.Compaction.{CompactionIo, CompactionResult, no_compaction, no_log, rewrite}
use key_value_store.Wal.Log.{
  LogError, reopen_after_compaction, Outcome, returned, threw, Io, Log, append, append_batch,
}

module _ {ℓ} {A : Type ℓ} (P : Outcome A → ShardedMap → Bool → Type 0) (result : A)
    (write : Store → Store) (new : ShardedMap) (s : Store)
    (new_map : (t : Store) → t.map ≡ s.map → (write t).map ≡ new)
    (same_mode : (t : Store) → (write t).read_only ≡ t.read_only)
    (done : P (returned result) new s.read_only)
    (failed : (e : _) → P (threw e) s.map s.read_only) where
  written :
      (t : Store)
      → t.map ≡ s.map
      → t.read_only ≡ s.read_only
      → P (returned result) (write t).map (write t).read_only
  written t e e' = rw (new_map t e, same_mode t, e') done

  after_append_ends :
      (x : Outcome ℕ × Log) → let r = after_append x result write s in P r.0 r.1.map r.1.read_only
  unfolding after_append
  after_append_ends (returned offset, log) = written (with_log log s) refl refl
  after_append_ends (threw e, log) = failed e

  log_and_write_ends :
      (o : Option Log) (append_to : Log → Outcome ℕ × Log)
      → let r = log_and_write o append_to result write s in P r.0 r.1.map r.1.read_only
  unfolding log_and_write
  log_and_write_ends none append_to = written s refl refl
  log_and_write_ends (some log) append_to = after_append_ends (append_to log)

module _ (hash : Bytes → ℕ) (io : Io) (s : Store) where
  pub store_set_ends :
      (P : Outcome (Unit {0}) → ShardedMap → Bool → Type 0) (key value : Bytes)
      → P (returned tt) (map_set hash key value s.map) s.read_only
      → ((e : _) → P (threw e) s.map s.read_only)
      → let r = store_set hash io key value s in P r.0 r.1.map r.1.read_only
  unfolding store_set apply_from_log
  store_set_ends P key value done failed =
      log_and_write_ends P tt (λ s'. count_writes 1 (apply_from_log hash key value s'))
        (map_set hash key value s.map) s (λ t e. ap (map_set hash key value) e) (λ t. refl) done
        failed s.log (append io (serialize (set_command key value)))

  pub store_del_ends :
      (P : Outcome Bool → ShardedMap → Bool → Type 0) (key : Bytes)
      → P (returned (map_del hash key s.map).0) (map_del hash key s.map).1 s.read_only
      → ((e : _) → P (threw e) s.map s.read_only)
      → let r = store_del hash io key s in P r.0 r.1.map r.1.read_only
  unfolding store_del erase_from_log
  store_del_ends P key done failed =
      log_and_write_ends P (map_del hash key s.map).0
        (λ s'. count_writes 1 (erase_from_log hash key s')) (map_del hash key s.map).1 s
        (λ t e. ap (λ m. (map_del hash key m).1) e) (λ t. refl) done failed s.log
        (append io (serialize (del_command key)))

-- What is to hold where an exception is told from `true` by `caught`.
abbrev Caught : (Bool → ShardedMap → Bool → Type 0) → Outcome Bool → ShardedMap → Bool → Type 0
Caught P (returned ok) = P ok
Caught P (threw e) = P false

caught_ends :
    (P : Bool → ShardedMap → Bool → Type 0) (r : Outcome Bool × Store)
    → Caught P r.0 r.1.map r.1.read_only
    → P (caught r).0 (caught r).1.map (caught r).1.read_only
unfolding caught
caught_ends P (returned ok, s) p = p
caught_ends P (threw e, s) p = p

-- A commit ends with the whole batch in the map, or with the map as before.
pub commit_transaction_ends :
    (hash : Bytes → ℕ) (io : Io) (s : Store) (P : Bool → ShardedMap → Bool → Type 0) (txn_id : ℕ)
    (l : List Mutation)
    → P true (apply_atomically hash l s.map) s.read_only
    → P false s.map s.read_only
    → let r = commit_transaction hash io txn_id l s in P r.0 r.1.map r.1.read_only
unfolding commit_transaction apply_atomically
commit_transaction_ends hash io s P txn_id [] done failed = done
commit_transaction_ends hash io s P txn_id (mutation ∷ l) done failed = caught_ends P _ (
    log_and_write_ends (Caught P) true (apply_transaction_from_log hash (mutation ∷ l))
      (apply_atomically hash (mutation ∷ l) s.map) s
      (λ t e. unfold apply_transaction_from_log in (ap (apply_atomically hash (mutation ∷ l)) e))
      (λ t. unfold apply_transaction_from_log in refl) done (λ e. failed) s.log
      (append_batch io (transaction_payloads txn_id (mutation ∷ l))))

pub Outcome-cases {ℓ} :
    {A : Type ℓ} (x : Outcome A) → ((a : A) × (x ≡ returned a)) ⊎ ((e : LogError) × (x ≡ threw e))
Outcome-cases (returned a) = inl (a, refl)
Outcome-cases (threw e) = inr (e, refl)

-- What a compaction leaves alone.
abbrev pub Keeps : Store → Store → Type 0
Keeps s s' = (s'.map ≡ s.map) × (s'.read_only ≡ s.read_only)

after_rewrite-Keeps :
    (open_ok lseek_ok : Bool) (log : Log) (result : CompactionResult) (file : Bytes) (s : Store)
    → Keeps s (after_rewrite open_ok lseek_ok log (result, file) s).1
unfolding after_rewrite
after_rewrite-Keeps open_ok lseek_ok log result file s =
    if_elim (λ (x : Outcome CompactionResult × Store). Keeps s x.1) (not result.ok) (refl, refl)
      (elim (Outcome-cases (reopen_after_compaction open_ok lseek_ok file log).0) [
        | inl (u, e) ↦ rw e (refl, refl)
        | inr (error, e) ↦ rw e (refl, refl)
      ])

pub compact-Keeps :
    (io : CompactionIo) (open_ok lseek_ok : Bool) (s : Store)
    → Keeps s (compact io open_ok lseek_ok s).1
unfolding compact
compact-Keeps io open_ok lseek_ok s = elim (Option-cases s.log) [
  | inl e ↦ rw (e, compact) (refl, refl)
  | inr (log, e) ↦
      subst
        (λ o.
          Keeps s
            (elim o as (λ (_ : Option Log). Outcome CompactionResult × Store) [
              | none ↦ (returned (record no_compaction { error = some no_log }), s)
              | some log ↦
                  after_rewrite open_ok lseek_ok log (rewrite io (snapshot s.map) log.file) s
            ]).1)
        (sym e) (after_rewrite-Keeps open_ok lseek_ok log _ _ s)
]
