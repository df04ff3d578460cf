-- ===== src/Repl/Handshake/Resyncing.antt =====
-- A follower that starts anew: its log is empty then, unless it could not be emptied.
use key_value_store.Common.{
  ℕ, ◌≡◌, refl, sym, ap, ◌∙◌, Bool, true, false, ◌&&◌, not, [], ◌∷◌, ◌++◌, Option, some, none,
  Bytes, if◌then◌else◌, arith, if_cases, if_elim, add64,
}
use key_value_store.Net.Lines.{newline}
use key_value_store.Repl.Follower.{Follower, begin_full_resync, with_store}
use key_value_store.Repl.Handshake.{Link, ResyncIo, full_resync, save_leader_token}
use key_value_store.Store.Engine.Applier.{abandon_open_transaction}
use key_value_store.Store.ShardedMap.{clear}
use key_value_store.Store.Engine.{with_map, with_log, Store, log_offset, reset_for_full_resync}
use key_value_store.Wal.Log.{Outcome, returned, threw, Log, truncate_all}

-- What a handshake comes to for the follower, where the leader sends from `start`.
abbrev pub AgreesIf : ResyncIo → ℕ → Bool × Bool × Link → Type 0
AgreesIf io start (true, full, l) = start ≡ log_offset l.follower.applier.store
AgreesIf io start (false, full, l) = (io.truncate_ok && io.sync_ok) ≡ false

-- An emptied log has the offset 0.
abbrev EmptiesIf {ℓ} : {A : Type ℓ} → ResyncIo → Outcome A × Log → Type 0
EmptiesIf io (returned u, log) = log.offset ≡ 0
EmptiesIf io (threw error, log) = (io.truncate_ok && io.sync_ok) ≡ false

truncate_all-Empties :
    (io : ResyncIo) (log : Log) → EmptiesIf io (truncate_all io.truncate_ok io.sync_ok log)
unfolding truncate_all
truncate_all-Empties io log =
    if_cases (EmptiesIf io) (not io.truncate_ok) (λ e. ground (arith, e))
      (λ e. if_cases (EmptiesIf io) (not io.sync_ok) (λ e'. ground (arith, e, e')) (λ e'. refl))

abbrev ResetsIf {ℓ} : {A : Type ℓ} → ResyncIo → Outcome A × Store → Type 0
ResetsIf io (returned u, s) = log_offset s ≡ 0
ResetsIf io (threw error, s) = (io.truncate_ok && io.sync_ok) ≡ false

emptied {ℓ} :
    {A : Type ℓ} (io : ResyncIo) (y : Outcome A × Log) (s : Store)
    → EmptiesIf io y
    → ResetsIf io (y.0, with_log y.1 s)
unfolding log_offset
emptied io (returned u, log) s x = x
emptied io (threw error, log) s x = x

reset_for_full_resync-Resets :
    (io : ResyncIo) (s : Store) → ResetsIf io (reset_for_full_resync io.truncate_ok io.sync_ok s)
unfolding reset_for_full_resync log_offset
reset_for_full_resync-Resets io s = with_logged s.log refl
  where
    with_logged :
        (o : Option Log)
        → s.log ≡ o
        → ResetsIf io (reset_for_full_resync io.truncate_ok io.sync_ok s)
    with_logged none e = rw (e) refl
    with_logged (some log) e = rw (e) (
        emptied io (truncate_all io.truncate_ok io.sync_ok log) (with_map (clear s.map) s)
          (truncate_all-Empties io log))

abbrev BeginsIf : ResyncIo → Bool × Follower → Type 0
BeginsIf io (true, f) = log_offset f.applier.store ≡ 0
BeginsIf io (false, f) = (io.truncate_ok && io.sync_ok) ≡ false

begin_full_resync-Begins :
    (io : ResyncIo) (f : Follower) → BeginsIf io (begin_full_resync io.truncate_ok io.sync_ok f)
unfolding begin_full_resync abandon_open_transaction
begin_full_resync-Begins io f =
    begun (reset_for_full_resync io.truncate_ok io.sync_ok f.applier.store)
      (reset_for_full_resync-Resets io f.applier.store)
  where
    begun :
        (y : Outcome (Unit {0}) × Store)
        → ResetsIf io y
        → BeginsIf io (elim y.0 as (λ (_ : Outcome (Unit {0})). Bool × Follower) [
          | threw error ↦ (false, with_store y.1 f)
          | returned u ↦ (
            true,
            record (with_store y.1 f) {
              applier = abandon_open_transaction (with_store y.1 f).applier;
            },
          )
        ])
    begun (threw error, s) x = x
    begun (returned u, s) x = x

save_leader_token_keeps :
    (ok : Bool) (token : Bytes) (l : Link) → (save_leader_token ok token l).follower ≡ l.follower
unfolding save_leader_token
save_leader_token_keeps ok token l =
    elim l.state_file
      as (λ o.
        (elim o as (λ (_ : Option Bytes). Link) [
          | none ↦ l
          | some text ↦
              if not ok then l else record l { state_file = some (token ++ (newline ∷ [])) }
        ]).follower
        ≡ l.follower) [
          | none ↦ refl
          | some text ↦
              if_elim (λ (z : Link). z.follower ≡ l.follower) (not ok) {x = l}
                {y = record l { state_file = some (token ++ (newline ∷ [])) }} refl refl
        ]

pub full_resync-Agrees :
    (io : ResyncIo) (token : Bytes) (l : Link) → AgreesIf io 0 (full_resync io token l)
unfolding full_resync
full_resync-Agrees io token l =
    resynced (begin_full_resync io.truncate_ok io.sync_ok l.follower)
      (begin_full_resync-Begins io l.follower)
  where
    resynced :
        (y : Bool × Follower)
        → BeginsIf io y
        → AgreesIf io 0 (
            if not y.0
            then (false, true, record l { follower = y.1; full_resyncs = add64 l.full_resyncs 1 })
            else (
              true,
              true,
              save_leader_token io.save_ok token
                  (record l { follower = y.1; full_resyncs = add64 l.full_resyncs 1 }),
            ))
    resynced (true, f) x = sym (
        ap (λ (g : Follower). log_offset g.applier.store)
          (save_leader_token_keeps io.save_ok token
            (record l { follower = f; full_resyncs = add64 l.full_resyncs 1 }))
        ∙ x)
    resynced (false, f) x = x
