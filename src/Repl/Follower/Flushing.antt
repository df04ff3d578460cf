-- ===== src/Repl/Follower/Flushing.antt =====
-- What a follower makes of the records that it has: they go to its log, and then to its applier.
use key_value_store.Common.{
  ==_iff, ◌⊎◌, ℕ, ◌≡◌, refl, sym, ap, ◌∙◌, subst, inl, inr, Bool, true, false, ◌||◌, not, List, [],
  ◌∷◌, ◌++◌, Option, none, some, Bytes, if◌then◌else◌, arith, Option-cases, add64, ◌==◌, if_cases,
}
use key_value_store.Store.Engine.{
  with_log, Store, append_replicated_records, apply_from_log, erase_from_log,
  apply_transaction_from_log, log_offset,
}
use key_value_store.Store.Engine.Applier.{
  Applier, begin_record, commit_record, command_record, apply_command, apply,
}
use key_value_store.Protocol.Commands.{
  Command, set_command, del_command, parse_begin_marker, parse_commit_marker, deserialize_command,
}
use key_value_store.Store.Mutation.{Mutation}
use key_value_store.Wal.Log.{LogError, Io, Log, Outcome, returned, threw, append_batch, frames}
use key_value_store.Wal.Log.Appending.{
  IsAppended, appended, unsynced, torn, append_batch-IsAppended,
}
use key_value_store.Wal.Replay.Scanning.{handle_all, handle_all_step}
use key_value_store.Repl.Follower.{
  Follower, with_store, apply_all, after_log, check_offset, flushed, flush_pending,
}

-- The applier with another log behind its store.
abbrev pub relog : Option Log → Applier → Applier
relog o a = record a { store = record a.store { log = o } }

abbrev relogged : Option Log → Bool × Applier → Bool × Applier
relogged o (known, a) = (known, relog o a)

if_relog :
    (o : Option Log) (b : Bool) (x y : Bool × Applier)
    → (if b then relogged o x else relogged o y) ≡ relogged o (if b then x else y)
if_relog o true x y = refl
if_relog o false x y = refl

module _ (hash : Bytes → ℕ) (o : Option Log) where
  begin_record-relog :
      (id : ℕ) (a : Applier) → begin_record id (relog o a) ≡ relogged o (begin_record id a)
  unfolding begin_record
  begin_record-relog id a = if_relog o a.inside_transaction (false, a) (true, _)

  transaction_relog :
      (l : List Mutation) (s : Store)
      → apply_transaction_from_log hash l (record s { log = o })
        ≡ record (apply_transaction_from_log hash l s) { log = o }
  unfolding apply_transaction_from_log
  transaction_relog [] s = refl
  transaction_relog (mutation ∷ l) s = refl

  commit_record-relog :
      (id : ℕ) (a : Applier)
      → commit_record hash id (relog o a) ≡ relogged o (commit_record hash id a)
  unfolding commit_record
  commit_record-relog id a =
      let closing = λ (s : Store). record a {
        store = s;
        pending = [];
        inside_transaction = false;
        transactions_applied = add64 a.transactions_applied 1;
        records_applied = add64 a.records_applied 1;
      } in
      let refused = not a.inside_transaction || not (id == a.open_txn_id) in
      ap (λ s. if refused then (false, relog o a) else (true, closing s))
        (transaction_relog a.pending a.store)
      ∙ if_relog o refused (false, a)
          (true, closing (apply_transaction_from_log hash a.pending a.store))

  command_record-relog :
      (c : Command) (a : Applier)
      → command_record hash c (relog o a) ≡ relogged o (command_record hash c a)
  unfolding command_record apply_command apply_from_log erase_from_log
  command_record-relog (set_command key value) a =
      if_relog o a.inside_transaction (true, _) (true, _)
  command_record-relog (del_command key) a = if_relog o a.inside_transaction (true, _) (true, _)

  apply-relog : (p : Bytes) (a : Applier) → apply hash p (relog o a) ≡ relogged o (apply hash p a)
  unfolding apply
  apply-relog p a = elim (Option-cases (parse_begin_marker p)) [
    | inr (id, e) ↦ rw (e, apply) (begin_record-relog id a)
    | inl e ↦ elim (Option-cases (parse_commit_marker p)) [
      | inr (id, e') ↦ rw (e, e', apply) (commit_record-relog id a)
      | inl e' ↦ elim (Option-cases (deserialize_command p)) [
        | inr (c, e'') ↦ rw (e, e', e'', apply) (command_record-relog c a)
        | inl e'' ↦ rw (e, e', e'', apply) refl
      ]
    ]
  ]

  abbrev pub relogs : Option Applier → Option Applier
  relogs none = none
  relogs (some a) = some (relog o a)

  if_relogs :
      (b : Bool) (x : Option Applier)
      → (if b then relogs x else none) ≡ relogs (if b then x else none)
  if_relogs true x = refl
  if_relogs false x = refl

  pub handle_all-relogs :
      (ps : List Bytes) (a : Applier)
      → handle_all (apply hash) ps (relog o a) ≡ relogs (handle_all (apply hash) ps a)
  unfolding handle_all
  handle_all-relogs [] a = refl
  handle_all-relogs (p ∷ ps) a =
      let rest = handle_all-relogs ps (apply hash p a).1 in
      ap (λ (x : Bool × Applier). if x.0 then handle_all (apply hash) ps x.1 else none)
        (apply-relog p a)
      ∙ (ap (λ y. if (apply hash p a).0 then y else none) rest
          ∙ if_relogs (apply hash p a).0 (handle_all (apply hash) ps (apply hash p a).1))

  pub handle_all-relog :
      (ps : List Bytes) (a b : Applier)
      → handle_all (apply hash) ps a ≡ some b
      → handle_all (apply hash) ps (relog o a) ≡ some (relog o b)
  handle_all-relog ps a b e = handle_all-relogs ps a ∙ ap relogs e

module _ (hash : Bytes → ℕ) where
  -- The records were known, and nothing else of the follower has changed but its counts.
  pub record AppliesAll (ps : List Bytes) (f f' : Follower) : Type 0 where
    pub handled : handle_all (apply hash) ps f.applier ≡ some f'.applier
    pub buffer : f'.recv_buffer ≡ f.recv_buffer
    pub inside : f'.inside_transaction ≡ f.inside_transaction

  abbrev pub AppliesIf : List Bytes → Follower → Bool × Follower → Type 0
  AppliesIf ps f (true, f') = AppliesAll ps f f'
  AppliesIf ps f (false, f') = handle_all (apply hash) ps f.applier ≡ none

  apply_all-more :
      (p : Bytes) (ps : List Bytes) (f f₁ : Follower) (y : Bool × Follower)
      → (apply hash p f.applier).0 ≡ true
      → f₁.applier ≡ (apply hash p f.applier).1
      → f₁.recv_buffer ≡ f.recv_buffer
      → f₁.inside_transaction ≡ f.inside_transaction
      → AppliesIf ps f₁ y
      → AppliesIf (p ∷ ps) f y
  apply_all-more p ps f f₁ (false, f') known e eb ei x =
      handle_all_step (apply hash) p ps f.applier f₁.applier (rw (known, e) refl) ∙ x
  apply_all-more p ps f f₁ (true, f') known e eb ei x = record {
    handled =
        handle_all_step (apply hash) p ps f.applier f₁.applier (rw (known, e) refl) ∙ x.handled;
    buffer = x.buffer ∙ eb;
    inside = x.inside ∙ ei;
  }

  apply_all-AppliesIf : (ps : List Bytes) (f : Follower) → AppliesIf ps f (apply_all hash ps f)
  unfolding apply_all
  apply_all-AppliesIf [] f = record {
    handled = unfold handle_all in refl;
    buffer = refl;
    inside = refl;
  }
  apply_all-AppliesIf (p ∷ ps) f =
      let f₁ : Follower = record f {
        applier = (apply hash p f.applier).1;
        records_applied = add64 f.records_applied 1;
      } in
      if_cases (AppliesIf (p ∷ ps) f) (not (apply hash p f.applier).0)
        (λ unknown. unfold handle_all in ground (arith, unknown))
        (λ known.
          apply_all-more p ps f f₁ (apply_all hash ps f₁) (ground (arith, known)) refl refl refl
            (apply_all-AppliesIf ps f₁))

  -- The records that waited are in the log, and in what the applier has.
  pub record Flushes (log : Log) (f f' : Follower) : Type 0 where
    pub after : Log
    pub logged : f'.applier.store.log ≡ some after
    pub file : after.file ≡ log.file ++ frames f.pending
    pub handled :
        handle_all (apply hash) f.pending f.applier ≡ some (relog f.applier.store.log f'.applier)
    pub buffer : f'.recv_buffer ≡ f.recv_buffer
    pub inside : f'.inside_transaction ≡ f.inside_transaction
    pub nothing : f'.pending ≡ []
    pub no_bytes : f'.pending_bytes ≡ 0

  -- The log threw, or a record is not known.
  abbrev pub FlushFails : Outcome ℕ → Follower → Type 0
  FlushFails o f =
      ((error : LogError) × (o ≡ threw error))
      ⊎ (handle_all (apply hash) f.pending f.applier ≡ none)

  abbrev pub FlushesIf : Outcome ℕ → Log → Follower → Bool × Follower → Type 0
  FlushesIf o log f (true, f') = Flushes log f f'
  FlushesIf o log f (false, f') = FlushFails o f

  Flushes-when :
      (o : Outcome ℕ) (log : Log) (f f' : Follower) (b : Bool)
      → b ≡ true
      → Flushes log f f'
      → FlushesIf o log f (b, f')
  Flushes-when o log f f' true e x = x
  Flushes-when o log f f' false e x = cc

  abbrev offset_in : Option Log → ℕ
  offset_in none = 0
  offset_in (some log) = log.offset

  log_offset_lem : (s : Store) (log : Log) → s.log ≡ some log → log_offset s ≡ log.offset
  unfolding log_offset
  log_offset_lem s log e = ap (λ (o : Option Log). offset_in o) e

  abbrev log_in : Option Applier → Option Log
  log_in none = none
  log_in (some a) = a.store.log

  check_offset-Flushes :
      (n : ℕ) (log log' : Log) (f : Follower) (y : Bool × Follower)
      → n ≡ log'.offset
      → log'.file ≡ log.file ++ frames f.pending
      → AppliesIf f.pending (with_store (with_log log' f.applier.store) f) y
      → FlushesIf (returned n) log f (check_offset n y)
  unfolding check_offset flushed
  check_offset-Flushes n log log' f (false, f') at file x = inr (
      handle_all-relogs hash f.applier.store.log f.pending (relog (some log') f.applier)
      ∙ ap (relogs hash f.applier.store.log) x)
  check_offset-Flushes n log log' f (true, f') at file x =
      let back =
        handle_all-relog hash f.applier.store.log f.pending (relog (some log') f.applier) f'.applier
          x.handled in
      let again =
        handle_all-relog hash (some log') f.pending f.applier (relog f.applier.store.log f'.applier)
          back in
      let logged : f'.applier.store.log ≡ some log' = ap log_in (sym x.handled ∙ again) in
      let same : (n == log_offset f'.applier.store) ≡ true =
        (==_iff n (log_offset f'.applier.store)).1
          (at ∙ sym (log_offset_lem f'.applier.store log' logged)) in
      Flushes-when (returned n) log f (flushed f') (n == log_offset f'.applier.store) same (record {
        after = log';
        logged = logged;
        file = file;
        handled = back;
        buffer = x.buffer;
        inside = x.inside;
        nothing = refl;
        no_bytes = refl;
      })

  abbrev offset_of : Outcome ℕ → ℕ
  offset_of (returned n) = n
  offset_of (threw error) = 0

  after_log-Flushes :
      (log : Log) (f : Follower) (x : Outcome ℕ × Log)
      → IsAppended (frames f.pending) log x
      → FlushesIf x.0 log f (after_log hash (x.0, with_log x.1 f.applier.store) f)
  unfolding after_log
  after_log-Flushes log f (threw error, log') x = inl (error, refl)
  after_log-Flushes log f (returned n, log') (appended e file o) =
      check_offset-Flushes n log log' f _ (ap offset_of e ∙ sym o) file
        (apply_all-AppliesIf f.pending (with_store (with_log log' f.applier.store) f))
  after_log-Flushes log f (returned n, log') (unsynced e file) = ground (arith, e)
  after_log-Flushes log f (returned n, log') (torn count e file) = ground (arith, e)

  pub flush_pending-Flushes :
      (io : Io) (log : Log) (f : Follower) (p : Bytes) (ps : List Bytes)
      → f.pending ≡ p ∷ ps
      → f.applier.store.log ≡ some log
      → FlushesIf (append_batch io f.pending log).0 log f (flush_pending hash io f)
  unfolding flush_pending append_replicated_records
  flush_pending-Flushes io log f p ps waiting logged =
      subst
        (λ o. FlushesIf (append_batch io f.pending log).0 log f (
          after_log hash
            (elim o as (λ (_ : Option Log). Outcome ℕ × Store) [
              | none ↦ (returned 0, f.applier.store)
              | some l ↦
                  let (outcome, log') = append_batch io f.pending l in
                  (outcome, with_log log' f.applier.store)
            ])
            f))
        (sym logged)
        (after_log-Flushes log f (append_batch io f.pending log) (
          subst (λ z. IsAppended (frames z) log (append_batch io z log)) (sym waiting)
            (append_batch-IsAppended io p ps log)))
