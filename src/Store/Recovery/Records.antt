-- ===== src/Store/Recovery/Records.antt =====
-- The applier of records on the records of one write.
use key_value_store.Common.{
  ◌==◌, ◌≤◌, ◌^◌, ℕ, zero, suc, ◌<◌, ◌≡◌, refl, sym, ap, ◌∙◌, Bool, true, false, List, [], ◌∷◌,
  ◌++◌, some, Bytes, length, take, add64, map, arith, append_assoc, append-nil, length-append, All,
  take-append_le, take-map, take-All,
}
use key_value_store.Store.Mutation.{Mutation}
use key_value_store.Store.ShardedMap.{ShardedMap, apply_atomically}
use key_value_store.Store.Engine.{
  Store, command_of, transaction_payloads, apply_from_log, erase_from_log,
  apply_transaction_from_log,
}
use key_value_store.Store.Engine.Applier.{
  Applier, begin_record, commit_record, command_record, apply_command, apply,
}
use key_value_store.Store.Recovery.{Write, put, remove, commit, records, IsSound, IsWritable, run}
use key_value_store.Protocol.Commands.{
  Command, set_command, del_command, serialize, serialize_begin_marker, serialize_commit_marker,
  to_mutation,
}
use key_value_store.Protocol.Commands.RoundTrip.{Fits, deserialize_command-serialize}
use key_value_store.Protocol.Commands.Markers.{
  begin_marker_reads, commit_marker_reads, command_is_no_marker,
}
use key_value_store.Wal.Replay.Scanning.{handle_all, handle_all_step, handle_all-append}

-- The mutations of an open transaction wait in the applier.
unfoldable pub push : List Mutation → Applier → Applier
push [] a = a
push (mutation ∷ l) a = push l (record a {
  pending = a.pending ++ (mutation ∷ []);
  records_applied = add64 a.records_applied 1;
})

-- The applier after some mutations of a transaction.
record IsPushed (l : List Mutation) (a a' : Applier) : Type 0 where
  pub store : a'.store ≡ a.store
  pub pending : a'.pending ≡ a.pending ++ l
  pub inside : a'.inside_transaction ≡ a.inside_transaction
  pub txn_id : a'.open_txn_id ≡ a.open_txn_id

push-IsPushed : (l : List Mutation) (a : Applier) → IsPushed l a (push l a)
unfolding push
push-IsPushed [] a = record {
  store = refl;
  pending = sym (append-nil a.pending);
  inside = refl;
  txn_id = refl;
}
push-IsPushed (mutation ∷ l) a =
    let p = push-IsPushed l (record a {
      pending = a.pending ++ (mutation ∷ []);
      records_applied = add64 a.records_applied 1;
    }) in
    record {
      store = p.store;
      pending = p.pending ∙ append_assoc a.pending (mutation ∷ []) l;
      inside = p.inside;
      txn_id = p.txn_id;
    }

module _ (hash : Bytes → ℕ) where
  apply-command :
      (c : Command) (a : Applier) → Fits c → apply hash (serialize c) a ≡ command_record hash c a
  unfolding apply
  apply-command c a fits =
      let (no_begin, no_commit) = command_is_no_marker c in
      rw (no_begin, no_commit, deserialize_command-serialize c fits, apply) refl

  apply-begin :
      (v : ℕ) (a : Applier)
      → v < 2 ^ 64
      → apply hash (serialize_begin_marker v) a ≡ begin_record v a
  unfolding apply
  apply-begin v a h =
      let (begins, no_commit, none_else) = begin_marker_reads v h in rw (begins, apply) refl

  apply-commit :
      (v : ℕ) (a : Applier)
      → v < 2 ^ 64
      → apply hash (serialize_commit_marker v) a ≡ commit_record hash v a
  unfolding apply
  apply-commit v a h =
      let (no_begin, commits, none_else) = commit_marker_reads v h in
      rw (no_begin, commits, apply) refl

  abbrev payloads : List Mutation → List Bytes
  payloads l = map (λ mutation. serialize (command_of mutation)) l

  abbrev waiting : Mutation → Applier → Applier
  waiting mutation a = record a {
    pending = a.pending ++ (mutation ∷ []);
    records_applied = add64 a.records_applied 1;
  }

  command_record_inside :
      (c : Command) (a : Applier)
      → a.inside_transaction ≡ true
      → command_record hash c a ≡ (true, waiting (to_mutation c) a)
  unfolding command_record
  command_record_inside c a inside = rw inside refl

  handle_all-payloads :
      (l : List Mutation) (a : Applier)
      → All IsSound l
      → a.inside_transaction ≡ true
      → handle_all (apply hash) (payloads l) a ≡ some (push l a)
  unfolding push
  handle_all-payloads [] a sound inside = unfold handle_all in refl
  handle_all-payloads (mutation ∷ l) a ((fits, same), sound) inside =
      let step : apply hash (serialize (command_of mutation)) a ≡ (true, waiting mutation a) =
        apply-command (command_of mutation) a fits
        ∙ (command_record_inside (command_of mutation) a inside
            ∙ ap (λ mu. (true, waiting mu a)) same) in
      handle_all_step (apply hash) (serialize (command_of mutation)) (payloads l) a
        (waiting mutation a) step
      ∙ handle_all-payloads l (waiting mutation a) sound inside

  -- The applier has taken the records, and its store has the map.
  pub record Applied (ps : List Bytes) (a : Applier) (m : ShardedMap) (inside : Bool) : Type 0 where
    pub final : Applier
    pub handled : handle_all (apply hash) ps a ≡ some final
    pub map_is : final.store.map ≡ m
    pub inside_is : final.inside_transaction ≡ inside

  command_record_outside :
      (c : Command) (a : Applier)
      → a.inside_transaction ≡ false
      → command_record hash c a ≡ (
        true,
        record a {
          store = apply_command hash c a.store;
          records_applied = add64 a.records_applied 1;
        },
      )
  unfolding command_record
  command_record_outside c a idle = rw idle refl

  -- One command outside a transaction.
  one_command :
      (c : Command) (a : Applier) (m : ShardedMap)
      → Fits c
      → a.inside_transaction ≡ false
      → (apply_command hash c a.store).map ≡ m
      → Applied (serialize c ∷ []) a m false
  one_command c a m fits idle e =
      let final : Applier = record a {
        store = apply_command hash c a.store;
        records_applied = add64 a.records_applied 1;
      } in
      let step : apply hash (serialize c) a ≡ (true, final) =
        apply-command c a fits ∙ command_record_outside c a idle in
      record {
        final = final;
        handled =
            handle_all_step (apply hash) (serialize c) [] a final step
            ∙ (unfold handle_all in refl);
        map_is = e;
        inside_is = idle;
      }

  abbrev begun : ℕ → Applier → Applier
  begun txn_id a = record a {
    inside_transaction = true;
    open_txn_id = txn_id;
    pending = [];
    records_applied = add64 a.records_applied 1;
  }

  begin_record_idle :
      (txn_id : ℕ) (a : Applier)
      → a.inside_transaction ≡ false
      → begin_record txn_id a ≡ (true, begun txn_id a)
  unfolding begin_record
  begin_record_idle txn_id a idle = rw idle refl

  -- The records of a transaction up to its commit marker.
  handle_all-opened :
      (txn_id : ℕ) (l : List Mutation) (ps : List Bytes) (a : Applier)
      → txn_id < 2 ^ 64
      → All IsSound l
      → a.inside_transaction ≡ false
      → handle_all (apply hash) (serialize_begin_marker txn_id ∷ (payloads l ++ ps)) a
        ≡ handle_all (apply hash) ps (push l (begun txn_id a))
  handle_all-opened txn_id l ps a h sound idle =
      handle_all_step (apply hash) (serialize_begin_marker txn_id) (payloads l ++ ps) a
        (begun txn_id a) (apply-begin txn_id a h ∙ begin_record_idle txn_id a idle)
      ∙ handle_all-append (apply hash) (payloads l) ps (begun txn_id a) (push l (begun txn_id a))
          (handle_all-payloads l (begun txn_id a) sound refl)

  abbrev committed : Applier → Applier
  committed a = record a {
    store = apply_transaction_from_log hash a.pending a.store;
    pending = [];
    inside_transaction = false;
    transactions_applied = add64 a.transactions_applied 1;
    records_applied = add64 a.records_applied 1;
  }

  commit_record_open :
      (txn_id : ℕ) (a : Applier)
      → a.inside_transaction ≡ true
      → txn_id ≡ a.open_txn_id
      → commit_record hash txn_id a ≡ (true, committed a)
  unfolding commit_record
  commit_record_open txn_id a inside same =
      let eq : (txn_id == a.open_txn_id) ≡ true = ground arith in rw (inside, eq) refl

  map-apply_transaction :
      (mu : Mutation) (l pending : List Mutation) (s s' : Store)
      → pending ≡ mu ∷ l
      → s' ≡ s
      → (apply_transaction_from_log hash pending s').map ≡ apply_atomically hash (mu ∷ l) s.map
  unfolding apply_transaction_from_log
  map-apply_transaction mu l pending s s' e e' = rw (e, e') refl

  -- All the records of a write outside a transaction.
  pub records-Applied :
      (w : Write) (a : Applier)
      → IsWritable w
      → a.inside_transaction ≡ false
      → Applied (records w) a (run hash w a.store.map) false
  unfolding records run transaction_payloads
  records-Applied (put key value) a fits idle =
      one_command (set_command key value) a _ fits idle
        (unfold apply_command apply_from_log in refl)
  records-Applied (remove key) a fits idle =
      one_command (del_command key) a _ fits idle (unfold apply_command erase_from_log in refl)
  records-Applied (commit txn_id mu l) a (h, sound) idle =
      let before : Applier = push (mu ∷ l) (begun txn_id a) in
      let p = push-IsPushed (mu ∷ l) (begun txn_id a) in
      let last : apply hash (serialize_commit_marker txn_id) before ≡ (true, committed before) =
        apply-commit txn_id before h ∙ commit_record_open txn_id before p.inside (sym p.txn_id) in
      record {
        final = committed before;
        handled =
            (handle_all-opened txn_id (mu ∷ l) (serialize_commit_marker txn_id ∷ []) a h sound idle
              ∙ (handle_all_step (apply hash) (serialize_commit_marker txn_id) [] before
                    (committed before) last
                  ∙ (unfold handle_all in refl)));
        map_is = map-apply_transaction mu l before.pending a.store before.store p.pending p.store;
        inside_is = refl;
      }

  -- Some of the records of a write, not all.
  pub records_cut-Applied :
      (w : Write) (i : ℕ) (a : Applier)
      → IsWritable w
      → a.inside_transaction ≡ false
      → i < length (records w)
      → (inside : Bool) × Applied (take i (records w)) a a.store.map inside
  unfolding records transaction_payloads
  records_cut-Applied w zero a h idle cut = (
    false,
    record { final = a; handled = unfold handle_all in refl; map_is = refl; inside_is = idle },
  )
  records_cut-Applied (put key value) (suc i) a h idle cut = absurd (omega arith)
  records_cut-Applied (remove key) (suc i) a h idle cut = absurd (omega arith)
  records_cut-Applied (commit txn_id mu l) (suc i) a (h, sound) idle cut =
      let l' : List Mutation = take i (mu ∷ l) in
      let before : Applier = push l' (begun txn_id a) in
      let p = push-IsPushed l' (begun txn_id a) in
      let fewer : i ≤ length (payloads (mu ∷ l)) =
        omega (arith, length-append (payloads (mu ∷ l)) (serialize_commit_marker txn_id ∷ [])) in
      let shown : take i (payloads (mu ∷ l) ++ (serialize_commit_marker txn_id ∷ []))
          ≡ payloads l' ++ [] =
        take-append_le (payloads (mu ∷ l)) (serialize_commit_marker txn_id ∷ []) i fewer
        ∙ (take-map (λ mutation. serialize (command_of mutation)) i (mu ∷ l)
            ∙ sym (append-nil (payloads l'))) in
      (
        true,
        record {
          final = before;
          handled =
              ap (λ ps. handle_all (apply hash) (serialize_begin_marker txn_id ∷ ps) a) shown
              ∙ (handle_all-opened txn_id l' [] a h (take-All IsSound i (mu ∷ l) sound) idle
                  ∙ (unfold handle_all in refl));
          map_is = ap (λ (s : Store). s.map) p.store;
          inside_is = p.inside;
        },
      )
