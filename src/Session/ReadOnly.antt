-- ===== src/Session/ReadOnly.antt =====
-- A session of a read-only store, which is one that follows a leader.
use key_value_store.Common.{
  ℕ, ◌≡◌, refl, ◌∙◌, Bool, true, List, [], ◌∷◌, Option, none, some, Bytes, not, if_elim, is_some,
  inl, inr, Option-cases, find,
}
use key_value_store.Store.ShardedMap.{map_get}
use key_value_store.Store.ShardedMap.Valid.{IsValid, view}
use key_value_store.Store.ShardedMap.Contents.{view-map_get, map_get-IsValid}
use key_value_store.Store.Engine.{
  Store, ReplicatorCall, store_get, next_transaction_id, note_rollback, commit_transaction,
}
use key_value_store.Protocol.Parser.{
  CommandType, set_type, get_type, del_type, stats, compact, begin_type, commit_type, rollback,
  quit, invalid_type, ParsedCommand, parse,
}
use key_value_store.Transaction.{
  pending_operations, Transaction, new_transaction, txn_get, txn_commit, txn_rollback, after_commit,
}
use key_value_store.Wal.Log.{Outcome, Log}
use key_value_store.Session.{
  Reply, Session, new_session, LineIo, get_reply, begin_line, commit_line, commit_reply,
  rollback_line, dispatch, execute, handle_line, read_only_refusal,
}

abbrev pub IsEmptyTransaction : Option Transaction → Type 0
IsEmptyTransaction none = Unit {0}
IsEmptyTransaction (some t) = t.mutations ≡ []

-- The lines that a session handles, each with what the world answers; where the log would throw, the
-- next line goes on with what is there.
unfoldable pub handle_lines :
    (Bytes → ℕ) → List (LineIo × Bytes) → Session → Store → Session × Store
handle_lines hash [] session s = (session, s)
handle_lines hash ((io, line) ∷ lines) session s =
    let (reply, session', s') = handle_line hash io line session s in
    handle_lines hash lines session' s'

-- A read-only store in which `f` is found, with this log and these calls of its replicator.
pub record Reads (hash : Bytes → ℕ) (f : Bytes → Option Bytes) (log : Option Log)
    (calls : Option (List ReplicatorCall)) (o : Option Transaction) (s : Store) : Type 0 where
  pub read_only : s.read_only ≡ true
  pub valid : IsValid hash s.map
  pub finds : (k : Bytes) → view hash s.map k ≡ f k
  pub logged : s.log ≡ log
  pub called : s.replicator ≡ calls
  pub empty : IsEmptyTransaction o

abbrev ReadsAt :
    (Bytes → ℕ)
    → (Bytes → Option Bytes)
    → Option Log
    → Option (List ReplicatorCall)
    → Outcome Reply × Session × Store
    → Type 0
ReadsAt hash f log calls x = Reads hash f log calls x.1.transaction x.2

module _ (hash : Bytes → ℕ) (f : Bytes → Option Bytes) (log : Option Log)
    (calls : Option (List ReplicatorCall)) where
  store_get-Reads :
      (k : Bytes) (o : Option Transaction) (s : Store)
      → Reads hash f log calls o s
      → Reads hash f log calls o (store_get hash k s).1
  unfolding store_get
  store_get-Reads k o s r =
      let valid = map_get-IsValid hash k s.map r.valid in
      let finds = λ (j : Bytes). (view-map_get hash k s.map r.valid).1 j ∙ r.finds j in
      if_elim (λ (x : Option Bytes × Store). Reads hash f log calls o x.1)
        (is_some (map_get hash k s.map).0)
        (record {
          read_only = r.read_only;
          valid = valid;
          finds = finds;
          logged = r.logged;
          called = r.called;
          empty = r.empty;
        })
        (record {
          read_only = r.read_only;
          valid = valid;
          finds = finds;
          logged = r.logged;
          called = r.called;
          empty = r.empty;
        })

  txn_get-Reads :
      (k : Bytes) (t : Transaction) (o : Option Transaction) (s : Store)
      → Reads hash f log calls o s
      → Reads hash f log calls o (txn_get hash k t s).1
  unfolding txn_get
  txn_get-Reads k t o s r = elim (Option-cases (find k t.latest)) [
    | inl absent ↦ rw (absent, txn_get) (store_get-Reads k o s r)
    | inr (i, there) ↦ rw (there, txn_get) r
  ]

  leaving :
      {o : Option Transaction} (o' : Option Transaction) {s : Store}
      → IsEmptyTransaction o'
      → Reads hash f log calls o s
      → Reads hash f log calls o' s
  leaving o' e r = record {
    read_only = r.read_only;
    valid = r.valid;
    finds = r.finds;
    logged = r.logged;
    called = r.called;
    empty = e;
  }

  module _ (io : LineIo) (s : Store) where
    get-Reads :
        (k : Bytes) (o : Option Transaction)
        → Reads hash f log calls o s
        → ReadsAt hash f log calls (get_reply hash k (record { transaction = o }) s)
    unfolding get_reply
    get-Reads k none r = store_get-Reads k none s r
    get-Reads k (some t) r = txn_get-Reads k t (some t) s r

    begin-Reads :
        (o : Option Transaction)
        → Reads hash f log calls o s
        → ReadsAt hash f log calls (begin_line (record { transaction = o }) s)
    unfolding begin_line new_transaction next_transaction_id
    begin-Reads none r = record {
      read_only = r.read_only;
      valid = r.valid;
      finds = r.finds;
      logged = r.logged;
      called = r.called;
      empty = refl;
    }
    begin-Reads (some t) r = r

    rollback-Reads :
        (o : Option Transaction)
        → Reads hash f log calls o s
        → ReadsAt hash f log calls (rollback_line (record { transaction = o }) s)
    unfolding rollback_line txn_rollback note_rollback new_session
    rollback-Reads none r = r
    rollback-Reads (some t) r =
        if_elim (λ (x : Transaction × Store). Reads hash f log calls none x.1) (not t.active)
          (leaving none tt r)
          (record {
            read_only = r.read_only;
            valid = r.valid;
            finds = r.finds;
            logged = r.logged;
            called = r.called;
            empty = tt;
          })

    commit-Reads :
        (o : Option Transaction)
        → Reads hash f log calls o s
        → ReadsAt hash f log calls (commit_line hash io (record { transaction = o }) s)
    unfolding commit_line txn_commit commit_reply after_commit commit_transaction new_session
    commit-Reads none r = r
    commit-Reads (some t) r =
        if_elim
          (λ (x : Bool × Transaction × Store).
            ReadsAt hash f log calls (commit_reply (pending_operations t) x))
          (not t.active) r
          (rw r.empty (record {
            read_only = r.read_only;
            valid = r.valid;
            finds = r.finds;
            logged = r.logged;
            called = r.called;
            empty = tt;
          }))

    dispatch-Reads :
        (type : CommandType) (cmd : ParsedCommand) (o : Option Transaction)
        → read_only_refusal type ≡ none
        → Reads hash f log calls o s
        → ReadsAt hash f log calls (dispatch hash io type cmd (record { transaction = o }) s)
    unfolding dispatch read_only_refusal
    dispatch-Reads set_type cmd o e r = cc
    dispatch-Reads get_type cmd o e r = get-Reads cmd.key o r
    dispatch-Reads del_type cmd o e r = cc
    dispatch-Reads stats cmd o e r = r
    dispatch-Reads compact cmd o e r = cc
    dispatch-Reads begin_type cmd o e r = begin-Reads o r
    dispatch-Reads commit_type cmd o e r = commit-Reads o r
    dispatch-Reads rollback cmd o e r = rollback-Reads o r
    dispatch-Reads quit cmd o e r = r
    dispatch-Reads invalid_type cmd o e r = r

    execute-Reads :
        (cmd : ParsedCommand) (o : Option Transaction)
        → Reads hash f log calls o s
        → ReadsAt hash f log calls (execute hash io cmd (record { transaction = o }) s)
    unfolding execute
    execute-Reads cmd o r = elim (Option-cases (read_only_refusal cmd.type)) [
      | inl e ↦ rw (r.read_only, e, execute) (dispatch-Reads cmd.type cmd o e r)
      | inr (refusal, e) ↦ rw (r.read_only, e, execute) r
    ]

  handle_line-Reads :
      (io : LineIo) (line : Bytes) (session : Session) (s : Store)
      → Reads hash f log calls session.transaction s
      → ReadsAt hash f log calls (handle_line hash io line session s)
  unfolding handle_line
  handle_line-Reads io line session s r = execute-Reads io s (parse line) session.transaction r

  -- Whatever lines a session of a read-only store handles, from a transaction that is empty or
  -- none: every key is found as before, the map stays valid, the log is untouched, the replicator
  -- is not called, and the transaction of the session is still empty.
  pub handle_lines-Reads :
      (lines : List (LineIo × Bytes)) (session : Session) (s : Store)
      → Reads hash f log calls session.transaction s
      → Reads hash f log calls
          (handle_lines hash lines session s).0.transaction
          (handle_lines hash lines session s).1
  unfolding handle_lines
  handle_lines-Reads [] session s r = r
  handle_lines-Reads ((io, line) ∷ lines) session s r =
      let (reply, session', s') = handle_line hash io line session s in
      handle_lines-Reads lines session' s' (handle_line-Reads io line session s r)
