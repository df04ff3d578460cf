-- ===== src/Session/Answering.antt =====
-- What it is that a session keeps its promise, and that it does for the commands that write and those
-- that open and drop a transaction.
use key_value_store.Common.{
  ap, to_string, length, codes, false, ℕ, ◌≡◌, refl, ap, ◌∙◌, Bool, List, [], ◌∷◌, ◌++◌, Option,
  none, some, Bytes, codes, if◌then◌else◌, bytes_eq,
}
use key_value_store.Store.Mutation.{Mutation}
use key_value_store.Store.ShardedMap.{ShardedMap, map_get, map_set, map_del, eviction_enabled}
use key_value_store.Store.ShardedMap.Valid.{IsValid, view}
use key_value_store.Store.ShardedMap.Contents.{
  update, view-map_get, map_get-IsValid, view-map_del, map_del-IsValid, map_set-IsValid,
  view-map_set_off,
}
use key_value_store.Store.Engine.{Store}
use key_value_store.Store.Engine.Endings.{store_set_ends, store_del_ends}
use key_value_store.Protocol.Parser.{
  begin_type, rollback, CommandType, set_type, del_type, commit_type, ParsedCommand,
}
use key_value_store.Transaction.{
  Transaction, push_mutation, txn_set, txn_del, new_transaction, txn_rollback,
}
use key_value_store.Transaction.Overlay.{push_mutation-IsIndexed, new_transaction-IsIndexed}
use key_value_store.Wal.Log.{Outcome, returned, threw, LogError}
use key_value_store.Store.Engine.{note_rollback, next_transaction_id}
use key_value_store.Session.{
  new_session, LineIo, rollback_line, begin_line, Reply, Session, LineIo, say, ok_after, set_reply,
  del_reply,
}
use key_value_store.Session.Promised.{
  Client, write_of, promised_state, promised_reply, Buffers, Represents,
}

abbrev pub Answers : Option Reply → Reply → Type 0
Answers none r = Unit {0}
Answers (some p) r = r ≡ p

-- How one command of a client ends: as promised; or a commit fails, or the log throws, and the
-- client is as before.
pub data Serves (hash : Bytes → ℕ) (type : CommandType) (cmd : ParsedCommand) (c : Client)
    (outcome : Outcome Reply) (o : Option Transaction) (m : ShardedMap) (read_only : Bool)
    : Type 0 where
  promised :
      (r : Reply)
      → outcome ≡ returned r
      → Answers (promised_reply type cmd c) r
      → Represents hash o m read_only (promised_state type cmd c)
      → Serves hash type cmd c outcome o m read_only
  commit_failed :
      type ≡ commit_type
      → outcome ≡ say (codes "-ERR commit failed; transaction still open")
      → Represents hash o m read_only c
      → Serves hash type cmd c outcome o m read_only
  raised :
      (error : LogError)
      → outcome ≡ threw error
      → Represents hash o m read_only c
      → Serves hash type cmd c outcome o m read_only

abbrev pub ServesAt :
    (Bytes → ℕ) → CommandType → ParsedCommand → Client → Outcome Reply × Session × Store → Type 0
ServesAt hash type cmd c x = Serves hash type cmd c x.0 x.1.transaction x.2.map x.2.read_only

abbrev pub client : (Bytes → Option Bytes) → Option (List Mutation) → Client
client f b = record { finds = f; buffered = b }

abbrev pub session_of : Option Transaction → Session
session_of o = record { transaction = o }

-- A mutation more in an open transaction.
pub pushed_lem :
    (t : Transaction) (l : List Mutation) (mu : Mutation)
    → Buffers (some t) (some l)
    → Buffers (some (push_mutation mu t)) (some (l ++ (mu ∷ [])))
unfolding push_mutation
pushed_lem t l mu (active, same, x) = (
  rw (active, push_mutation) refl,
  rw (active, push_mutation) (ap (λ z. z ++ (mu ∷ [])) same),
  push_mutation-IsIndexed mu t x,
)

module _ (hash : Bytes → ℕ) (f : Bytes → Option Bytes) where
  -- What is found changes with the map, in the same way.
  pub Represents-write :
      (m n : ShardedMap) (b : Bool) (key : Bytes) (o : Option Bytes)
      → Represents hash none m b (client f none)
      → IsValid hash n
      → ((j : Bytes) → view hash n j ≡ update key o (view hash m) j)
      → eviction_enabled n ≡ eviction_enabled m
      → Represents hash none n b (client (update key o f) none)
  Represents-write m n b key o r v written same = record {
    valid = v;
    finds = λ j. written j ∙ ap (λ x. if bytes_eq key j then o else x) (r.finds j);
    off = same ∙ r.off;
    writable = r.writable;
    buffers = tt;
  }

  -- A read leaves what is found.
  pub Represents-read :
      (k : Bytes) (o : Option Transaction) (c : Client) (m : ShardedMap) (b : Bool)
      → Represents hash o m b c
      → Represents hash o (map_get hash k m).1 b c
  Represents-read k o c m b r = record {
    valid = map_get-IsValid hash k m r.valid;
    finds = λ j. (view-map_get hash k m r.valid).1 j ∙ r.finds j;
    off = unfold map_get in r.off;
    writable = r.writable;
    buffers = r.buffers;
  }

  pub buffering :
      {o o' : Option Transaction} {m : ShardedMap} {b : Bool} {l l' : Option (List Mutation)}
      → Represents hash o m b (client f l)
      → Buffers o' l'
      → Represents hash o' m b (client f l')
  buffering r x = record {
    valid = r.valid;
    finds = r.finds;
    off = r.off;
    writable = r.writable;
    buffers = x;
  }

  module _ (io : LineIo) (cmd : ParsedCommand) (s : Store) where
    pub set_serves :
        (o : Option Transaction) (l : Option (List Mutation))
        → Represents hash o s.map s.read_only (client f l)
        → ServesAt hash set_type cmd
            (client f l)
            (set_reply hash io cmd.key cmd.value (session_of o) s)
    unfolding set_reply promised_state promised_reply txn_set
    set_serves none none r =
        store_set_ends hash io.log s
          (λ x m b. Serves hash set_type cmd (client f none) (ok_after x) none m b) cmd.key
          cmd.value
          (promised _ refl refl (
            Represents-write s.map _ s.read_only cmd.key (some cmd.value) r
              (map_set-IsValid hash cmd.key cmd.value s.map r.valid)
              (view-map_set_off hash cmd.key cmd.value s.map r.valid r.off)
              (unfold map_set in refl)))
          (λ e. raised e refl r)
    set_serves (some t) (some l) r =
        promised _ refl refl
          (buffering r (pushed_lem t l (write_of cmd.key (some cmd.value)) r.buffers))
    set_serves none (some l) r = absurd r.buffers
    set_serves (some t) none r = absurd r.buffers

    pub del_serves :
        (o : Option Transaction) (l : Option (List Mutation))
        → Represents hash o s.map s.read_only (client f l)
        → ServesAt hash del_type cmd (client f l) (del_reply hash io cmd.key (session_of o) s)
    unfolding del_reply promised_state promised_reply txn_del
    del_serves none none r =
        store_del_ends hash io.log s
          (λ x m b. Serves hash del_type cmd (client f none) (ok_after x) none m b) cmd.key
          (promised _ refl refl (
            Represents-write s.map _ s.read_only cmd.key none r
              (map_del-IsValid hash cmd.key s.map r.valid)
              (view-map_del hash cmd.key s.map r.valid).1 (unfold map_del in refl)))
          (λ e. raised e refl r)
    del_serves (some t) (some l) r =
        promised _ refl refl (buffering r (pushed_lem t l (write_of cmd.key none) r.buffers))
    del_serves none (some l) r = absurd r.buffers
    del_serves (some t) none r = absurd r.buffers

    pub begin_serves :
        (o : Option Transaction) (l : Option (List Mutation))
        → Represents hash o s.map s.read_only (client f l)
        → ServesAt hash begin_type cmd (client f l) (begin_line (session_of o) s)
    unfolding begin_line new_transaction next_transaction_id promised_state promised_reply
    begin_serves none none r =
        promised _ refl refl (buffering r (refl, refl, new_transaction-IsIndexed s))
    begin_serves (some t) (some l) r = promised _ refl refl r
    begin_serves none (some l) r = absurd r.buffers
    begin_serves (some t) none r = absurd r.buffers

    pub rollback_serves :
        (o : Option Transaction) (l : Option (List Mutation))
        → Represents hash o s.map s.read_only (client f l)
        → ServesAt hash rollback cmd (client f l) (rollback_line (session_of o) s)
    unfolding rollback_line txn_rollback note_rollback new_session promised_state promised_reply
    rollback_serves none none r = promised _ refl refl (buffering r tt)
    rollback_serves (some t) (some l) r =
        let (active, same, x) = r.buffers in
        rw (active, txn_rollback)
          (promised _ refl
            (ap
              (λ (z : List Mutation).
                (codes "$rolled_back=" ++ to_string (length z) ++ (10 ∷ []), false))
              same)
            (buffering r tt))
    rollback_serves none (some l) r = absurd r.buffers
    rollback_serves (some t) none r = absurd r.buffers
