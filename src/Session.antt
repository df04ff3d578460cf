-- ===== src/Session.antt =====
-- src/protocol/session.cpp: one client of the store, which has a transaction or none. `handleLine`
-- answers one line of the protocol; what the log throws passes through it.
pub mod Promised
pub mod Answering
pub mod Committing
pub mod Serving
pub mod ReadOnly
use key_value_store.Common.{
  ℕ, Bool, true, false, [], ◌∷◌, ◌++◌, Option, none, some, Bytes, codes, if◌then◌else◌, not,
  to_string,
}
use key_value_store.Protocol.Parser.{
  CommandType, set_type, get_type, del_type, stats, compact, begin_type, commit_type, rollback,
  quit, invalid_type, ParsedCommand, parse,
}
use key_value_store.Store.Engine.{Store, store_get, store_set, store_del}
use key_value_store.Store.Engine
use key_value_store.Store.Stats.{stats_line}
use key_value_store.Transaction.{
  Transaction, new_transaction, txn_set, txn_del, txn_get, txn_commit, txn_rollback,
  pending_operations,
}
use key_value_store.Wal.Log.{Outcome, returned, threw, Io}
use key_value_store.Wal.Compaction.{
  CompactionIo, CompactionError, no_log, open_failed, write_failed, fsync_failed, rename_failed,
  CompactionResult,
}

-- The transaction of a session; the store that it refers to is passed beside it.
pub record Session : Type 0 where
  pub transaction : Option Transaction

unfoldable pub new_session : Session
new_session = record { transaction = none }

abbrev pub within : Transaction → Session
within t = record { transaction = some t }

-- What the world answers while one line is handled: the system calls of the log and of a
-- compaction, the text of `strerror`, and what the replicator prints of itself.
pub record LineIo : Type 0 where
  pub log : Io
  pub compaction : CompactionIo
  pub reopen_ok : Bool
  pub lseek_ok : Bool
  pub error_text : Bytes
  pub replicator_line : Bytes

-- A reply, and whether the connection ends.
abbrev pub Reply : Type 0
Reply = Bytes × Bool

abbrev pub say : Bytes → Outcome Reply
say text = returned (text ++ (10 ∷ []), false)

abbrev pub ok_reply : Outcome Reply
ok_reply = say (codes "+OK")

unfoldable pub compaction_error : Bytes → CompactionError → Bytes
compaction_error text no_log = codes "no write-ahead log configured"
compaction_error text open_failed = codes "open(compact) failed: " ++ text
compaction_error text write_failed = codes "write(compact) failed: " ++ text
compaction_error text fsync_failed = codes "fsync(compact) failed: " ++ text
compaction_error text rename_failed = codes "rename(compact) failed: " ++ text

unfoldable pub error_line : Bytes → Option CompactionError → Bytes
unfolding compaction_error
error_line text none = []
error_line text (some error) = compaction_error text error

unfoldable pub compact_reply : Bytes → Outcome CompactionResult → Outcome Reply
unfolding error_line
compact_reply text (threw error) = threw error
compact_reply text (returned result) =
    if not result.ok
    then say (codes "-ERR compaction failed: " ++ error_line text result.error)
    else say (
        codes "$records="
        ++ (to_string result.records_written
            ++ (codes " bytes_before="
                ++ (to_string result.bytes_before
                    ++ (codes " bytes_after=" ++ to_string result.bytes_after)))))

-- The replies to commands of a read-only store that would write.
unfoldable pub read_only_refusal : CommandType → Option Bytes
read_only_refusal set_type =
    some (codes "-ERR READONLY this node is a replica; write to the leader")
read_only_refusal del_type =
    some (codes "-ERR READONLY this node is a replica; write to the leader")
read_only_refusal compact = some (codes "-ERR READONLY a replica must not compact its log")
read_only_refusal _ = none

-- `+OK` after a call that returns; what it throws passes.
abbrev pub ok_after {ℓ} : {A : Type ℓ} → Outcome A → Outcome Reply
ok_after (returned a) = ok_reply
ok_after (threw error) = threw error

abbrev pub found_reply : Option Bytes → Outcome Reply
found_reply none = say (codes "$nil")
found_reply (some value) = say (codes "$" ++ value)

unfoldable pub begin_line : Session → Store → Outcome Reply × Session × Store
begin_line session s = elim session.transaction [
  | some t ↦ (say (codes "-ERR already in a transaction"), session, s)
  | none ↦ let (t, s') = new_transaction s in (ok_reply, within t, s')
]

unfoldable pub rollback_line : Session → Store → Outcome Reply × Session × Store
rollback_line session s = elim session.transaction [
  | none ↦ (say (codes "-ERR no transaction in progress"), session, s)
  | some t ↦
      let discarded = pending_operations t in
      let (t', s') = txn_rollback t s in
      (say (codes "$rolled_back=" ++ to_string discarded), new_session, s')
]

unfoldable pub compact_line : LineIo → Session → Store → Outcome Reply × Session × Store
compact_line io session s =
    let (outcome, s') = Engine.compact io.compaction io.reopen_ok io.lseek_ok s in
    (compact_reply io.error_text outcome, session, s')

-- The end of a commit of `operations` mutations.
unfoldable pub commit_reply : ℕ → Bool × Transaction × Store → Outcome Reply × Session × Store
commit_reply operations (ok, t, s) =
    if not ok
    then (say (codes "-ERR commit failed; transaction still open"), within t, s)
    else (say (codes "$committed=" ++ to_string operations), new_session, s)

module _ (hash : Bytes → ℕ) where
  unfoldable pub set_reply :
      LineIo → Bytes → Bytes → Session → Store → Outcome Reply × Session × Store
  set_reply io key value session s = elim session.transaction [
    | some t ↦ (ok_reply, within (txn_set key value t), s)
    | none ↦
        let (outcome, s') = store_set hash io.log key value s in (ok_after outcome, session, s')
  ]

  unfoldable pub get_reply : Bytes → Session → Store → Outcome Reply × Session × Store
  get_reply key session s = elim session.transaction [
    | some t ↦ let (found, s') = txn_get hash key t s in (found_reply found, session, s')
    | none ↦ let (found, s') = store_get hash key s in (found_reply found, session, s')
  ]

  unfoldable pub del_reply : LineIo → Bytes → Session → Store → Outcome Reply × Session × Store
  del_reply io key session s = elim session.transaction [
    | some t ↦ (ok_reply, within (txn_del key t), s)
    | none ↦ let (outcome, s') = store_del hash io.log key s in (ok_after outcome, session, s')
  ]

  unfoldable pub commit_line : LineIo → Session → Store → Outcome Reply × Session × Store
  commit_line io session s = elim session.transaction [
    | none ↦ (say (codes "-ERR no transaction in progress"), session, s)
    | some t ↦ commit_reply (pending_operations t) (txn_commit hash io.log t s)
  ]

  -- The second `switch`.
  unfoldable pub dispatch :
      LineIo → CommandType → ParsedCommand → Session → Store → Outcome Reply × Session × Store
  dispatch io set_type cmd session s = set_reply io cmd.key cmd.value session s
  dispatch io get_type cmd session s = get_reply cmd.key session s
  dispatch io del_type cmd session s = del_reply io cmd.key session s
  dispatch io stats cmd session s = (say (codes "$" ++ stats_line io.replicator_line s), session, s)
  dispatch io compact cmd session s = compact_line io session s
  dispatch io begin_type cmd session s = begin_line session s
  dispatch io commit_type cmd session s = commit_line io session s
  dispatch io rollback cmd session s = rollback_line session s
  dispatch io quit cmd session s = (returned (codes "+OK" ++ (10 ∷ []), true), session, s)
  dispatch io invalid_type cmd session s = (say (codes "-ERR " ++ cmd.error), session, s)

  -- The command of a line, behind the guard of the first `switch`.
  unfoldable pub execute :
      LineIo → ParsedCommand → Session → Store → Outcome Reply × Session × Store
  execute io cmd session s = elim (if s.read_only then read_only_refusal cmd.type else none) [
    | some refusal ↦ (say refusal, session, s)
    | none ↦ dispatch io cmd.type cmd session s
  ]

  unfoldable pub handle_line : LineIo → Bytes → Session → Store → Outcome Reply × Session × Store
  handle_line io line session s = execute io (parse line) session s
