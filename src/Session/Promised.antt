-- ===== src/Session/Promised.antt =====
-- What a session promises its client: a map from keys to values, and the mutations of the open
-- transaction, without shards, indices or a log.
use key_value_store.Common.{
  ℕ, ◌≡◌, Bool, true, false, List, [], ◌∷◌, ◌++◌, Option, none, some, Bytes, codes, length,
  to_string,
}
use key_value_store.Store.Mutation.{Mutation}
use key_value_store.Store.ShardedMap.{ShardedMap, eviction_enabled}
use key_value_store.Store.ShardedMap.Valid.{IsValid, view}
use key_value_store.Store.ShardedMap.Contents.{update}
use key_value_store.Store.ShardedMap.Batch.{effect}
use key_value_store.Protocol.Parser.{
  CommandType, set_type, get_type, del_type, stats, compact, begin_type, commit_type, rollback,
  quit, invalid_type, ParsedCommand,
}
use key_value_store.Transaction.{Transaction}
use key_value_store.Transaction.Overlay.{IsIndexed}
use key_value_store.Session.{Reply}

pub record Client : Type 0 where
  pub finds : Bytes → Option Bytes
  pub buffered : Option (List Mutation)

abbrev pub write_of : Bytes → Option Bytes → Mutation
write_of key none = record { erase = true; key = key; value = [] }
write_of key (some value) = record { erase = false; key = key; value = value }

-- A `SET`, or a `DEL` where the value is `none`.
unfoldable pub client_write : Bytes → Option Bytes → Client → Client
client_write key o c = elim c.buffered [
  | none ↦ record c { finds = update key o c.finds }
  | some l ↦ record c { buffered = some (l ++ (write_of key o ∷ [])) }
]

unfoldable pub client_begin : Client → Client
client_begin c = elim c.buffered [ none ↦ record c { buffered = some [] } | some l ↦ c ]

unfoldable pub client_commit : Client → Client
client_commit c = elim c.buffered [
  | none ↦ c
  | some l ↦ record { finds = effect l c.finds; buffered = none }
]

unfoldable pub promised_state : CommandType → ParsedCommand → Client → Client
unfolding client_write client_begin client_commit
promised_state set_type cmd c = client_write cmd.key (some cmd.value) c
promised_state get_type cmd c = c
promised_state del_type cmd c = client_write cmd.key none c
promised_state stats cmd c = c
promised_state compact cmd c = c
promised_state begin_type cmd c = client_begin c
promised_state commit_type cmd c = client_commit c
promised_state rollback cmd c = record c { buffered = none }
promised_state quit cmd c = c
promised_state invalid_type cmd c = c

-- What a client sees in its transaction, or outside one.
unfoldable pub client_sees : Client → Bytes → Option Bytes
client_sees c = elim c.buffered [ none ↦ c.finds | some l ↦ effect l c.finds ]

abbrev pub reply : Bytes → Option Reply
reply text = some (text ++ (10 ∷ []), false)

abbrev pub value_line : Option Bytes → Bytes
value_line none = codes "$nil"
value_line (some value) = codes "$" ++ value

-- A number of mutations behind `text`, or the complaint that there is no transaction.
abbrev pub count_line : Bytes → Option (List Mutation) → Bytes
count_line text none = codes "-ERR no transaction in progress"
count_line text (some l) = text ++ to_string (length l)

abbrev pub begin_answer : Option (List Mutation) → Bytes
begin_answer none = codes "+OK"
begin_answer (some l) = codes "-ERR already in a transaction"

-- The reply; what the statistics and a compaction say is left open.
unfoldable pub promised_reply : CommandType → ParsedCommand → Client → Option Reply
unfolding client_sees
promised_reply set_type cmd c = reply (codes "+OK")
promised_reply get_type cmd c = reply (value_line (client_sees c cmd.key))
promised_reply del_type cmd c = reply (codes "+OK")
promised_reply stats cmd c = none
promised_reply compact cmd c = none
promised_reply begin_type cmd c = reply (begin_answer c.buffered)
promised_reply commit_type cmd c = reply (count_line (codes "$committed=") c.buffered)
promised_reply rollback cmd c = reply (count_line (codes "$rolled_back=") c.buffered)
promised_reply quit cmd c = some (codes "+OK" ++ (10 ∷ []), true)
promised_reply invalid_type cmd c = reply (codes "-ERR " ++ cmd.error)

-- The transaction of a session is open with these mutations, and its index is right.
abbrev pub Buffers : Option Transaction → Option (List Mutation) → Type 0
Buffers none none = Unit {0}
Buffers (some t) (some l) = (t.active ≡ true) × (t.mutations ≡ l) × IsIndexed t
Buffers _ _ = ⊥

-- The client of a session on a valid map with no memory budget that it may write to.
pub record Represents (hash : Bytes → ℕ) (o : Option Transaction) (m : ShardedMap)
    (read_only : Bool) (c : Client) : Type 0 where
  pub valid : IsValid hash m
  pub finds : (k : Bytes) → view hash m k ≡ c.finds k
  pub off : eviction_enabled m ≡ false
  pub writable : read_only ≡ false
  pub buffers : Buffers o c.buffered
