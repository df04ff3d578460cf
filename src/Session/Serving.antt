-- ===== src/Session/Serving.antt =====
-- A session keeps its promise: each line is answered as `Promised` says, or fails and changes nothing
-- that its client sees.
use key_value_store.Common.{
  find, Option-cases, inl, inr, if_elim, is_some, ap, fun_ext, false, ℕ, ◌≡◌, refl, ap, ◌∙◌, List,
  [], ◌∷◌, ◌++◌, Option, none, some, Bytes,
}
use key_value_store.Store.Mutation.{Mutation}
use key_value_store.Store.ShardedMap.{map_get}
use key_value_store.Store.ShardedMap.Contents.{view-map_get}
use key_value_store.Store.Engine.{Store, commit_transaction}
use key_value_store.Store.Engine
use key_value_store.Store.ShardedMap.Batch.{effect}
use key_value_store.Store.Engine.Endings.{Outcome-cases, compact-Keeps}
use key_value_store.Protocol.Parser.{
  parse, stats, quit, invalid_type, get_type, begin_type, rollback, compact, CommandType, set_type,
  del_type, commit_type, ParsedCommand,
}
use key_value_store.Transaction.{Transaction, txn_get}
use key_value_store.Transaction.Overlay.{store_get_lem, txn_get-effect}
use key_value_store.Store.Engine.{store_get, note_rollback, next_transaction_id}
use key_value_store.Session.{
  get_reply, compact_line, compact_reply, dispatch, execute, handle_line, LineIo, found_reply,
  Session, LineIo, say,
}
use key_value_store.Session.Promised.{
  value_line, Client, promised_state, promised_reply, Represents,
}
use key_value_store.Session.Answering.{
  Answers, promised, raised, ServesAt, client, session_of, Represents-read, set_serves, del_serves,
  begin_serves, rollback_serves,
}
use key_value_store.Session.Committing.{commit_serves}

module _ (hash : Bytes → ℕ) (f : Bytes → Option Bytes) (io : LineIo) (cmd : ParsedCommand)
    (s : Store) where
  found_lem : (o : Option Bytes) → found_reply o ≡ say (value_line o)
  found_lem none = refl
  found_lem (some v) = refl

  store_get_map : (k : Bytes) → (store_get hash k s).1.map ≡ (map_get hash k s.map).1
  unfolding store_get
  store_get_map k =
      if_elim (λ (p : Option Bytes × Store). p.1.map ≡ (map_get hash k s.map).1)
        (is_some (map_get hash k s.map).0) refl refl

  store_get_mode : (k : Bytes) → (store_get hash k s).1.read_only ≡ s.read_only
  unfolding store_get
  store_get_mode k =
      if_elim (λ (p : Option Bytes × Store). p.1.read_only ≡ s.read_only)
        (is_some (map_get hash k s.map).0) refl refl

  get_shown :
      (o : Option Transaction) (c : Client)
      → Represents hash o s.map s.read_only c
      → Represents hash o (store_get hash cmd.key s).1.map (store_get hash cmd.key s).1.read_only c
  get_shown o c r =
      rw (store_get_map cmd.key, store_get_mode cmd.key)
        (Represents-read hash f cmd.key o c s.map s.read_only r)

  txn_get_shown :
      (t : Transaction) (o : Option Transaction) (c : Client)
      → Represents hash o s.map s.read_only c
      → Represents hash o (txn_get hash cmd.key t s).1.map (txn_get hash cmd.key t s).1.read_only c
  unfolding txn_get
  txn_get_shown t o c r = elim (Option-cases (find cmd.key t.latest)) [
    | inl absent ↦ rw (absent, txn_get) (get_shown o c r)
    | inr (i, there) ↦ rw (there, txn_get) r
  ]

  answers :
      {v w : Option Bytes}
      → v ≡ w
      → Answers (some (value_line w ++ (10 ∷ []), false)) (value_line v ++ (10 ∷ []), false)
  answers e = ap (λ o. (value_line o ++ (10 ∷ []), false)) e

  get_serves :
      (o : Option Transaction) (l : Option (List Mutation))
      → Represents hash o s.map s.read_only (client f l)
      → ServesAt hash get_type cmd (client f l) (get_reply hash cmd.key (session_of o) s)
  unfolding get_reply promised_state promised_reply
  get_serves none none r =
      promised _ (found_lem _)
        (answers (
          store_get_lem hash cmd.key s
          ∙ (view-map_get hash cmd.key s.map r.valid).0
          ∙ r.finds cmd.key))
        (get_shown none (client f none) r)
  get_serves (some t) (some l) r =
      let (active, same, x) = r.buffers in
      promised _ (found_lem _)
        (answers (
          txn_get-effect hash cmd.key t s x r.valid
          ∙ ap (λ (g : Bytes → Option Bytes). effect t.mutations g cmd.key) (fun_ext r.finds)
          ∙ ap (λ z. effect z f cmd.key) same))
        (txn_get_shown t (some t) (client f (some l)) r)
  get_serves none (some l) r = absurd r.buffers
  get_serves (some t) none r = absurd r.buffers

  moved :
      (o : Option Transaction) (c : Client) (s' : Store)
      → (s'.map ≡ s.map) × (s'.read_only ≡ s.read_only)
      → Represents hash o s.map s.read_only c
      → Represents hash o s'.map s'.read_only c
  moved o c s' (e, e') r = rw (e, e') r

  compact_serves :
      (o : Option Transaction) (l : Option (List Mutation))
      → Represents hash o s.map s.read_only (client f l)
      → ServesAt hash compact cmd (client f l) (compact_line io (session_of o) s)
  unfolding compact_line promised_state promised_reply
  compact_serves o l r =
      let x = Engine.compact io.compaction io.reopen_ok io.lseek_ok s in
      let after =
        moved o (client f l) x.1 (compact-Keeps io.compaction io.reopen_ok io.lseek_ok s) r in
      elim (Outcome-cases (compact_reply io.error_text x.0)) [
        | inl (a, e) ↦ promised a e tt after
        | inr (error, e) ↦ raised error e after
      ]

  dispatch_serves :
      (type : CommandType) (o : Option Transaction) (l : Option (List Mutation))
      → Represents hash o s.map s.read_only (client f l)
      → ServesAt hash type cmd (client f l) (dispatch hash io type cmd (session_of o) s)
  unfolding dispatch promised_state promised_reply
  dispatch_serves set_type o l r = set_serves hash f io cmd s o l r
  dispatch_serves get_type o l r = get_serves o l r
  dispatch_serves del_type o l r = del_serves hash f io cmd s o l r
  dispatch_serves stats o l r = promised _ refl tt r
  dispatch_serves compact o l r = compact_serves o l r
  dispatch_serves begin_type o l r = begin_serves hash f io cmd s o l r
  dispatch_serves commit_type o l r = commit_serves hash f io cmd s o l r
  dispatch_serves rollback o l r = rollback_serves hash f io cmd s o l r
  dispatch_serves quit o l r = promised _ refl refl r
  dispatch_serves invalid_type o l r = promised _ refl refl r

-- One line of a session on a store that it may write to, over a valid map with no memory budget: it
-- is answered as an abstract client, a function from keys to values with the list of the mutations
-- of its transaction, is promised, and leaves what stands for the promised client; or a commit is
-- refused, or the log throws, and what is left stands for the same client as before. What the
-- statistics and a compaction say is left open.
pub handle_line-Serves :
    (hash : Bytes → ℕ) (io : LineIo) (line : Bytes) (session : Session) (s : Store) (c : Client)
    → Represents hash session.transaction s.map s.read_only c
    → ServesAt hash (parse line).type (parse line) c (handle_line hash io line session s)
unfolding handle_line execute
handle_line-Serves hash io line session s c r =
    rw (r.writable, execute)
      (dispatch_serves hash c.finds io (parse line) s (parse line).type session.transaction
        c.buffered r)
