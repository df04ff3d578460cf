-- ===== src/Repl/Follower/Replica.antt =====
-- What a follower has, as writes of its leader.
use key_value_store.Common.{
  ◌^◌, ℕ, suc, ◌-◌, ◌<◌, ◌≡◌, refl, sym, ap, ◌∙◌, subst, Bool, true, false, List, [], ◌∷◌, ◌++◌,
  Option, none, some, Bytes, length, take, arith, append-nil, length-append, take-append_left,
  take_of_length-le, map, All, leb,
}
use key_value_store.Store.Mutation.{Mutation}
use key_value_store.Store.Engine.{Store, command_of, transaction_payloads}
use key_value_store.Store.Engine.Applier.{Applier, apply, new_applier}
use key_value_store.Store.Recovery.{
  Write, put, remove, commit, IsWritable, records, journal, whole_writes, run_all,
}
use key_value_store.Store.Recovery.Cut.{journal_cut-Applied}
use key_value_store.Protocol.Commands.{
  Command, set_command, del_command, serialize, serialize_begin_marker, serialize_commit_marker,
}
use key_value_store.Protocol.Commands.Markers.{
  begin_marker_reads, commit_marker_reads, command_is_no_marker,
}
use key_value_store.Store.ShardedMap.{ShardedMap}
use key_value_store.Wal.Log.{Io, Log, WriteResult, frames}
use key_value_store.Wal.Record.{frame}
use key_value_store.Wal.Record.Framing.{length-frame}
use key_value_store.Wal.Replay.Scanning.{AreSmall, handle_all}
use key_value_store.Repl.Follower.{Follower, new_follower, consume, inside_after}
use key_value_store.Repl.Follower.Parsing.{payload_bytes}
use key_value_store.Repl.Follower.Stream.{inside_over, inside_over-append, Fed, bytes_of}
use key_value_store.Repl.Follower.Consuming.{FedAll, consume-Fed}

pub inside_after-command : (c : Command) (b : Bool) → inside_after (serialize c) b ≡ b
unfolding inside_after
inside_after-command c b = let (e, e') = command_is_no_marker c in rw (e, e') refl

inside_over-commands :
    (l : List Mutation) (b : Bool)
    → inside_over (map (λ mutation. serialize (command_of mutation)) l) b ≡ b
unfolding inside_over
inside_over-commands [] b = refl
inside_over-commands (mutation ∷ l) b =
    ap (inside_over (map (λ mutation. serialize (command_of mutation)) l))
      (inside_after-command (command_of mutation) b)
    ∙ inside_over-commands l b

pub inside_after-begin :
    (id : ℕ) (b : Bool) → id < 2 ^ 64 → inside_after (serialize_begin_marker id) b ≡ true
unfolding inside_after
inside_after-begin id b h = rw ((begin_marker_reads id h).0) refl

inside_after-commit :
    (id : ℕ) (b : Bool) → id < 2 ^ 64 → inside_after (serialize_commit_marker id) b ≡ false
unfolding inside_after
inside_after-commit id b h = let (e, e', e'') = commit_marker_reads id h in rw (e, e') refl

-- Behind the records of a write no transaction is open.
pub inside_over-records : (w : Write) → IsWritable w → inside_over (records w) false ≡ false
unfolding inside_over records transaction_payloads
inside_over-records (put key value) h = inside_after-command (set_command key value) false
inside_over-records (remove key) h = inside_after-command (del_command key) false
inside_over-records (commit txn_id mu l) (h, sound) =
    let commands = map (λ mutation. serialize (command_of mutation)) (mu ∷ l) in
    let last = serialize_commit_marker txn_id ∷ [] in
    ap (inside_over (commands ++ last)) (inside_after-begin txn_id false h)
    ∙ (inside_over-append commands last true
        ∙ (ap (inside_over last) (inside_over-commands (mu ∷ l) true)
            ∙ inside_after-commit txn_id true h))

inside_over-journal : (ws : List Write) → All IsWritable ws → inside_over (journal ws) false ≡ false
unfolding journal
inside_over-journal [] h = unfold inside_over in refl
inside_over-journal (w ∷ ws) (h, hs) =
    inside_over-append (records w) (journal ws) false
    ∙ (ap (inside_over (journal ws)) (inside_over-records w h) ∙ inside_over-journal ws hs)

pub whole_writes_all : (ws : List Write) → whole_writes (length (journal ws)) ws ≡ length ws
unfolding whole_writes journal
whole_writes_all [] = refl
whole_writes_all (w ∷ ws) =
    let n = length (records w) in
    let m = length (records w ++ journal ws) in
    let fits : leb n m ≡ true = ground (arith, length-append (records w) (journal ws)) in
    let left : m - n ≡ length (journal ws) =
      omega (arith, length-append (records w) (journal ws)) in
    rw (fits, left) (ap suc (whole_writes_all ws))

-- The follower has the records of a first part of the writes in its log, and in its map the writes
-- whose records are all there; once all bytes have come it has all of them.
pub record Replicates (hash : Bytes → ℕ) (ws : List Write) (s : Store) (log : Log) (rest : Bytes)
    (f : Follower) : Type 0 where
  pub count : ℕ
  pub map_is : f.applier.store.map ≡ run_all hash (take (whole_writes count ws) ws) s.map
  pub after : Log
  pub logged : f.applier.store.log ≡ some after
  pub file : after.file ≡ log.file ++ frames (take count (journal ws))
  pub current :
      rest ≡ [] → (count ≡ length (journal ws)) × (f.applier.store.map ≡ run_all hash ws s.map)

new_follower-Fed :
    (hash : Bytes → ℕ) (ps : List Bytes) (s : Store) (log : Log)
    → s.log ≡ some log
    → Fed hash (new_applier s) log.file ps (frames ps) (new_follower s)
unfolding new_follower new_applier handle_all inside_over payload_bytes
new_follower-Fed hash ps s log logged = record {
  flushed = [];
  waiting = [];
  later = ps;
  all = refl;
  behind = refl;
  short = λ p qs e. omega (arith, length-frame p);
  pending_is = refl;
  log = log;
  logged = logged;
  file = unfold frames in sym (append-nil log.file);
  handled = refl;
  whole = λ e. refl;
  settled = refl;
  inside_is = refl;
  bytes = refl;
}

nothing_later :
    (later : List Bytes) (buffer : Bytes)
    → buffer ++ [] ≡ frames later
    → ((p : Bytes) (qs : List Bytes) → later ≡ p ∷ qs → length buffer < length (frame p))
    → later ≡ []
unfolding frames
nothing_later [] buffer e short = refl
nothing_later (p ∷ qs) buffer e short = absurd (
    omega (
      arith,
      ap length e,
      ap length (append-nil buffer),
      length-append (frame p) (frames qs),
      short p qs refl,
    ))

-- Where all bytes of the records of writes have come, all are in the log and in the applier.
pub Fed-complete :
    (hash : Bytes → ℕ) (a : Applier) (file : Bytes) (ws : List Write) (rest : Bytes) (f : Follower)
    → All IsWritable ws
    → rest ≡ []
    → (x : Fed hash a file (journal ws) rest f) → journal ws ≡ x.flushed
Fed-complete hash a file ws rest f writable over x =
    let none_later : x.later ≡ [] =
      nothing_later x.later f.recv_buffer (ap (λ z. f.recv_buffer ++ z) (sym over) ∙ x.behind)
        x.short in
    let all_in : journal ws ≡ x.flushed ++ x.waiting =
      x.all
      ∙ ap (λ z. x.flushed ++ z) (ap (λ z. x.waiting ++ z) none_later ∙ append-nil x.waiting) in
    let outside =
      x.inside_is
      ∙ (ap (λ z. inside_over z false) (sym all_in) ∙ inside_over-journal ws writable) in
    all_in ∙ (ap (λ z. x.flushed ++ z) (x.whole outside) ∙ append-nil x.flushed)

abbrev pub map_or : ShardedMap → Option Applier → ShardedMap
map_or m none = m
map_or m (some a) = a.store.map

module _ (hash : Bytes → ℕ) (ws : List Write) (s : Store) (log : Log)
    (writable : All IsWritable ws) where
  pub Replicates-Fed :
      (rest : Bytes) (f : Follower)
      → Fed hash (new_applier s) log.file (journal ws) rest f
      → Replicates hash ws s log rest f
  unfolding new_applier
  Replicates-Fed rest f x =
      let count = length x.flushed in
      let front : take count (journal ws) ≡ x.flushed =
        ap (take count) x.all ∙ take-append_left x.flushed (x.waiting ++ x.later) count refl in
      let (inside, y) = journal_cut-Applied hash ws count (new_applier s) writable refl in
      let applied : f.applier.store.map ≡ run_all hash (take (whole_writes count ws) ws) s.map =
        ap (map_or s.map) (
          sym x.handled
          ∙ (ap (λ z. handle_all (apply hash) z (new_applier s)) (sym front) ∙ y.handled))
        ∙ y.map_is in
      record {
        count = count;
        map_is = applied;
        after = x.log;
        logged = x.logged;
        file = x.file ∙ ap (λ z. log.file ++ frames z) (sym front);
        current = λ over.
            let whole : journal ws ≡ x.flushed =
              Fed-complete hash (new_applier s) log.file ws rest f writable over x in
            let full : count ≡ length (journal ws) = ap length (sym whole) in
            (
              full,
              applied
                  ∙ ap (λ z. run_all hash z s.map)
                      (ap (λ z. take (whole_writes z ws) ws) full
                        ∙ (ap (λ z. take z ws) (whole_writes_all ws)
                            ∙ take_of_length-le ws (length ws) (omega arith))),
            );
      }

  pub stream-FedAll :
      (chunks : List (Io × List WriteResult × Bytes)) (rest : Bytes)
      → AreSmall (journal ws)
      → s.log ≡ some log
      → bytes_of chunks ++ rest ≡ frames (journal ws)
      → FedAll hash
          (new_applier s)
          log.file
          (journal ws)
          chunks
          rest
          (consume hash chunks (new_follower s))
  stream-FedAll chunks rest small logged sent =
      consume-Fed hash (new_applier s) log.file (journal ws) chunks rest (new_follower s) small (
        subst (λ z. Fed hash (new_applier s) log.file (journal ws) z (new_follower s)) (sym sent)
          (new_follower-Fed hash (journal ws) s log logged))

  -- A follower that still has its link behind some chunks of its leader's log, whatever its own
  -- calls answered, has the records of a first part of the writes in its log and, in its map,
  -- exactly the writes whose records are all among them; once all bytes have come it has all of
  -- them, where the records are not too long.
  pub consume-Replicates :
      (chunks : List (Io × List WriteResult × Bytes)) (rest : Bytes) (f : Follower)
      → AreSmall (journal ws)
      → s.log ≡ some log
      → bytes_of chunks ++ rest ≡ frames (journal ws)
      → consume hash chunks (new_follower s) ≡ (true, f)
      → Replicates hash ws s log rest f
  consume-Replicates chunks rest f small logged sent kept = Replicates-Fed rest f (
      subst (FedAll hash (new_applier s) log.file (journal ws) chunks rest) kept
        (stream-FedAll chunks rest small logged sent))
