-- ===== src/Repl/Follower/Resuming.antt =====
-- src/repl/follower.cpp: a follower whose connection ends, and that gets the rest of the log over the
-- next one.
use key_value_store.Common.{
  ℕ, zero, suc, ◌-◌, ◌<◌, ◌≤◌, ◌≡◌, refl, sym, ap, ◌∙◌, subst, Bool, true, false, List, [], ◌∷◌,
  ◌++◌, some, Bytes, length, take, drop, arith, append-nil, length-append, take-append_left,
  take-append_le, take-append_right, take_of_length-le, drop-append_right, map, All, leb,
  Bool-cases, inl, inr, take_nil, drop_of_length-le, none, Option,
}
use key_value_store.Store.Mutation.{Mutation}
use key_value_store.Store.Engine.{Store, command_of, transaction_payloads}
use key_value_store.Store.ShardedMap.{ShardedMap}
use key_value_store.Store.Recovery.Cut.{journal_cut-Applied}
use key_value_store.Wal.Record.Framing.{length-frame}
use key_value_store.Repl.Follower.Catching.{ChunkWorks, stays_linked}
use key_value_store.Repl.Follower.Flushing.{relog}
use key_value_store.Repl.Follower.Parsing.{payload_bytes, payload_bytes-append}
use key_value_store.Store.Engine.Applier.{abandon_open_transaction, Applier, apply, new_applier}
use key_value_store.Store.Recovery.{
  Write, put, remove, commit, IsWritable, records, journal, run_all,
}
use key_value_store.Protocol.Commands.{serialize, serialize_commit_marker}
use key_value_store.Wal.Log.{Io, Log, WriteResult, frames}
use key_value_store.Wal.Replay.Scanning.{AreSmall, handle_all}
use key_value_store.Repl.Follower.{
  max_buffered_transaction_bytes, Follower, new_follower, consume, reset_link,
}
use key_value_store.Repl.Follower.Stream.{
  All-later, inside_over, inside_over-append, Fed, frames-append, bytes_of,
}
use key_value_store.Repl.Follower.Consuming.{FedAll, consume-Fed}
use key_value_store.Repl.Follower.Replica.{
  Fed-complete, whole_writes_all, map_or, inside_after-command, inside_after-begin,
  inside_over-records, stream-FedAll,
}

-- No first part of the commands of a transaction changes whether one is open.
inside_over-take :
    (l : List Mutation) (n : ℕ) (last : List Bytes) (b : Bool)
    → n ≤ length l
    → inside_over (take n (map (λ mutation. serialize (command_of mutation)) l ++ last)) b ≡ b
unfolding inside_over
inside_over-take l zero last b h = refl
inside_over-take [] (suc n) last b h = absurd (omega (arith, h))
inside_over-take (mutation ∷ l) (suc n) last b h =
    ap (inside_over (take n (map (λ mutation. serialize (command_of mutation)) l ++ last)))
      (inside_after-command (command_of mutation) b)
    ∙ inside_over-take l n last b (omega (arith, h))

length-commands :
    (l : List Mutation) → length (map (λ mutation. serialize (command_of mutation)) l) ≡ length l
length-commands [] = refl
length-commands (mutation ∷ l) = ap suc (length-commands l)

-- A part of the records of a write with no transaction open behind it has none of them.
cut_records :
    (w : Write) (n : ℕ)
    → IsWritable w
    → n < length (records w)
    → inside_over (take n (records w)) false ≡ false
    → n ≡ 0
unfolding records transaction_payloads inside_over
cut_records w zero h short e = refl
cut_records (put key value) (suc n) h short e = absurd (omega (arith, short))
cut_records (remove key) (suc n) h short e = absurd (omega (arith, short))
cut_records (commit txn_id mu l) (suc n) (h, sound) short e =
    let commands = map (λ mutation. serialize (command_of mutation)) (mu ∷ l) in
    let last = serialize_commit_marker txn_id ∷ [] in
    let open_now =
      inside_over-take (mu ∷ l) n last true
        (omega (arith, short, length-append commands last, length-commands (mu ∷ l))) in
    let both : true ≡ false =
      sym open_now
      ∙ (ap (inside_over (take n (commands ++ last))) (sym (inside_after-begin txn_id false h))
          ∙ e) in
    absurd (cc)

-- The first `n` records are those of whole writes.
record IsWhole (ws : List Write) (n : ℕ) : Type 0 where
  count : ℕ
  front : take n (journal ws) ≡ journal (take count ws)
  behind : drop n (journal ws) ≡ journal (drop count ws)
  front_ok : All IsWritable (take count ws)
  rest_ok : All IsWritable (drop count ws)

settled-IsWhole :
    (ws : List Write) (n : ℕ)
    → All IsWritable ws
    → inside_over (take n (journal ws)) false ≡ false
    → IsWhole ws n
unfolding journal
settled-IsWhole [] n h e = record {
  count = 0;
  front = take_nil n;
  behind = drop_of_length-le n [] (omega arith);
  front_ok = tt;
  rest_ok = tt;
}
settled-IsWhole (w ∷ ws) n (h, hs) e = elim (Bool-cases (leb (length (records w)) n)) [
  | inl whole ↦
      let later = n - length (records w) in
      let cut = take-append_right (records w) (journal ws) later n (ground (arith, whole)) in
      let x = settled-IsWhole ws later hs (
        ap (inside_over (take later (journal ws))) (sym (inside_over-records w h))
        ∙ (sym (inside_over-append (records w) (take later (journal ws)) false)
            ∙ (ap (λ z. inside_over z false) (sym cut) ∙ e))) in
      record {
        count = suc x.count;
        front = cut ∙ ap (λ z. records w ++ z) x.front;
        behind =
            drop-append_right (records w) (journal ws) later n (ground (arith, whole)) ∙ x.behind;
        front_ok = (h, x.front_ok);
        rest_ok = x.rest_ok;
      }
  | inr short ↦
      let below : n < length (records w) = ground (arith, short) in
      let none_yet = cut_records w n h below (
        ap (λ z. inside_over z false)
          (sym (take-append_le (records w) (journal ws) n (omega (arith, below))))
        ∙ e) in
      record {
        count = 0;
        front = ap (λ (m : ℕ). take m (records w ++ journal ws)) none_yet;
        behind = ap (λ (m : ℕ). drop m (records w ++ journal ws)) none_yet;
        front_ok = tt;
        rest_ok = (h, hs);
      }
]

reset_link-Fed :
    (hash : Bytes → ℕ) (a : Applier) (file : Bytes) (ps : List Bytes) (rest : Bytes) (f : Follower)
    (x : Fed hash a file ps rest f)
    → Fed hash
        (reset_link f).applier
        x.log.file
        (x.waiting ++ x.later)
        (frames (x.waiting ++ x.later))
        (reset_link f)
unfolding reset_link abandon_open_transaction handle_all inside_over payload_bytes
reset_link-Fed hash a file ps rest f x = record {
  flushed = [];
  waiting = [];
  later = x.waiting ++ x.later;
  all = refl;
  behind = refl;
  short = λ p qs e. omega (arith, length-frame p);
  pending_is = refl;
  log = x.log;
  logged = x.logged;
  file = unfold frames in sym (append-nil x.log.file);
  handled = refl;
  whole = λ e. refl;
  settled = refl;
  inside_is = refl;
  bytes = refl;
}

-- What the records of writes make of the map.
journal-run_all :
    (hash : Bytes → ℕ) (ws : List Write) (a b : Applier)
    → All IsWritable ws
    → a.inside_transaction ≡ false
    → handle_all (apply hash) (journal ws) a ≡ some b
    → b.store.map ≡ run_all hash ws a.store.map
journal-run_all hash ws a b writable idle e =
    let n = length (journal ws) in
    let (inside, y) = journal_cut-Applied hash ws n a writable idle in
    ap (map_or b.store.map) (
      sym e
      ∙ (ap (λ z. handle_all (apply hash) z a)
            (sym (take_of_length-le (journal ws) n (omega arith)))
          ∙ y.handled))
    ∙ (y.map_is
        ∙ ap (λ z. run_all hash z a.store.map)
            (ap (λ m. take m ws) (whole_writes_all ws)
              ∙ take_of_length-le ws (length ws) (omega arith)))

Fed-map :
    (hash : Bytes → ℕ) (a : Applier) (file : Bytes) (ps : List Bytes) (rest : Bytes) (f : Follower)
    (ws : List Write)
    → All IsWritable ws
    → a.inside_transaction ≡ false
    → (x : Fed hash a file ps rest f) → x.flushed ≡ journal ws
    → f.applier.store.map ≡ run_all hash ws a.store.map
Fed-map hash a file ps rest f ws writable idle x e =
    journal-run_all hash ws a (relog a.store.log f.applier) writable idle
      (ap (λ z. handle_all (apply hash) z a) (sym e) ∙ x.handled)

run_all_split :
    (hash : Bytes → ℕ) (ws : List Write) (k : ℕ) (m : ShardedMap)
    → run_all hash (drop k ws) (run_all hash (take k ws) m) ≡ run_all hash ws m
unfolding run_all
run_all_split hash ws zero m = refl
run_all_split hash [] (suc k) m = refl
run_all_split hash (w ∷ ws) (suc k) m = run_all_split hash ws k _

abbrev file_or : Bytes → Option Log → Bytes
file_or file none = file
file_or file (some log) = log.file

-- What is in the stream behind the records that were logged.
rest_of_stream :
    (hash : Bytes → ℕ) (a : Applier) (log after : Log) (ws : List Write) (rest : Bytes)
    (f : Follower) (x : Fed hash a log.file (journal ws) rest f)
    → f.applier.store.log ≡ some after
    → drop (length after.file - length log.file) (frames (journal ws))
      ≡ frames (x.waiting ++ x.later)
rest_of_stream hash a log after ws rest f x is_after =
    let later = x.waiting ++ x.later in
    let same_file : after.file ≡ log.file ++ frames x.flushed =
      ap (file_or after.file) (sym is_after ∙ x.logged) ∙ x.file in
    let offset : length after.file - length log.file ≡ length (frames x.flushed) =
      omega (arith, ap length same_file, length-append log.file (frames x.flushed)) in
    ap (drop (length after.file - length log.file))
      (ap frames x.all ∙ frames-append x.flushed later)
    ∙ drop-append_right (frames x.flushed) (frames later) 0 (length after.file - length log.file)
        (omega (arith, offset))

-- A follower whose calls succeed is fed what came.
kept-Fed :
    (hash : Bytes → ℕ) (a : Applier) (file : Bytes) (ws : List Write)
    (chunks : List (Io × List WriteResult × Bytes)) (rest : Bytes) (y : Bool × Follower)
    → All IsWritable ws
    → a.inside_transaction ≡ false
    → payload_bytes (journal ws) ≤ max_buffered_transaction_bytes
    → All ChunkWorks chunks
    → FedAll hash a file (journal ws) chunks rest y
    → Fed hash a file (journal ws) rest y.1
kept-Fed hash a file ws chunks rest (true, f) writable idle room works x = x
kept-Fed hash a file ws chunks rest (false, f) writable idle room works why =
    absurd (stays_linked hash ws a file writable idle chunks room works why)

-- The second connection, from the follower that the first one left.
resumed_map :
    (hash : Bytes → ℕ) (ws : List Write) (s : Store) (log after : Log) (rest : Bytes)
    (chunks : List (Io × List WriteResult × Bytes)) (f : Follower)
    → All IsWritable ws
    → AreSmall (journal ws)
    → payload_bytes (journal ws) ≤ max_buffered_transaction_bytes
    → f.applier.store.log ≡ some after
    → All ChunkWorks chunks
    → bytes_of chunks ≡ drop (length after.file - length log.file) (frames (journal ws))
    → Fed hash (new_applier s) log.file (journal ws) rest f
    → (consume hash chunks (reset_link f)).1.applier.store.map ≡ run_all hash ws s.map
unfolding new_applier reset_link abandon_open_transaction
resumed_map hash ws s log after rest chunks f writable small room is_after works sent x =
    let n = length x.flushed in
    let later = x.waiting ++ x.later in
    let front : take n (journal ws) ≡ x.flushed =
      ap (take n) x.all ∙ take-append_left x.flushed later n refl in
    let behind : drop n (journal ws) ≡ later =
      ap (drop n) x.all ∙ drop-append_right x.flushed later 0 n (omega arith) in
    let b = settled-IsWhole ws n writable (ap (λ z. inside_over z false) front ∙ x.settled) in
    let first =
      Fed-map hash (new_applier s) log.file (journal ws) rest f (take b.count ws) b.front_ok refl x
        (sym front ∙ b.front) in
    let left : later ≡ journal (drop b.count ws) = sym behind ∙ b.behind in
    let stream : bytes_of chunks ++ [] ≡ frames later =
      append-nil (bytes_of chunks)
      ∙ (sent ∙ rest_of_stream hash (new_applier s) log after ws rest f x is_after) in
    let a = (reset_link f).applier in
    let y =
      consume-Fed hash a x.log.file later chunks [] (reset_link f)
        (All-later x.flushed [] later (subst AreSmall x.all small))
        (subst (λ z. Fed hash a x.log.file later z (reset_link f)) (sym stream)
          (reset_link-Fed hash (new_applier s) log.file (journal ws) rest f x)) in
    let fits : payload_bytes (journal (drop b.count ws)) ≤ max_buffered_transaction_bytes = omega (
      arith,
      room,
      ap payload_bytes x.all,
      payload_bytes-append x.flushed later,
      ap payload_bytes left,
    ) in
    let z = kept-Fed hash a x.log.file (drop b.count ws) chunks [] _ b.rest_ok refl fits works (
      subst (λ ps. FedAll hash a x.log.file ps chunks [] (consume hash chunks (reset_link f))) left
        y) in
    Fed-map hash a x.log.file (journal (drop b.count ws)) [] _ (drop b.count ws) b.rest_ok refl z
      (sym (Fed-complete hash a x.log.file (drop b.count ws) [] _ b.rest_ok refl z))
    ∙ (ap (run_all hash (drop b.count ws)) first ∙ run_all_split hash ws b.count s.map)

-- The connection of a follower ends, wherever that is in the stream of its leader's log, and the
-- next one brings that log from the offset behind the records that the follower logged: through any
-- chunks of it, the follower comes to the map that all the writes of the leader make. Its calls
-- succeed, and the records are not too long and fit its buffer.
pub consume-resumes :
    (hash : Bytes → ℕ) (ws : List Write) (s : Store) (log after : Log) (rest : Bytes)
    (chunks chunks' : List (Io × List WriteResult × Bytes)) (f : Follower)
    → All IsWritable ws
    → AreSmall (journal ws)
    → payload_bytes (journal ws) ≤ max_buffered_transaction_bytes
    → s.log ≡ some log
    → All ChunkWorks chunks
    → bytes_of chunks ++ rest ≡ frames (journal ws)
    → (consume hash chunks (new_follower s)).1 ≡ f
    → f.applier.store.log ≡ some after
    → All ChunkWorks chunks'
    → bytes_of chunks' ≡ drop (length after.file - length log.file) (frames (journal ws))
    → (consume hash chunks' (reset_link f)).1.applier.store.map ≡ run_all hash ws s.map
consume-resumes hash ws s log after rest chunks chunks' f writable small room logged works sent kept
      is_after works' sent' =
    resumed_map hash ws s log after rest chunks' f writable small room is_after works' sent' (
      subst (Fed hash (new_applier s) log.file (journal ws) rest) kept (
        kept-Fed hash (new_applier s) log.file ws chunks rest _ writable
          (unfold new_applier in refl) room works
          (stream-FedAll hash ws s log writable chunks rest small logged sent)))
