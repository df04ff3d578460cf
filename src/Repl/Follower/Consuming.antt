-- ===== src/Repl/Follower/Consuming.antt =====
-- A follower that is fed the bytes of its leader's log, chunk by chunk.
use key_value_store.Common.{
  ◌⊎◌, inl, inr, ℕ, suc, ◌<◌, ◌≡◌, refl, sym, ap, ◌∙◌, subst, Bool, true, false, ◌&&◌, not, List,
  [], ◌∷◌, ◌++◌, Bytes, length, arith, Bool-cases, append-nil, append_assoc, if_cases,
}
use key_value_store.Store.Engine.{log_offset}
use key_value_store.Store.Engine.Applier.{Applier, apply}
use key_value_store.Wal.Log.{Outcome, LogError, threw, append_batch, Io, WriteResult, frames}
use key_value_store.Wal.Record.{frame}
use key_value_store.Wal.Replay.Scanning.{AreSmall, handle_all-append}
use key_value_store.Repl.Follower.{
  ack_line, Follower, Parsed, drops, keeps, parse_loop, receive, erase_parsed, send_ack,
  acknowledge, is_empty, after_parse, flush_pending, consume_chunk, consume,
}
use key_value_store.Repl.Follower.Parsing.{
  payload_bytes, payload_bytes-append, TookAll, parse_loop-Took,
}
use key_value_store.Repl.Follower.Flushing.{
  handle_all-relogs, relogs, FlushesIf, flush_pending-Flushes, handle_all-relog,
}
use key_value_store.Repl.Follower.Stream.{
  frames-append, empty, idle, ready, filled, All-later, bytes_of, inside_over, Fed, Drops, too_much,
  not_logged, unknown, FedIf, when_acknowledged, Parsing, parsed-Parsing,
}

closed : (inside none_left : Bool) → (not inside && not none_left) ≡ true → inside ≡ false
closed false none_left e = refl
closed true none_left e = cc

module _ (hash : Bytes → ℕ) (a₀ : Applier) (file₀ : Bytes) (ps : List Bytes) where
  flush-Fed :
      (io : Io) (script : List WriteResult) (rest : Bytes) (f : Follower) (y : Bool × Follower)
      (x : Parsing hash a₀ file₀ ps rest f) (o : Outcome ℕ)
      → f.inside_transaction ≡ false
      → ((error : LogError) → o ≡ threw error → Drops hash a₀ file₀ ps io script)
      → FlushesIf hash o x.log f y
      → FedIf hash a₀ file₀ ps io script rest y
  unfolding payload_bytes
  flush-Fed io script rest f (false, f') x o outside back (inl (error, e)) = back error e
  flush-Fed io script rest f (false, f') x o outside back (inr e) =
      unknown (x.flushed ++ f.pending) x.later
        (x.all
          ∙ (ap (λ w. x.flushed ++ (w ++ x.later)) (sym x.pending_is)
              ∙ sym (append_assoc x.flushed f.pending x.later)))
        (handle_all-append (apply hash) x.flushed f.pending a₀ _ x.handled
          ∙ (handle_all-relogs hash a₀.store.log f.pending f.applier
              ∙ ap (relogs hash a₀.store.log) e))
  flush-Fed io script rest f (true, f') x o outside back z = record {
    flushed = x.flushed ++ f.pending;
    waiting = [];
    later = x.later;
    all =
        x.all
        ∙ (ap (λ w. x.flushed ++ (w ++ x.later)) (sym x.pending_is)
            ∙ sym (append_assoc x.flushed f.pending x.later));
    behind = ap (λ w. w ++ rest) z.buffer ∙ x.behind;
    short = λ p qs e. subst (λ w. length w < length (frame p)) (sym z.buffer) (x.short p qs e);
    pending_is = z.nothing;
    log = z.after;
    logged = z.logged;
    file =
        z.file
        ∙ (ap (λ w. w ++ frames f.pending) x.file
            ∙ (append_assoc file₀ (frames x.flushed) (frames f.pending)
                ∙ ap (λ w. file₀ ++ w) (sym (frames-append x.flushed f.pending))));
    handled =
        handle_all-append (apply hash) x.flushed f.pending a₀ _ x.handled
        ∙ handle_all-relog hash a₀.store.log f.pending f.applier _ z.handled;
    whole = λ e. refl;
    settled =
        ap (λ w. inside_over (x.flushed ++ w) false) x.pending_is ∙ (sym x.inside_is ∙ outside);
    inside_is =
        z.inside
        ∙ (x.inside_is
            ∙ ap (λ w. inside_over w false)
                (ap (λ w. x.flushed ++ w) (sym x.pending_is)
                  ∙ sym (append-nil (x.flushed ++ f.pending))));
    bytes = z.no_bytes;
  }

  -- Nothing waits, or a transaction is open.
  stay-Fed :
      (rest : Bytes) (f : Follower) (x : Parsing hash a₀ file₀ ps rest f)
      → (not f.inside_transaction && not (is_empty f.pending)) ≡ false
      → Fed hash a₀ file₀ ps rest f
  stay-Fed rest f x e = record {
    flushed = x.flushed;
    waiting = x.waiting;
    later = x.later;
    all = x.all;
    behind = x.behind;
    short = x.short;
    pending_is = x.pending_is;
    log = x.log;
    logged = x.logged;
    file = x.file;
    handled = x.handled;
    settled = x.settled;
    inside_is = x.inside_is;
    bytes = x.bytes;
    whole = λ outside.
        sym x.pending_is
        ∙ empty f.pending (idle f.inside_transaction (is_empty f.pending) e outside);
  }

  acknowledge-Fed :
      (io : Io) (script : List WriteResult) (rest : Bytes) (y : Bool × Follower)
      → FedIf hash a₀ file₀ ps io script rest y
      → FedIf hash a₀ file₀ ps io script rest (acknowledge script y)
  unfolding acknowledge send_ack
  acknowledge-Fed io script rest (false, f) x = x
  acknowledge-Fed io script rest (true, f) x =
      when_acknowledged hash a₀ file₀ ps io script (ack_line (log_offset f.applier.store)) rest _
        (record {
          flushed = x.flushed;
          waiting = x.waiting;
          later = x.later;
          all = x.all;
          behind = x.behind;
          short = x.short;
          pending_is = x.pending_is;
          log = x.log;
          logged = x.logged;
          file = x.file;
          handled = x.handled;
          whole = x.whole;
          settled = x.settled;
          inside_is = x.inside_is;
          bytes = x.bytes;
        })

  after_parse-Fed :
      (io : Io) (script : List WriteResult) (rest rest' bytes : Bytes) (f : Follower)
      (x : Fed hash a₀ file₀ ps rest f) (r : Parsed)
      → rest ≡ bytes ++ rest'
      → TookAll x.later [] rest' (receive bytes f) r
      → FedIf hash a₀ file₀ ps io script rest' (after_parse hash io script r)
  unfolding after_parse
  after_parse-Fed io script rest rest' bytes f x (drops f') e t = too_much (
      unfold receive in
      omega (
        arith,
        t,
        x.bytes,
        ap payload_bytes x.all,
        payload_bytes-append x.flushed (x.waiting ++ x.later),
        payload_bytes-append x.waiting x.later,
      ))
  after_parse-Fed io script rest rest' bytes f x (keeps offset f') e t =
      let g = erase_parsed offset f' in
      let y = parsed-Parsing hash a₀ file₀ ps rest rest' bytes f x offset f' e t in
      if_cases (FedIf hash a₀ file₀ ps io script rest')
        (not g.inside_transaction && not (is_empty g.pending))
        (λ flush.
          let (p, qs, e') =
            filled g.pending (ready g.inside_transaction (is_empty g.pending) flush) in
          acknowledge-Fed io script rest' (flush_pending hash io g) (
            flush-Fed io script rest' g (flush_pending hash io g) y
              (append_batch io g.pending y.log).0
              (closed g.inside_transaction (is_empty g.pending) flush)
              (λ error failed.
                not_logged y.log p qs error
                  (ap (λ z. (append_batch io z y.log).0) (sym e') ∙ failed))
              (flush_pending-Flushes hash io y.log g p qs e' y.logged)))
        (λ wait. stay-Fed rest' g y wait)

  consume_chunk-Fed :
      (io : Io) (script : List WriteResult) (rest rest' bytes : Bytes) (f : Follower)
      → AreSmall ps
      → rest ≡ bytes ++ rest'
      → Fed hash a₀ file₀ ps rest f
      → FedIf hash a₀ file₀ ps io script rest' (consume_chunk hash io script bytes f)
  unfolding consume_chunk
  consume_chunk-Fed io script rest rest' bytes f small e x =
      let g = receive bytes f in
      after_parse-Fed io script rest rest' bytes f x (parse_loop (suc (length g.recv_buffer)) 0 g) e
        (parse_loop-Took x.later (suc (length g.recv_buffer)) [] g.recv_buffer rest' g 0
          (All-later x.flushed x.waiting x.later (subst AreSmall x.all small)) refl
          (unfold receive in
            (append_assoc f.recv_buffer bytes rest'
              ∙ (ap (λ z. f.recv_buffer ++ z) (sym e) ∙ x.behind)))
          refl (omega arith))

  -- Some chunk makes the follower drop its link.
  abbrev pub DropsIn : List (Io × List WriteResult × Bytes) → Type 0
  DropsIn [] = ⊥
  DropsIn ((io, script, bytes) ∷ chunks) = Drops hash a₀ file₀ ps io script ⊎ DropsIn chunks

  abbrev pub FedAll : List (Io × List WriteResult × Bytes) → Bytes → Bool × Follower → Type 0
  FedAll chunks rest (true, f) = Fed hash a₀ file₀ ps rest f
  FedAll chunks rest (false, f) = DropsIn chunks

  later_chunks :
      (io : Io) (script : List WriteResult) (bytes : Bytes)
      (chunks : List (Io × List WriteResult × Bytes)) (rest : Bytes) (y : Bool × Follower)
      → FedAll chunks rest y
      → FedAll ((io, script, bytes) ∷ chunks) rest y
  later_chunks io script bytes chunks rest (true, f) x = x
  later_chunks io script bytes chunks rest (false, f) x = inr x

  pub consume-Fed :
      (chunks : List (Io × List WriteResult × Bytes)) (rest : Bytes) (f : Follower)
      → AreSmall ps
      → Fed hash a₀ file₀ ps (bytes_of chunks ++ rest) f
      → FedAll chunks rest (consume hash chunks f)
  unfolding consume
  consume-Fed [] rest f small x = x
  consume-Fed ((io, script, bytes) ∷ chunks) rest f small x =
      let y = consume_chunk hash io script bytes f in
      let z =
        consume_chunk-Fed io script ((bytes ++ bytes_of chunks) ++ rest) (bytes_of chunks ++ rest)
          bytes f small (append_assoc bytes (bytes_of chunks) rest) x in
      elim (Bool-cases y.0) [
        | inl kept ↦
            let fed =
              subst (λ b. FedIf hash a₀ file₀ ps io script (bytes_of chunks ++ rest) (b, y.1)) kept
                z in
            rw (kept, consume)
              (later_chunks io script bytes chunks rest _ (consume-Fed chunks rest y.1 small fed))
        | inr dropped ↦
            let why =
              subst (λ b. FedIf hash a₀ file₀ ps io script (bytes_of chunks ++ rest) (b, y.1))
                dropped z in
            rw (dropped, consume) (inl why)
      ]
