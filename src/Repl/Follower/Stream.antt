-- ===== src/Repl/Follower/Stream.antt =====
-- What a follower is, that is fed the bytes of its leader's log.
use key_value_store.Common.{
  ◌+◌, none, ℕ, ◌<◌, ◌≡◌, refl, sym, ap, ◌∙◌, subst, Bool, true, false, ◌&&◌, not, List, [], ◌∷◌,
  ◌++◌, some, Bytes, length, drop, arith, append-nil, append_assoc, drop-append_right,
}
use key_value_store.Store.Engine.Applier.{Applier, apply}
use key_value_store.Wal.Log.{LogError, threw, append_batch, Io, Log, WriteResult, frames, write_all}
use key_value_store.Wal.Record.{frame}
use key_value_store.Wal.Replay.Scanning.{AreSmall, handle_all}
use key_value_store.Repl.Follower.{
  max_buffered_transaction_bytes, inside_after, Follower, take_record, receive, erase_parsed,
  is_empty,
}
use key_value_store.Repl.Follower.Parsing.{payload_bytes, payload_bytes-append, take_records, Took}
use key_value_store.Repl.Follower.Flushing.{relog}

pub frames-append : (ps qs : List Bytes) → frames (ps ++ qs) ≡ frames ps ++ frames qs
unfolding frames
frames-append [] qs = refl
frames-append (p ∷ ps) qs =
    ap (λ z. frame p ++ z) (frames-append ps qs)
    ∙ sym (append_assoc (frame p) (frames ps) (frames qs))

-- Whether a transaction is open behind some records.
unfoldable pub inside_over : List Bytes → Bool → Bool
inside_over [] inside = inside
inside_over (p ∷ ps) inside = inside_over ps (inside_after p inside)

pub inside_over-append :
    (ps qs : List Bytes) (b : Bool) → inside_over (ps ++ qs) b ≡ inside_over qs (inside_over ps b)
unfolding inside_over
inside_over-append [] qs b = refl
inside_over-append (p ∷ ps) qs b = inside_over-append ps qs (inside_after p b)

-- What taking records changes.
take_records_lem :
    (ps : List Bytes) (f : Follower)
    → ((take_records ps f).pending ≡ f.pending ++ ps)
      × ((take_records ps f).applier ≡ f.applier)
      × ((take_records ps f).recv_buffer ≡ f.recv_buffer)
      × ((take_records ps f).inside_transaction ≡ inside_over ps f.inside_transaction)
      × ((take_records ps f).pending_bytes ≡ f.pending_bytes + payload_bytes ps)
unfolding take_records take_record inside_over payload_bytes
take_records_lem [] f = (sym (append-nil f.pending), refl, refl, refl, omega arith)
take_records_lem (p ∷ ps) f =
    let (e, e', e'', i, b) = take_records_lem ps (take_record p f) in
    (e ∙ append_assoc f.pending (p ∷ []) ps, e', e'', i, omega (arith, b))

pub All-later : (a b c : List Bytes) → AreSmall (a ++ (b ++ c)) → AreSmall c
All-later [] [] c h = h
All-later [] (p ∷ b) c h = All-later [] b c h.1
All-later (p ∷ a) b c h = All-later a b c h.1

pub empty : (ps : List Bytes) → is_empty ps ≡ true → ps ≡ []
unfolding is_empty
empty [] e = refl
empty (p ∷ ps) e = cc

pub idle :
    (inside none_left : Bool)
    → (not inside && not none_left) ≡ false
    → inside ≡ false
    → none_left ≡ true
idle false true e e' = refl
idle false false e e' = cc
idle true none_left e e' = cc

pub ready : (inside none_left : Bool) → (not inside && not none_left) ≡ true → none_left ≡ false
ready false false e = refl
ready false true e = cc
ready true none_left e = cc

pub filled :
    (ps : List Bytes) → is_empty ps ≡ false → (p : Bytes) × (qs : List Bytes) × (ps ≡ p ∷ qs)
unfolding is_empty
filled [] e = cc
filled (p ∷ ps) e = (p, ps, refl)

-- The bytes of the chunks.
abbrev pub bytes_of : List (Io × List WriteResult × Bytes) → Bytes
bytes_of [] = []
bytes_of ((io, script, bytes) ∷ chunks) = bytes ++ bytes_of chunks

module _ (hash : Bytes → ℕ) (a₀ : Applier) (file₀ : Bytes) (ps : List Bytes) where
  -- The records of the stream are the ones in the log and in the applier, those that wait for the end
  -- of their transaction, and those that did not come yet as a whole; `rest` did not come yet.
  pub record Fed (rest : Bytes) (f : Follower) : Type 0 where
    pub flushed : List Bytes
    pub waiting : List Bytes
    pub later : List Bytes
    pub all : ps ≡ flushed ++ (waiting ++ later)
    pub behind : f.recv_buffer ++ rest ≡ frames later
    pub short :
        (p : Bytes) (qs : List Bytes) → later ≡ p ∷ qs → length f.recv_buffer < length (frame p)
    pub pending_is : f.pending ≡ waiting
    pub log : Log
    pub logged : f.applier.store.log ≡ some log
    pub file : log.file ≡ file₀ ++ frames flushed
    pub handled : handle_all (apply hash) flushed a₀ ≡ some (relog a₀.store.log f.applier)
    pub whole : f.inside_transaction ≡ false → waiting ≡ []
    pub settled : inside_over flushed false ≡ false
    pub inside_is : f.inside_transaction ≡ inside_over (flushed ++ waiting) false
    pub bytes : f.pending_bytes ≡ payload_bytes waiting

  -- Why a follower drops its link at a chunk: the records that wait are too much for it, its log
  -- throws, a record is not known, or the leader does not take an acknowledgement.
  pub data Drops (io : Io) (script : List WriteResult) : Type 0 where
    too_much : max_buffered_transaction_bytes < payload_bytes ps → Drops io script
    not_logged :
        (log : Log) (p : Bytes) (qs : List Bytes) (error : LogError)
        → (append_batch io (p ∷ qs) log).0 ≡ threw error
        → Drops io script
    unknown :
        (qs later : List Bytes)
        → ps ≡ qs ++ later
        → handle_all (apply hash) qs a₀ ≡ none
        → Drops io script
    not_acknowledged : (line : Bytes) → (write_all script line).1 ≡ false → Drops io script

  abbrev pub FedIf : Io → List WriteResult → Bytes → Bool × Follower → Type 0
  FedIf io script rest (true, f) = Fed rest f
  FedIf io script rest (false, f) = Drops io script

  pub when_acknowledged :
      (io : Io) (script : List WriteResult) (line rest : Bytes) (f : Follower)
      → Fed rest f
      → FedIf io script rest ((write_all script line).1, f)
  when_acknowledged io script line rest f x = if_told (write_all script line).1 refl
    where
      if_told : (b : Bool) → (write_all script line).1 ≡ b → FedIf io script rest (b, f)
      if_told true e = x
      if_told false e = not_acknowledged line e

  -- Between the loop over the records and the flush.
  pub record Parsing (rest : Bytes) (f : Follower) : Type 0 where
    pub flushed : List Bytes
    pub waiting : List Bytes
    pub later : List Bytes
    pub all : ps ≡ flushed ++ (waiting ++ later)
    pub behind : f.recv_buffer ++ rest ≡ frames later
    pub short :
        (p : Bytes) (qs : List Bytes) → later ≡ p ∷ qs → length f.recv_buffer < length (frame p)
    pub pending_is : f.pending ≡ waiting
    pub log : Log
    pub logged : f.applier.store.log ≡ some log
    pub file : log.file ≡ file₀ ++ frames flushed
    pub handled : handle_all (apply hash) flushed a₀ ≡ some (relog a₀.store.log f.applier)
    pub settled : inside_over flushed false ≡ false
    pub inside_is : f.inside_transaction ≡ inside_over (flushed ++ waiting) false
    pub bytes : f.pending_bytes ≡ payload_bytes waiting

  -- The records that were taken wait, and what is left of the buffer is a part of the next.
  pub parsed-Parsing :
      (rest rest' bytes : Bytes) (f : Follower) (x : Fed rest f) (offset : ℕ) (f' : Follower)
      → rest ≡ bytes ++ rest'
      → Took x.later [] rest' (receive bytes f) offset f'
      → Parsing rest' (erase_parsed offset f')
  unfolding receive erase_parsed
  parsed-Parsing rest rest' bytes f x offset f' e t =
      let (pending, applier, buffer, inside, counted) =
        take_records_lem t.taken (receive bytes f) in
      let left : drop offset f'.recv_buffer ≡ t.torn =
        ap (drop offset) (ap (λ (z : Follower). z.recv_buffer) t.after ∙ (buffer ∙ t.buffer))
        ∙ drop-append_right (frames t.taken) t.torn 0 offset (omega (arith, t.offset_is)) in
      record {
        flushed = x.flushed;
        waiting = x.waiting ++ t.taken;
        later = t.later;
        all =
            x.all
            ∙ ap (λ z. x.flushed ++ z)
                (ap (λ z. x.waiting ++ z) t.all ∙ sym (append_assoc x.waiting t.taken t.later));
        behind = ap (λ z. z ++ rest') left ∙ t.behind;
        short = λ p qs e. subst (λ z. length z < length (frame p)) (sym left) (t.short p qs e);
        pending_is =
            ap (λ (z : Follower). z.pending) t.after
            ∙ (pending ∙ ap (λ z. z ++ t.taken) x.pending_is);
        log = x.log;
        logged =
            ap (λ (z : Follower). z.applier.store.log) t.after
            ∙ (ap (λ (z : Applier). z.store.log) applier ∙ x.logged);
        file = x.file;
        handled =
            x.handled
            ∙ ap (λ z. some (relog a₀.store.log z))
                (sym (ap (λ (z : Follower). z.applier) t.after ∙ applier));
        settled = x.settled;
        inside_is =
            ap (λ (z : Follower). z.inside_transaction) t.after
            ∙ (inside
                ∙ (ap (inside_over t.taken) x.inside_is
                    ∙ (sym (inside_over-append (x.flushed ++ x.waiting) t.taken false)
                        ∙ ap (λ z. inside_over z false)
                            (append_assoc x.flushed x.waiting t.taken))));
        bytes =
            ap (λ (z : Follower). z.pending_bytes) t.after
            ∙ (counted
                ∙ (ap (λ (n : ℕ). n + payload_bytes t.taken) x.bytes
                    ∙ sym (payload_bytes-append x.waiting t.taken)));
      }
