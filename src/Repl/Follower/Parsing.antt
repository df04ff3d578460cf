-- ===== src/Repl/Follower/Parsing.antt =====
-- The loop over the received bytes takes the whole records of the stream, however it is cut.
use key_value_store.Common.{
  ℕ, zero, suc, ◌+◌, ◌<◌, ◌≡◌, refl, sym, ap, ◌∙◌, subst, inl, inr, true, false, List, [], ◌∷◌,
  ◌++◌, none, Bytes, length, take, ltb, arith, Bool-cases, append-nil, append_assoc, length-append,
  take-append_left, append_split, ltb→lt,
}
use key_value_store.Wal.Record.{parsed, incomplete, parse_record, frame}
use key_value_store.Wal.Record.Framing.{parse_record-frame, parse_record_torn, length-frame}
use key_value_store.Wal.Log.{frames}
use key_value_store.Wal.Replay.Scanning.{AreSmall}
use key_value_store.Repl.Follower.{
  Follower, take_record, Parsed, drops, keeps, parse_round, parse_loop,
  max_buffered_transaction_bytes,
}

unfoldable pub payload_bytes : List Bytes → ℕ
payload_bytes [] = 0
payload_bytes (p ∷ ps) = length p + payload_bytes ps

pub payload_bytes-append :
    (ps qs : List Bytes) → payload_bytes (ps ++ qs) ≡ payload_bytes ps + payload_bytes qs
unfolding payload_bytes
payload_bytes-append [] qs = omega arith
payload_bytes-append (p ∷ ps) qs = omega (arith, payload_bytes-append ps qs)

unfoldable pub take_records : List Bytes → Follower → Follower
take_records [] f = f
take_records (p ∷ ps) f = take_records ps (take_record p f)

-- From `done` on the buffer has records of `todo` that are whole, which were taken in order, and a
-- first part of the next one.
pub record Took (todo : List Bytes) (done rest : Bytes) (f : Follower) (offset : ℕ) (f' : Follower)
    : Type 0 where
  pub taken : List Bytes
  pub later : List Bytes
  pub torn : Bytes
  pub all : todo ≡ taken ++ later
  pub buffer : f.recv_buffer ≡ (done ++ frames taken) ++ torn
  pub offset_is : offset ≡ length (done ++ frames taken)
  pub behind : torn ++ rest ≡ frames later
  pub short : (p : Bytes) (ps : List Bytes) → later ≡ p ∷ ps → length torn < length (frame p)
  pub after : f' ≡ take_records taken f

-- The loop gives up where more records wait than the limit allows.
abbrev pub TookAll : List Bytes → Bytes → Bytes → Follower → Parsed → Type 0
TookAll todo done rest f (drops f') =
    max_buffered_transaction_bytes < f.pending_bytes + payload_bytes todo
TookAll todo done rest f (keeps offset f') = Took todo done rest f offset f'

-- Nothing is taken.
stopped :
    (todo : List Bytes) (done tail rest : Bytes) (f : Follower) (offset : ℕ)
    → f.recv_buffer ≡ done ++ tail
    → tail ++ rest ≡ frames todo
    → offset ≡ length done
    → ((p : Bytes) (ps : List Bytes) → todo ≡ p ∷ ps → length tail < length (frame p))
    → Took todo done rest f offset f
unfolding frames take_records
stopped todo done tail rest f offset eb behind eo short = record {
  taken = [];
  later = todo;
  torn = tail;
  all = refl;
  buffer = eb ∙ ap (λ z. z ++ tail) (sym (append-nil done));
  offset_is = eo ∙ ap length (sym (append-nil done));
  behind = behind;
  short = short;
  after = refl;
}

parse_loop_stop :
    (fuel offset : ℕ) (f : Follower)
    → parse_record f.recv_buffer offset ≡ incomplete
    → parse_loop (suc fuel) offset f ≡ keeps offset f
unfolding parse_loop parse_round
parse_loop_stop fuel offset f e =
    let round = ap (λ r. parse_round offset r f) e in
    rw (ap (λ x. x.0) round, ap (λ x. x.1) round, parse_loop) refl

parse_loop_go :
    (fuel offset next : ℕ) (p : Bytes) (f : Follower)
    → parse_record f.recv_buffer offset ≡ parsed p next
    → ltb max_buffered_transaction_bytes (take_record p f).pending_bytes ≡ false
    → parse_loop (suc fuel) offset f ≡ parse_loop fuel next (take_record p f)
unfolding parse_loop parse_round
parse_loop_go fuel offset next p f e few = rw (e, few, parse_loop, parse_round) refl

parse_loop_drop :
    (fuel offset next : ℕ) (p : Bytes) (f : Follower)
    → parse_record f.recv_buffer offset ≡ parsed p next
    → ltb max_buffered_transaction_bytes (take_record p f).pending_bytes ≡ true
    → parse_loop (suc fuel) offset f ≡ drops (take_record p f)
unfolding parse_loop parse_round
parse_loop_drop fuel offset next p f e many =
    let last : parse_round offset (parsed p next) f ≡ (none, drops (take_record p f)) =
      rw (many, parse_round) refl in
    let round = ap (λ r. parse_round offset r f) e ∙ last in
    rw (ap (λ x. x.0) round, ap (λ x. x.1) round, parse_loop) refl

stop_round :
    (todo : List Bytes) (done rest : Bytes) (fuel offset : ℕ) (f : Follower)
    → parse_record f.recv_buffer offset ≡ incomplete
    → Took todo done rest f offset f
    → TookAll todo done rest f (parse_loop (suc fuel) offset f)
stop_round todo done rest fuel offset f e t =
    subst (TookAll todo done rest f) (sym (parse_loop_stop fuel offset f e)) t

-- A record more.
Took-more :
    (p : Bytes) (ps : List Bytes) (done rest : Bytes) (f : Follower) (offset : ℕ) (f' : Follower)
    → Took ps (done ++ frame p) rest (take_record p f) offset f'
    → Took (p ∷ ps) done rest f offset f'
unfolding frames take_records take_record
Took-more p ps done rest f offset f' t =
    let same = append_assoc done (frame p) (frames t.taken) in
    record {
      taken = p ∷ t.taken;
      later = t.later;
      torn = t.torn;
      all = ap (λ z. p ∷ z) t.all;
      buffer = t.buffer ∙ ap (λ z. z ++ t.torn) same;
      offset_is = t.offset_is ∙ ap length same;
      behind = t.behind;
      short = t.short;
      after = t.after;
    }

go_round :
    (p : Bytes) (ps : List Bytes) (done rest : Bytes) (f : Follower) (r : Parsed)
    → TookAll ps (done ++ frame p) rest (take_record p f) r
    → TookAll (p ∷ ps) done rest f r
unfolding take_record payload_bytes
go_round p ps done rest f (drops f') t = omega arith
go_round p ps done rest f (keeps offset f') t = Took-more p ps done rest f offset f' t

pub parse_loop-Took :
    (todo : List Bytes) (fuel : ℕ) (done tail rest : Bytes) (f : Follower) (offset : ℕ)
    → AreSmall todo
    → f.recv_buffer ≡ done ++ tail
    → tail ++ rest ≡ frames todo
    → offset ≡ length done
    → length tail < fuel
    → TookAll todo done rest f (parse_loop fuel offset f)
unfolding frames
parse_loop-Took todo zero done tail rest f offset small eb behind eo enough = absurd (omega arith)
parse_loop-Took [] (suc fuel) done [] rest f offset small eb behind eo enough =
    stop_round [] done rest fuel offset f
      (rw (eb, eo) (parse_record_torn done [] 0 (omega arith) (omega (arith, length-frame []))))
      (stopped [] done [] rest f offset eb behind eo (λ p ps e. cc))
parse_loop-Took [] (suc fuel) done (b ∷ tail) rest f offset small eb behind eo enough = cc
parse_loop-Took (p ∷ ps) (suc fuel) done tail rest f offset (small, smalls) eb behind eo enough =
    elim (Bool-cases (ltb (length tail) (length (frame p)))) [
      | inl torn ↦
          let (w, e, e') =
            append_split tail rest (frame p) (frames ps) behind (ground (arith, torn)) in
          let cut : take (length tail) (frame p) ≡ tail =
            ap (take (length tail)) e ∙ take-append_left tail w (length tail) refl in
          stop_round (p ∷ ps) done rest fuel offset f
            (rw (eb, eo, ← cut)
              (parse_record_torn done p (length tail) small (ground (arith, torn))))
            (stopped (p ∷ ps) done tail rest f offset eb behind eo (λ p' ps' e.
              subst (λ z. length tail < length (frame z)) (cc)
                (ltb→lt (length tail) (length (frame p)) torn)))
      | inr whole ↦
          let (w, e, e') =
            append_split (frame p) (frames ps) tail rest (sym behind) (ground (arith, whole)) in
          let next : ℕ = length done + (8 + length p) in
          let eb' : f.recv_buffer ≡ done ++ (frame p ++ w) = eb ∙ ap (λ z. done ++ z) e in
          let here : parse_record f.recv_buffer offset ≡ parsed p next =
            rw (eb', eo) (parse_record-frame done p w small) in
          elim (Bool-cases (ltb max_buffered_transaction_bytes (take_record p f).pending_bytes)) [
            | inl many ↦
                subst (TookAll (p ∷ ps) done rest f)
                  (sym (parse_loop_drop fuel offset next p f here many))
                  (unfold take_record in (unfold payload_bytes in ground (arith, many)))
            | inr few ↦
                let ih =
                  parse_loop-Took ps fuel (done ++ frame p) w rest (take_record p f) next smalls
                    (unfold take_record in (eb' ∙ sym (append_assoc done (frame p) w))) (sym e')
                    (omega (arith, length-append done (frame p), length-frame p))
                    (omega (arith, ap length e, length-append (frame p) w, length-frame p)) in
                subst (TookAll (p ∷ ps) done rest f)
                  (sym (parse_loop_go fuel offset next p f here few))
                  (go_round p ps done rest f _ ih)
          ]
    ]
