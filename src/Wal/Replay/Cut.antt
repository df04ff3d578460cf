-- ===== src/Wal/Replay/Cut.antt =====
-- A crash at any byte: what is left of the log, and what `replay` makes of it.
use key_value_store.Common.{
  ℕ, zero, suc, ◌-◌, ◌≤◌, ◌<◌, ◌≡◌, refl, sym, ap, ◌∙◌, Bool, true, List, [], ◌∷◌, ◌++◌, some,
  Bytes, length, take, if◌then◌else◌, leb, arith, append-nil, lt→ltb, append_assoc, length-append,
  length-take, take-append_left, take-append_right, take-append_le, take-All, take_nil, Bool-cases,
  inl, inr,
}
use key_value_store.Wal.Record.{frame, max_payload_bytes}
use key_value_store.Wal.Record.Framing.{length-frame}
use key_value_store.Wal.Log.{returned, frames}
use key_value_store.Wal.Replay.{ReplayIo, repair, replay}
use key_value_store.Wal.Replay.Scanning.{AreSmall, handle_all, scan-cut, cut_result}

-- How many records stand whole in the first `n` bytes.
unfoldable pub whole_in : ℕ → List Bytes → ℕ
whole_in n [] = 0
whole_in n (p ∷ ps) =
    let rest = whole_in (n - length (frame p)) ps in
    if leb (length (frame p)) n then suc rest else 0

-- The first `n` bytes of a log are whole records and a piece of a record.
record IsCut (n : ℕ) (ps : List Bytes) : Type 0 where
  last : Bytes
  piece : ℕ
  last_small : length last ≤ max_payload_bytes
  piece_short : piece < length (frame last)
  bytes : take n (frames ps) ≡ frames (take (whole_in n ps) ps) ++ take piece (frame last)

take-IsCut : (n : ℕ) (ps : List Bytes) → AreSmall ps → IsCut n ps
unfolding frames whole_in
take-IsCut n [] small = record {
  last = [];
  piece = 0;
  last_small = omega arith;
  piece_short = omega (arith, length-frame []);
  bytes = take_nil n;
}
take-IsCut n (p ∷ ps) (small, smalls) =
    let here = length (frame p) in
    elim (Bool-cases (leb here n)) [
      | inr short ↦ record {
        last = p;
        piece = n;
        last_small = small;
        piece_short = ground arith;
        bytes = rw (short, whole_in) (take-append_le (frame p) (frames ps) n (ground arith));
      }
      | inl whole ↦
          let c = take-IsCut (n - here) ps smalls in
          record {
            last = c.last;
            piece = c.piece;
            last_small = c.last_small;
            piece_short = c.piece_short;
            bytes =
                rw (whole, whole_in)
                  (take-append_right (frame p) (frames ps) (n - here) n (ground arith)
                    ∙ (ap (λ (b : Bytes). frame p ++ b) c.bytes
                        ∙ sym (
                            append_assoc (frame p) (frames (take (whole_in (n - here) ps) ps))
                              (take c.piece (frame c.last)))));
          }
    ]

-- Every call of the operating system succeeds.
pub record Works (io : ReplayIo) : Type 0 where
  pub opens : io.open_ok ≡ true
  pub reads : io.read_ok ≡ true
  pub reopens : io.reopen_ok ≡ true
  pub truncates : io.truncate_ok ≡ true
  pub syncs : io.sync_ok ≡ true

repair-cut :
    (io : ReplayIo) (ps : List Bytes) (q : Bytes) (k : ℕ)
    → Works io
    → repair io (frames ps ++ take k (frame q)) (cut_result ps k)
      ≡ (returned (cut_result ps k), frames ps)
unfolding repair
repair-cut io ps q zero works =
    ap (λ (b : Bytes). (returned (cut_result ps 0), b)) (append-nil (frames ps))
repair-cut io ps q (suc k) works =
    rw
      (
        lt→ltb 0 (suc k) (omega arith),
        works.reopens,
        works.truncates,
        works.syncs,
        take-append_left (frames ps) (take (suc k) (frame q)) (length (frames ps)) refl,
      )
      refl

module _ {ℓ} {S : Type ℓ} (on_record : Bytes → S → Bool × S) where
  -- Where a crash leaves the first `n` bytes of a log of small records, the system calls succeed,
  -- and the handler accepts the records that stand whole in them, `replay` returns: it has handled
  -- these records in order and no other, and the file ends behind the last of them.
  pub replay-cut :
      (n : ℕ) (ps : List Bytes) (io : ReplayIo) (s s' : S)
      → AreSmall ps
      → Works io
      → handle_all on_record (take (whole_in n ps) ps) s ≡ some s'
      → replay on_record io (some (take n (frames ps))) s ≡ (
        returned (
            cut_result
              (take (whole_in n ps) ps)
              (length (take n (frames ps)) - length (frames (take (whole_in n ps) ps)))),
        s',
        some (frames (take (whole_in n ps) ps)),
      )
  unfolding replay
  replay-cut n ps io s s' small works known =
      let c = take-IsCut n ps small in
      let whole = take (whole_in n ps) ps in
      let k : length (take n (frames ps)) - length (frames whole) ≡ c.piece = rw c.bytes (
        omega (
          arith,
          length-append (frames whole) (take c.piece (frame c.last)),
          length-take c.piece (frame c.last),
        )) in
      rw
        (
          k,
          c.bytes,
          scan-cut on_record whole c.last c.piece s s'
              (take-All (λ p. length p ≤ max_payload_bytes) (whole_in n ps) ps small) c.last_small
              c.piece_short known,
          repair-cut io whole c.last c.piece works,
          works.opens,
          works.reads,
        )
        refl
