-- ===== src/Wal/Replay/Scanning.antt =====
-- What the loop makes of a log that the writer left: whole records, then perhaps a cut one.
use key_value_store.Common.{
  ◌-◌, length-take, false, ltb, take, ℕ, zero, suc, ◌+◌, ◌≤◌, ◌<◌, ◌≡◌, refl, ap, ◌∙◌, Bool, true,
  List, [], ◌∷◌, ◌++◌, Option, none, some, Bytes, length, if◌then◌else◌, arith, lt→ltb, le→ltb,
  append_assoc, length-append, All, Bool-cases, inl, inr,
}
use key_value_store.Wal.Record.{parsed, incomplete, parse_record, frame, max_payload_bytes}
use key_value_store.Wal.Record.Framing.{parse_record_torn, length-frame, parse_record-frame}
use key_value_store.Wal.Log.{frames}
use key_value_store.Wal.Replay.{no_replay, scan, ReplayResult, replay_round, replay_loop}

abbrev pub AreSmall : List Bytes → Type 0
AreSmall = All (λ p. length p ≤ max_payload_bytes)

pub length-frames_ge : (ps : List Bytes) → length ps ≤ length (frames ps)
unfolding frames
length-frames_ge [] = omega arith
length-frames_ge (p ∷ ps) =
    omega (arith, length-append (frame p) (frames ps), length-frame p, length-frames_ge ps)

unfoldable get_or_else {ℓ} : {A : Type ℓ} → A → Option A → A
get_or_else d none = d
get_or_else d (some y) = y

some_inj {ℓ} : {A : Type ℓ} {x y : A} → some x ≡ some y → x ≡ y
unfolding get_or_else
some_inj {x = x} e = ap (get_or_else x) e

-- What `replay` reports for whole records and `k` bytes of another.
abbrev pub cut_result : List Bytes → ℕ → ReplayResult
cut_result ps k = record {
  records_applied = length ps;
  bytes_consumed = length (frames ps);
  file_bytes = length (frames ps) + k;
  truncated = ltb 0 k;
  saw_corruption = false;
  saw_unknown_record = false;
}

module _ {ℓ} {S : Type ℓ} (on_record : Bytes → S → Bool × S) where
  -- The records one after the other; `none` if one is refused.
  unfoldable pub handle_all : List Bytes → S → Option S
  handle_all [] s = some s
  handle_all (p ∷ ps) s =
      let (known, s') = on_record p s in let rest = handle_all ps s' in if known then rest else none

  -- One round of the loop, by what the round meets.
  round_parsed :
      (buffer : Bytes) (offset next : ℕ) (r : ReplayResult) (p : Bytes) (s : S)
      → parse_record buffer offset ≡ parsed p next
      → (on_record p s).0 ≡ true
      → replay_round on_record buffer offset r s
        ≡ (record r { records_applied = suc r.records_applied }, (on_record p s).1, some next)
  unfolding replay_round
  round_parsed buffer offset next r p s here known = rw (here, known, replay_round) refl

  round_torn :
      (buffer : Bytes) (offset : ℕ) (r : ReplayResult) (s : S)
      → parse_record buffer offset ≡ incomplete
      → replay_round on_record buffer offset r s ≡ (record r { truncated = true }, s, none)
  unfolding replay_round
  round_torn buffer offset r s here = rw (here, replay_round) refl

  loop_step :
      (buffer : Bytes) (n offset next : ℕ) (r : ReplayResult) (p : Bytes) (s : S)
      → offset < length buffer
      → parse_record buffer offset ≡ parsed p next
      → (on_record p s).0 ≡ true
      → replay_loop on_record (suc n) buffer offset r s
        ≡ replay_loop on_record n buffer next
            (record r { records_applied = suc r.records_applied })
            (on_record p s).1
  unfolding replay_loop
  loop_step buffer n offset next r p s inside here known =
      let round = round_parsed buffer offset next r p s here known in
      rw
        (
          lt→ltb offset (length buffer) inside,
          ap (λ x. x.2) round,
          ap (λ x. x.1) round,
          ap (λ x. x.0) round,
          replay_loop,
        )
        refl

  pub loop_end :
      (buffer : Bytes) (n offset : ℕ) (r : ReplayResult) (s : S)
      → length buffer ≤ offset
      → replay_loop on_record n buffer offset r s ≡ (record r { bytes_consumed = offset }, s)
  unfolding replay_loop
  loop_end buffer zero offset r s past = refl
  loop_end buffer (suc n) offset r s past =
      rw (le→ltb offset (length buffer) past, replay_loop) refl

  loop_torn :
      (buffer : Bytes) (n offset : ℕ) (r : ReplayResult) (s : S)
      → offset < length buffer
      → parse_record buffer offset ≡ incomplete
      → replay_loop on_record (suc n) buffer offset r s
        ≡ (record r { bytes_consumed = offset; truncated = true }, s)
  unfolding replay_loop
  loop_torn buffer n offset r s inside here =
      let round = round_torn buffer offset r s here in
      rw
        (
          lt→ltb offset (length buffer) inside,
          ap (λ x. x.2) round,
          ap (λ x. x.1) round,
          ap (λ x. x.0) round,
          replay_loop,
        )
        refl

  handle_all_cons :
      (p : Bytes) (ps : List Bytes) (s s' : S)
      → handle_all (p ∷ ps) s ≡ some s'
      → ((on_record p s).0 ≡ true) × (handle_all ps (on_record p s).1 ≡ some s')
  unfolding handle_all
  handle_all_cons p ps s s' known = elim (Bool-cases ((on_record p s).0)) [
    | inl ok ↦ (ok, ground (arith, ok))
    | inr bad ↦ ground (arith, bad)
  ]

  -- The loop goes over whole records that the handler knows.
  loop-frames :
      (ps : List Bytes) (before tail buffer : Bytes) (n fuel offset : ℕ) (r : ReplayResult)
      (s s' : S)
      → AreSmall ps
      → handle_all ps s ≡ some s'
      → n ≡ length ps + fuel
      → offset ≡ length before
      → buffer ≡ before ++ (frames ps ++ tail)
      → replay_loop on_record n buffer offset r s
        ≡ replay_loop on_record fuel buffer
            (offset + length (frames ps))
            (record r { records_applied = r.records_applied + length ps })
            s'
  unfolding frames handle_all
  loop-frames [] before tail buffer n fuel offset r s s' small known en eo eb =
      let e : s ≡ s' = some_inj known in
      let e1 : offset + 0 ≡ offset = omega arith in
      let e2 : r.records_applied + 0 ≡ r.records_applied = omega arith in
      let e0 : n ≡ fuel = omega arith in rw (e0, ← e, e1, e2) refl
  loop-frames (p ∷ ps) before tail buffer zero fuel offset r s s' small known en eo eb =
      absurd (omega arith)
  loop-frames (p ∷ ps) before tail buffer (suc n) fuel offset r s s' (small, smalls) known en eo
        eb =
      let next : ℕ = length before + (8 + length p) in
      let eb' : buffer ≡ before ++ (frame p ++ (frames ps ++ tail)) =
        rw (eb, append_assoc (frame p) (frames ps) tail) refl in
      let here : parse_record buffer offset ≡ parsed p next =
        rw (eb', eo) (parse_record-frame before p (frames ps ++ tail) small) in
      let inside : offset < length buffer = rw eb' (
        omega (
          arith,
          length-append before (frame p ++ (frames ps ++ tail)),
          length-append (frame p) (frames ps ++ tail),
          length-frame p,
          length-append before (frame p),
          length-append (frame p) (frames ps),
        )) in
      let (ok, later) = handle_all_cons p ps s s' known in
      let round = loop_step buffer n offset next r p s inside here ok in
      let rest =
        loop-frames ps (before ++ frame p) tail buffer n fuel next
          (record r { records_applied = suc r.records_applied }) ((on_record p s).1) s' smalls later
          (omega arith) (omega (arith, length-append before (frame p), length-frame p))
          (rw (eb', append_assoc before (frame p) (frames ps ++ tail)) refl) in
      let e1 : next + length (frames ps) ≡ offset + length (frame p ++ frames ps) =
        omega (arith, length-append (frame p) (frames ps), length-frame p) in
      let e2 : suc r.records_applied + length ps ≡ r.records_applied + suc (length ps) =
        omega arith in
      round ∙ (rest ∙ rw (e1, e2) refl)

  loop-cut :
      (ps : List Bytes) (p buffer : Bytes) (k m offset : ℕ) (r : ReplayResult) (s : S)
      → length p ≤ max_payload_bytes
      → k < length (frame p)
      → offset ≡ length (frames ps)
      → r.truncated ≡ false
      → buffer ≡ frames ps ++ take k (frame p)
      → replay_loop on_record (suc m) buffer offset r s
        ≡ (record r { bytes_consumed = offset; truncated = ltb 0 k }, s)
  loop-cut ps p buffer zero m offset r s small cut eo et eb =
      let past : length buffer ≤ offset =
        rw eb
          (omega (arith, length-append (frames ps) (take 0 (frame p)), length-take 0 (frame p))) in
      rw (← et) (loop_end buffer (suc m) offset r s past)
  loop-cut ps p buffer (suc k) m offset r s small cut eo et eb =
      let tail : Bytes = take (suc k) (frame p) in
      let torn : parse_record buffer offset ≡ incomplete =
        rw (eb, eo) (parse_record_torn (frames ps) p (suc k) small cut) in
      let inside : offset < length buffer =
        rw eb (omega (arith, length-append (frames ps) tail, length-take (suc k) (frame p))) in
      rw (lt→ltb 0 (suc k) (omega arith)) (loop_torn buffer m offset r s inside torn)

  loop_whole :
      (ps : List Bytes) (p buffer : Bytes) (k : ℕ) (s s' : S)
      → AreSmall ps
      → length p ≤ max_payload_bytes
      → k < length (frame p)
      → handle_all ps s ≡ some s'
      → buffer ≡ frames ps ++ take k (frame p)
      → replay_loop on_record
          (suc (length buffer))
          buffer
          0
          (record no_replay { file_bytes = length buffer })
          s
        ≡ (cut_result ps k, s')
  loop_whole ps p buffer k s s' smalls small cut known eb =
      let r : ReplayResult = record no_replay { file_bytes = length buffer } in
      let e : length buffer ≡ length (frames ps) + k =
        rw eb
          (omega (arith, length-append (frames ps) (take k (frame p)), length-take k (frame p))) in
      let ge = length-frames_ge ps in
      let all =
        loop-frames ps [] (take k (frame p)) buffer (suc (length buffer))
          (suc (length buffer - length ps)) 0 r s s' smalls known (omega arith) refl eb in
      let last =
        loop-cut ps p buffer k (length buffer - length ps) (0 + length (frames ps))
          (record r { records_applied = r.records_applied + length ps }) s' small cut (omega arith)
          refl eb in
      let e0 : 0 + length (frames ps) ≡ length (frames ps) = omega arith in
      let e1 : 0 + length ps ≡ length ps = omega arith in all ∙ (last ∙ rw (e0, e1, e) refl)

  -- A log that ends in the middle of a record: the whole records before it are replayed, in order.
  pub scan-cut :
      (ps : List Bytes) (p : Bytes) (k : ℕ) (s s' : S)
      → AreSmall ps
      → length p ≤ max_payload_bytes
      → k < length (frame p)
      → handle_all ps s ≡ some s'
      → scan on_record (frames ps ++ take k (frame p)) s ≡ (cut_result ps k, s')
  unfolding scan
  scan-cut ps p k s s' smalls small cut known =
      loop_whole ps p (frames ps ++ take k (frame p)) k s s' smalls small cut known refl

  pub handle_all_step :
      (p : Bytes) (ps : List Bytes) (s s' : S)
      → on_record p s ≡ (true, s')
      → handle_all (p ∷ ps) s ≡ handle_all ps s'
  unfolding handle_all
  handle_all_step p ps s s' e = rw e refl

  pub handle_all-append :
      (ps qs : List Bytes) (s s' : S)
      → handle_all ps s ≡ some s'
      → handle_all (ps ++ qs) s ≡ handle_all qs s'
  unfolding handle_all
  handle_all-append [] qs s s' known = ap (handle_all qs) (some_inj known)
  handle_all-append (p ∷ ps) qs s s' known =
      let (ok, later) = handle_all_cons p ps s s' known in
      rw ok (handle_all-append ps qs ((on_record p s).1) s' later)
