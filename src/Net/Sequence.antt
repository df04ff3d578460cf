-- ===== src/Net/Sequence.antt =====
-- The bytes of a client determine its lines, and with them the replies.
use key_value_store.Common.{
  ◌≡◌, ◌≢◌, refl, sym, ap, ◌∙◌, subst, Bool, [], ◌∷◌, ◌++◌, Bytes, arith, append-nil, append_assoc,
}
use key_value_store.Net.Lines.{
  newline, Handler, Handled, idle, line_more, HasNoNewline, strip_return,
}
use key_value_store.Wal.Log.{returned}

-- `Handled` from the first line on.
data Runs {ℓ} {S : Type ℓ} (handle : Handler S) (now : S) : S → Bytes → Bytes → Type ℓ where
  stop : {s : S} → now ≡ s → Runs handle now s [] []
  step :
      {s : S} {used out : Bytes}
      → (line text all_used all_out : Bytes) (quit : Bool) (after : S) → HasNoNewline line
      → handle (strip_return line) s ≡ (returned (text, quit), after)
      → all_used ≡ line ++ (newline ∷ used)
      → all_out ≡ text ++ out
      → Runs handle now after used out
      → Runs handle now s all_used all_out

no_newline_inside : (line rest tail : Bytes) → HasNoNewline tail → tail ≢ line ++ (newline ∷ rest)
no_newline_inside [] rest [] plain e = cc
no_newline_inside [] rest (c ∷ tail) plain e = ground (arith, e, plain.0)
no_newline_inside (d ∷ line) rest [] plain e = cc
no_newline_inside (d ∷ line) rest (c ∷ tail) plain e = no_newline_inside line rest tail plain.1 (cc)

-- The first line is the same.
same_line :
    (l l' r r' : Bytes)
    → HasNoNewline l
    → HasNoNewline l'
    → l ++ (newline ∷ r) ≡ l' ++ (newline ∷ r')
    → (l ≡ l') × (r ≡ r')
same_line [] [] r r' p p' e = (refl, cc)
same_line [] (d ∷ l') r r' p p' e = ground (arith, e, p'.0)
same_line (c ∷ l) [] r r' p p' e = ground (arith, e, p.0)
same_line (c ∷ l) (d ∷ l') r r' p p' e =
    let (same, rest) = same_line l l' r r' p.1 p'.1 (cc) in (cc, rest)

module _ {ℓ} {S : Type ℓ} (handle : Handler S) where
  Runs-cast :
      {now start : S} {used used' out out' : Bytes}
      → used ≡ used'
      → out ≡ out'
      → Runs handle now start used out
      → Runs handle now start used' out'
  Runs-cast {now} {start} {used'} {out} u o r =
      subst (λ z. Runs handle now start used' z) o (subst (λ z. Runs handle now start z out) u r)

  Runs-Handled :
      {start mid now : S} {used out more more_out : Bytes}
      → Handled handle start used out mid
      → Runs handle now mid more more_out
      → Runs handle now start (used ++ more) (out ++ more_out)
  Runs-Handled idle r = r
  Runs-Handled {more} {more_out} (line_more {used} {out} h line text _ _ quit mid plain e eu eo) r =
      Runs-cast
        (sym (
          ap (λ z. z ++ more) eu
          ∙ (append_assoc used (line ++ newline ∷ []) more
              ∙ ap (λ z. used ++ z) (append_assoc line (newline ∷ []) more))))
        (sym (ap (λ z. z ++ more_out) eo ∙ append_assoc out text more_out))
        (Runs-Handled h (step line text _ _ quit mid plain e refl refl r))

  -- The first line of what stands behind a start.
  first :
      (used all_used line tail : Bytes)
      → all_used ≡ line ++ (newline ∷ used)
      → all_used ++ tail ≡ line ++ (newline ∷ (used ++ tail))
  first used all_used line tail e = ap (λ z. z ++ tail) e ∙ append_assoc line (newline ∷ used) tail

  Runs-unique :
      (now now' s : S) (a a' b b' tail tail' : Bytes)
      → Runs handle now s a b
      → Runs handle now' s a' b'
      → HasNoNewline tail
      → HasNoNewline tail'
      → a ++ tail ≡ a' ++ tail'
      → (b ≡ b') × (now ≡ now')
  Runs-unique now now' s a a' b b' tail tail' (stop n) (stop n') p p' e = (refl, n ∙ sym n')
  Runs-unique now now' s a a' b b' tail tail' (stop n)
        (step {used} {out} line text _ _ quit after plain e eu eo r) p p' same =
      absurd (no_newline_inside line _ tail p (same ∙ first used a' line tail' eu))
  Runs-unique now now' s a a' b b' tail tail'
        (step {used} {out} line text _ _ quit after plain e eu eo r) (stop n) p p' same =
      absurd (no_newline_inside line _ tail' p' (sym same ∙ first used a line tail eu))
  Runs-unique now now' s a a' b b' tail tail'
        (step {used} {out} line text _ _ quit after plain e eu eo r)
        (step {used = used'} {out = out'} line' text' _ _ quit' after' plain' e' eu' eo' r') p p'
        same =
      let (same_first, same_rest) =
        same_line line line' _ _ plain plain'
          (sym (first used a line tail eu) ∙ (same ∙ first used' a' line' tail' eu')) in
      let one : handle (strip_return line) s ≡ (returned (text', quit'), after') =
        ap (λ z. handle (strip_return z) s) same_first ∙ e' in
      let after_same : after' ≡ after = cc in
      let text_same : text ≡ text' = cc in
      let (o, n) =
        Runs-unique now now' after used used' out out' tail tail' r
          (subst (λ z. Runs handle now' z used' out') after_same r') p p' same_rest in
      (eo ∙ (ap (λ z. text ++ z) o ∙ (ap (λ z. z ++ out') text_same ∙ sym eo')), n)

  pub Handled-unique :
      (start now now' : S) (used used' out out' tail tail' : Bytes)
      → Handled handle start used out now
      → Handled handle start used' out' now'
      → HasNoNewline tail
      → HasNoNewline tail'
      → used ++ tail ≡ used' ++ tail'
      → (out ≡ out') × (now ≡ now')
  Handled-unique start now now' used used' out out' tail tail' h h' p p' same =
      Runs-unique now now' start used used' out out' tail tail'
        (Runs-cast (append-nil used) (append-nil out) (Runs-Handled h (stop refl)))
        (Runs-cast (append-nil used') (append-nil out') (Runs-Handled h' (stop refl))) p p' same
