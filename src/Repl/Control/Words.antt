-- ===== src/Repl/Control/Words.antt =====
-- Control lines that are cut into words again.
use key_value_store.Common.{
  ℕ, ◌+◌, ◌≤◌, ◌≡◌, refl, ap, ◌∙◌, [], ◌∷◌, ◌++◌, some, Bytes, length, All, ◌==◌, false, suc, zero,
  arith, append_assoc, sym, length-append,
}
use key_value_store.Net.Lines.{newline, onto, HasNoNewline}
use key_value_store.Repl.Control.{read_control, cut_at, three_words, space, max_control_line}

abbrev pub HasNoSpace : Bytes → Type 0
HasNoSpace = All (λ c. (c == space) ≡ false)

-- A word of a control line: no space and no newline.
abbrev pub IsWord : Bytes → Type 0
IsWord word = HasNoSpace word × HasNoNewline word

pub read_control_line :
    (room : ℕ) (line rest : Bytes)
    → HasNoNewline line
    → length line ≤ room
    → read_control room (line ++ (newline ∷ rest)) ≡ some (line, rest)
unfolding read_control
read_control_line zero [] rest plain h = refl
read_control_line (suc room) [] rest plain h = refl
read_control_line zero (c ∷ line) rest (e, plain) h = absurd (omega (arith, h))
read_control_line (suc room) (c ∷ line) rest (e, plain) h =
    rw (e) (ap (onto c) (read_control_line room line rest plain (omega (arith, h))))

pub cut_at_word :
    (separator : ℕ) (word rest : Bytes)
    → All (λ c. (c == separator) ≡ false) word
    → cut_at separator (word ++ (separator ∷ rest)) ≡ some (word, rest)
unfolding cut_at
cut_at_word separator [] rest plain = ground arith
cut_at_word separator (c ∷ word) rest (e, plain) =
    rw (e) (ap (onto c) (cut_at_word separator word rest plain))

pub three_words_lem :
    (verb middle last : Bytes)
    → HasNoSpace verb
    → HasNoSpace middle
    → three_words (verb ++ (space ∷ (middle ++ (space ∷ last)))) ≡ some (verb, middle, last)
unfolding three_words
three_words_lem verb middle last h h' =
    rw
      (
        cut_at_word space verb (middle ++ (space ∷ last)) h,
        three_words,
        cut_at_word space middle last h',
      )
      refl

HasNoNewline-append : (a b : Bytes) → HasNoNewline a → HasNoNewline b → HasNoNewline (a ++ b)
HasNoNewline-append [] b h h' = h'
HasNoNewline-append (c ∷ a) b (e, h) h' = (e, HasNoNewline-append a b h h')

-- Three words with a space between them.
abbrev pub joined : Bytes → Bytes → Bytes → Bytes
joined verb middle last = verb ++ (space ∷ (middle ++ (space ∷ last)))

pub read_control_words :
    (verb middle last rest : Bytes)
    → IsWord verb
    → IsWord middle
    → HasNoNewline last
    → length verb + (length middle + length last) ≤ 254
    → read_control max_control_line (joined verb middle (last ++ (newline ∷ [])) ++ rest)
      ≡ some (joined verb middle last, rest)
read_control_words verb middle last rest (e, h) (e', h') h'' short =
    ap (read_control max_control_line) (
      append_assoc verb (space ∷ (middle ++ (space ∷ (last ++ (newline ∷ []))))) rest
      ∙ (ap (λ z. verb ++ (space ∷ z))
            (append_assoc middle (space ∷ (last ++ (newline ∷ []))) rest
              ∙ ap (λ z. middle ++ (space ∷ z)) (append_assoc last (newline ∷ []) rest))
          ∙ sym (
              append_assoc verb (space ∷ (middle ++ (space ∷ last))) (newline ∷ rest)
              ∙ ap (λ z. verb ++ (space ∷ z))
                  (append_assoc middle (space ∷ last) (newline ∷ rest)))))
    ∙ read_control_line max_control_line (joined verb middle last) rest
        (HasNoNewline-append verb (space ∷ (middle ++ (space ∷ last))) h
          (refl, HasNoNewline-append middle (space ∷ last) h' (refl, h'')))
        (omega (
          arith,
          short,
          length-append verb (space ∷ (middle ++ (space ∷ last))),
          length-append middle (space ∷ last),
        ))
