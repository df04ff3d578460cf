-- ===== src/Protocol/Parser/Lines.antt =====
-- The lines that a client writes, and what they are parsed as.
use key_value_store.Common.{
  ℕ, ◌+◌, ◌-◌, false, [], ◌∷◌, ◌++◌, some, Bytes, codes, bytes_eq, length, drop, ◌==◌, ◌≡◌, refl,
  ap, ◌∙◌, All, arith, take-append_left, drop-append_right,
}
use key_value_store.Protocol.Parser.{
  set_type, space, parse, parse_verb, parse_key, parse_value, keyless, between, find_space,
  find_space_from, skip_spaces, skip_from, upper, to_upper,
}

-- A word has no space in it.
abbrev pub IsWord : Bytes → Type 0
IsWord = All (λ c. (c == space) ≡ false)

find_space_from-word :
    (w rest : Bytes) (from : ℕ)
    → IsWord w
    → find_space_from (w ++ (space ∷ rest)) from ≡ some (from + length w)
unfolding find_space_from
find_space_from-word [] rest from word = ap some (omega arith)
find_space_from-word (c ∷ w) rest from (here, word) =
    rw here (find_space_from-word w rest (from + 1) word ∙ ap some (omega arith))

abbrev pub set_line : Bytes → Bytes → Bytes
set_line key value = codes "SET " ++ (key ++ (space ∷ value))

module _ (a b : ℕ) (key value : Bytes) (word : IsWord (a ∷ key))
    (start : (b == space) ≡ false) where
  abbrev line : Bytes
  line = set_line (a ∷ key) (b ∷ value)

  abbrev end : ℕ
  end = 4 + length (a ∷ key)

  key_start : skip_spaces line 3 ≡ some 4
  unfolding skip_spaces skip_from
  key_start = rw word.0 refl

  key_end : find_space line 4 ≡ some end
  unfolding find_space
  key_end = find_space_from-word (a ∷ key) (b ∷ value) 4 word

  key_between : between line 4 (some end) ≡ a ∷ key
  unfolding between
  key_between = take-append_left (a ∷ key) (space ∷ (b ∷ value)) (end - 4) (omega arith)

  behind : (i n : ℕ) → n ≡ end + i → drop n line ≡ drop i (space ∷ (b ∷ value))
  behind i n e =
      drop-append_right (codes "SET " ++ (a ∷ key)) (space ∷ (b ∷ value)) i n (omega arith)

  value_start : skip_spaces line end ≡ some (end + 1)
  unfolding skip_spaces skip_from
  value_start = rw (behind 0 end (omega arith), start) refl

  parse_value-end :
      parse_value line (a ∷ key) (some end)
      ≡ record { type = set_type; key = a ∷ key; value = b ∷ value; error = [] }
  unfolding parse_value
  parse_value-end = rw (value_start, parse_value, behind 1 (end + 1) refl) refl

  parse_key-set :
      parse_key line (codes "SET") (some 3)
      ≡ record { type = set_type; key = a ∷ key; value = b ∷ value; error = [] }
  unfolding parse_key bytes_eq
  parse_key-set = rw (key_start, parse_key, key_end, key_between) parse_value-end

  -- The line `SET key value`, with no space in the key and none at the start of the value, neither
  -- of them empty, is parsed as that command, whatever else is in the value.
  pub parse-set_line :
      parse line ≡ record { type = set_type; key = a ∷ key; value = b ∷ value; error = [] }
  unfolding parse parse_verb keyless upper to_upper between find_space find_space_from skip_spaces
      skip_from bytes_eq
  parse-set_line = parse_key-set
