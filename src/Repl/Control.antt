-- ===== src/Repl/Control.antt =====
-- The control lines of src/repl/leader.cpp and src/repl/follower.cpp: how a line is read from the
-- socket, cut into its words, and how `std::stoull` reads a number.
pub mod Words
pub mod Numbers
use key_value_store.Common.{
  ◌>>=◌, ℕ, zero, suc, ◌+◌, ◌*◌, ◌-◌, ◌^◌, ◌%◌, Bool, true, false, ◌&&◌, ◌||◌, List, [], ◌∷◌,
  Option, none, some, Bytes, ◌==◌, ltb, leb, if◌then◌else◌,
}
use key_value_store.Net.Lines.{newline, onto}

-- `kMaxControlLine`
abbrev pub max_control_line : ℕ
max_control_line = 256

abbrev pub space : ℕ
space = 32

-- The loop that reads a byte at a time, with `room` bytes left for the line; `none` where the input
-- ends or the line is too long.
unfoldable pub read_control : ℕ → Bytes → Option (Bytes × Bytes)
read_control room [] = none
read_control zero (c ∷ input) = if c == newline then some ([], input) else none
read_control (suc room) (c ∷ input) =
    let later = read_control room input in if c == newline then some ([], input) else onto c later

-- `find` and the two `substr`: what is in front of the first `separator`, and what is behind it.
unfoldable pub cut_at : ℕ → Bytes → Option (Bytes × Bytes)
cut_at separator [] = none
cut_at separator (c ∷ line) =
    let later = cut_at separator line in if c == separator then some ([], line) else onto c later

-- The word in front of the first space, that between the first two, and what is behind them.
unfoldable pub three_words : Bytes → Option (Bytes × Bytes × Bytes)
three_words line = do
  (verb, rest) ← cut_at space line
  (middle, last) ← cut_at space rest
  some (verb, middle, last)

abbrev pub is_digit : ℕ → Bool
is_digit c = leb 48 c && leb c 57

-- The number that the digits at the front give behind `n`.
unfoldable pub digits_value : ℕ → Bytes → ℕ
digits_value n [] = n
digits_value n (c ∷ text) =
    let more = digits_value (n * 10 + (c - 48)) text in if is_digit c then more else n

abbrev in_range : ℕ → Option ℕ
in_range n = if ltb n (2 ^ 64) then some n else none

-- `none` for `std::invalid_argument` and `std::out_of_range`.
unfoldable pub unsigned_digits : Bytes → Option ℕ
unfolding digits_value
unsigned_digits [] = none
unsigned_digits (c ∷ text) = if is_digit c then in_range (digits_value 0 (c ∷ text)) else none

abbrev negated : Option ℕ → Option ℕ
negated none = none
negated (some n) = some ((2 ^ 64 - n) % 2 ^ 64)

-- A sign, which `strtoull` takes also in front of an unsigned number.
unfoldable pub signed_digits : Bytes → Option ℕ
unfolding unsigned_digits
signed_digits [] = none
signed_digits (c ∷ text) =
    if c == 43
    then unsigned_digits text
    else if c == 45
    then negated (unsigned_digits text)
    else unsigned_digits (c ∷ text)

abbrev pub is_space : ℕ → Bool
is_space c = c == space || (leb 9 c && leb c 13)

-- `std::stoull` in base 10: spaces, a sign and digits; what is behind them is not looked at.
unfoldable pub stoull : Bytes → Option ℕ
unfolding signed_digits
stoull [] = none
stoull (c ∷ text) =
    let later = stoull text in if is_space c then later else signed_digits (c ∷ text)
