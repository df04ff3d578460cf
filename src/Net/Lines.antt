-- ===== src/Net/Lines.antt =====
-- The lines of a client's input, as src/net/connection.cpp and src/net/event_loop.cpp cut them, and
-- what a session makes of them. `handle` is `Session::handleLine` with its store.
use key_value_store.Common.{
  ◌*◌, subst, Bool-cases, inl, inr, ==_iff, ℕ, ◌<◌, ◌≡◌, ap, Bool, false, List, [], ◌∷◌, ◌++◌,
  Option, none, some, Bytes, codes, length, ◌==◌, if◌then◌else◌, arith, All, length-append,
}
use key_value_store.Session.{Reply, Session, LineIo, handle_line}
use key_value_store.Store.Engine.{Store}
use key_value_store.Wal.Log.{Outcome, returned}

abbrev pub newline : ℕ
newline = 10

-- `kMaxLineLength`
abbrev pub max_line_length : ℕ
max_line_length = 64 * 1024

abbrev pub too_long_line : Bytes
too_long_line = codes "-ERR line too long" ++ (newline ∷ [])

-- A byte in front of a line that was cut off, or of none.
abbrev pub onto : ℕ → Option (Bytes × Bytes) → Option (Bytes × Bytes)
onto c none = none
onto c (some (line, rest)) = some (c ∷ line, rest)

-- `find('\n')`, `substr` and `erase`: the first line, without its end, and what is behind it.
unfoldable pub split_line : Bytes → Option (Bytes × Bytes)
split_line [] = none
split_line (c ∷ rest) =
    let later = split_line rest in if c == newline then some ([], rest) else onto c later

-- `back() == '\r'`, then `pop_back()`.
unfoldable pub strip_return : Bytes → Bytes
strip_return [] = []
strip_return (c ∷ []) = if c == 13 then [] else c ∷ []
strip_return (c ∷ d ∷ line) = c ∷ strip_return (d ∷ line)

abbrev pub Handler {ℓ} : Type ℓ → Type ℓ
Handler S = Bytes → S → Outcome Reply × S

-- A session, its store, and what the world answers to the lines to come; past the end of the list it
-- answers as `quiet` says.
pub record Peer : Type 0 where
  pub session : Session
  pub store : Store
  pub answers : List LineIo

abbrev pub next_answer : LineIo → List LineIo → LineIo × List LineIo
next_answer quiet [] = (quiet, [])
next_answer quiet (io ∷ ios) = (io, ios)

unfoldable pub session_handler : (Bytes → ℕ) → LineIo → Handler Peer
session_handler hash quiet line p =
    let (io, ios) = next_answer quiet p.answers in
    let (reply, session, s) = handle_line hash io line p.session p.store in
    (reply, record { session = session; store = s; answers = ios })

abbrev pub HasNoNewline : Bytes → Type 0
HasNoNewline = All (λ c. (c == newline) ≡ false)

-- The lines in `used`, each with its end, were handled one after another from `start`, with the
-- replies `out`, and left `now`.
pub data Handled {ℓ} {S : Type ℓ} (handle : Handler S) (start : S)
    : Bytes → Bytes → S → Type ℓ where
  idle : Handled handle start [] [] start
  line_more :
      {used out : Bytes} {before : S}
      → Handled handle start used out before
      → (line text all_used all_out : Bytes) (quit : Bool) (now : S) → HasNoNewline line
      → handle (strip_return line) before ≡ (returned (text, quit), now)
      → all_used ≡ used ++ (line ++ (newline ∷ []))
      → all_out ≡ out ++ text
      → Handled handle start all_used all_out now

-- A line that is cut off ends at the first newline.
pub record Splits (input line rest : Bytes) : Type 0 where
  pub whole : input ≡ line ++ (newline ∷ rest)
  pub plain : HasNoNewline line

-- What `split_line` finds in `input`.
abbrev pub SplitsInto : Bytes → Option (Bytes × Bytes) → Type 0
SplitsInto input none = HasNoNewline input
SplitsInto input (some (line, rest)) = Splits input line rest

onto-SplitsInto :
    (c : ℕ) (input : Bytes) (o : Option (Bytes × Bytes))
    → (c == newline) ≡ false
    → SplitsInto input o
    → SplitsInto (c ∷ input) (onto c o)
onto-SplitsInto c input none e plain = (e, plain)
onto-SplitsInto c input (some (line, rest)) e x = record {
  whole = ap (◌∷◌ c) x.whole;
  plain = (e, x.plain);
}

pub split_line-SplitsInto : (input : Bytes) → SplitsInto input (split_line input)
unfolding split_line
split_line-SplitsInto [] = tt
split_line-SplitsInto (c ∷ rest) = elim (Bool-cases (c == newline)) [
  | inl e ↦
      rw (e, split_line)
        (record { whole = ap (λ (d : ℕ). d ∷ rest) ((==_iff c newline).0 e); plain = tt })
  | inr e ↦
      rw (e, split_line) (onto-SplitsInto c rest (split_line rest) e (split_line-SplitsInto rest))
]

pub split_line-Splits :
    (input line rest : Bytes) → split_line input ≡ some (line, rest) → Splits input line rest
split_line-Splits input line rest e = subst (SplitsInto input) e (split_line-SplitsInto input)

pub length-split_line :
    (input line rest : Bytes) → split_line input ≡ some (line, rest) → length rest < length input
length-split_line input line rest e = omega (
  arith,
  ap length (split_line-Splits input line rest e).whole,
  length-append line (newline ∷ rest),
)
