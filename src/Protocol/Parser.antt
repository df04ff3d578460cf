-- ===== src/Protocol/Parser.antt =====
-- src/protocol/parser.cpp: one line of the text protocol. A position past the end (`npos`) is `none`.
-- `std::toupper` is that of the C locale.
pub mod Lines
use key_value_store.Common.{
  ℕ, ◌+◌, ◌-◌, ◌||◌, ◌&&◌, not, [], ◌∷◌, ◌++◌, Option, none, some, Bytes, codes, bytes_eq, ◌≡◌,
  refl, take, drop, leb, ◌==◌, if◌then◌else◌, map,
}

pub data CommandType : Type 0 where
  set_type get_type del_type stats compact begin_type commit_type rollback quit invalid_type :
      CommandType

pub record ParsedCommand : Type 0 where
  pub type : CommandType
  pub key : Bytes
  pub value : Bytes
  pub error : Bytes

abbrev pub plain : CommandType → ParsedCommand
plain type = record { type = type; key = []; value = []; error = [] }

abbrev pub space : ℕ
space = 32

unfoldable pub to_upper : ℕ → ℕ
to_upper c = if leb b'a' c && leb c b'z' then c - 32 else c

unfoldable pub upper : Bytes → Bytes
upper s = map to_upper s

-- `skipSpaces(s, from)` on what stands from `from` on: the position of the first other character.
unfoldable pub skip_from : Bytes → ℕ → Option ℕ
skip_from [] from = none
skip_from (c ∷ s) from = let rest = skip_from s (from + 1) in if c == space then rest else some from

unfoldable pub skip_spaces : Bytes → ℕ → Option ℕ
skip_spaces s from = skip_from (drop from s) from

-- `find(' ', from)` on what stands from `from` on.
unfoldable pub find_space_from : Bytes → ℕ → Option ℕ
find_space_from [] from = none
find_space_from (c ∷ s) from =
    let rest = find_space_from s (from + 1) in if c == space then some from else rest

unfoldable pub find_space : Bytes → ℕ → Option ℕ
find_space s from = find_space_from (drop from s) from

-- `substr(start, end - start)`, where an `end` of `npos` means the rest.
unfoldable pub between : Bytes → ℕ → Option ℕ → Bytes
between s start none = drop start s
between s start (some end) = take (end - start) (drop start s)

unfoldable pub invalid : Bytes → ParsedCommand
invalid why = record { type = invalid_type; key = []; value = []; error = why }

-- The verbs that take no key.
unfoldable pub keyless : Bytes → Option CommandType
keyless verb =
    if bytes_eq verb (codes "STATS")
    then some stats
    else if bytes_eq verb (codes "COMPACT")
    then some compact
    else if bytes_eq verb (codes "BEGIN")
    then some begin_type
    else if bytes_eq verb (codes "COMMIT")
    then some commit_type
    else if bytes_eq verb (codes "ROLLBACK")
    then some rollback
    else if bytes_eq verb (codes "QUIT")
    then some quit
    else none

-- The value of a `SET` whose key ends at `key_end`.
unfoldable pub parse_value : Bytes → Bytes → Option ℕ → ParsedCommand
parse_value line key none = invalid (codes "SET requires a value")
parse_value line key (some key_end) = elim (skip_spaces line key_end) [
  | none ↦ invalid (codes "SET requires a value")
  | some start ↦ record { type = set_type; key = key; value = drop start line; error = [] }
]

-- The key, and what is behind it.
unfoldable pub parse_key : Bytes → Bytes → Option ℕ → ParsedCommand
parse_key line verb none = invalid (verb ++ codes " requires a key")
parse_key line verb (some verb_end) = elim (skip_spaces line verb_end) [
  | none ↦ invalid (verb ++ codes " requires a key")
  | some start ↦
      let key_end = find_space line start in
      let key = between line start key_end in
      if not (bytes_eq verb (codes "SET"))
      then record {
        type = if bytes_eq verb (codes "GET") then get_type else del_type;
        key = key;
        value = [];
        error = [];
      }
      else parse_value line key key_end
]

unfoldable pub parse_verb : Bytes → Bytes → Option ℕ → ParsedCommand
parse_verb line verb verb_end = elim (keyless verb) [
  | some type ↦ plain type
  | none ↦
      if not
        (bytes_eq verb (codes "SET") || bytes_eq verb (codes "GET") || bytes_eq verb (codes "DEL"))
      then invalid (codes "unknown command '" ++ (verb ++ codes "'"))
      else parse_key line verb verb_end
]

-- `CommandParser::parse`
unfoldable pub parse : Bytes → ParsedCommand
parse line = elim (skip_spaces line 0) [
  | none ↦ invalid (codes "empty command")
  | some start ↦
      let end = find_space line start in parse_verb line (upper (between line start end)) end
]
