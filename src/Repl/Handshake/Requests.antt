-- ===== src/Repl/Handshake/Requests.antt =====
-- A follower's request, as its leader reads it.
use key_value_store.Common.{
  ℕ, ◌<◌, ◌≤◌, ◌^◌, ◌≡◌, refl, sym, ap, ◌∙◌, Bool, true, false, ◌&&◌, not, List, [], ◌∷◌, ◌++◌,
  Option, some, none, Bytes, codes, length, bytes_eq, ◌==◌, arith, to_string, if_cases, if_elim,
  append_assoc,
}
use key_value_store.Net.Lines.{newline, strip_return}
use key_value_store.Repl.Control.{space, three_words, stoull, is_space}
use key_value_store.Repl.Control.Words.{IsWord, joined, read_control_words, three_words_lem}
use key_value_store.Repl.Control.Numbers.{
  stoull-to_string, to_string-IsWord, strip_return-to_string,
}
use key_value_store.Repl.Handshake.{
  from_offset, parse_request, request_of, numbered, perform_handshake, answer_request, Link,
  load_leader_token, sync_token, sync_request, word_front, read_word, answer_line,
}
use key_value_store.Repl.Leader.{Session}
use key_value_store.Store.Engine.{log_offset}
use key_value_store.Wal.Log.{WriteResult}

abbrev no_separators : Bytes → Bool
no_separators [] = true
no_separators (c ∷ text) = not (c == space) && (not (c == newline) && no_separators text)

all_three : (a b c : Bool) → (not a && (not b && c)) ≡ true → (a ≡ false) × (b ≡ false) × (c ≡ true)
all_three true b c e = cc
all_three false true c e = cc
all_three false false c e = (refl, refl, e)

pub no_separators-IsWord : (text : Bytes) → no_separators text ≡ true → IsWord text
no_separators-IsWord [] e = (tt, tt)
no_separators-IsWord (c ∷ text) e =
    let (no_space, no_newline, later) =
      all_three (c == space) (c == newline) (no_separators text) e in
    let (spaces, newlines) = no_separators-IsWord text later in
    ((no_space, spaces), (no_newline, newlines))

request_of_sync :
    (token text : Bytes)
    → request_of (some (codes "SYNC", token, text)) ≡ numbered token (stoull text)
unfolding request_of bytes_eq
request_of_sync token text = refl

-- A request is read as it was written.
parse_request_lem :
    (token : Bytes) (n : ℕ)
    → IsWord token
    → n < 2 ^ 64
    → parse_request (strip_return (joined (codes "SYNC") token (to_string n))) ≡ from_offset token n
unfolding parse_request
parse_request_lem token n (spaces, newlines) h =
    let same : joined (codes "SYNC") token (to_string n)
        ≡ (codes "SYNC" ++ (space ∷ (token ++ (space ∷ [])))) ++ to_string n =
      ap (λ z. codes "SYNC" ++ (space ∷ z)) (sym (append_assoc token (space ∷ []) (to_string n))) in
    let kept : strip_return (joined (codes "SYNC") token (to_string n))
        ≡ joined (codes "SYNC") token (to_string n) =
      ap strip_return same
      ∙ (strip_return-to_string (codes "SYNC" ++ (space ∷ (token ++ (space ∷ [])))) n ∙ sym same) in
    let cut =
      three_words_lem (codes "SYNC") token (to_string n)
        (no_separators-IsWord (codes "SYNC") refl).0 spaces in
    ap (λ z. request_of (three_words z)) kept
    ∙ (ap request_of cut
        ∙ (request_of_sync token (to_string n) ∙ ap (numbered token) (stoull-to_string n h)))

sync_token-IsWord :
    (token : Bytes) (n : ℕ)
    → IsWord token
    → length token ≤ 200
    → IsWord (sync_token token n) × (length (sync_token token n) ≤ 200)
unfolding sync_token
sync_token-IsWord token n word short =
    if_elim (λ z. IsWord z × (length z ≤ 200)) (bytes_eq token [])
      (no_separators-IsWord (codes "-") refl, omega arith)
      (if_elim (λ z. IsWord z × (length z ≤ 200)) (n == 0)
        (no_separators-IsWord (codes "-") refl, omega arith) (word, short))

word_front-IsWord : (text : Bytes) → IsWord (word_front text)
unfolding word_front
word_front-IsWord [] = (tt, tt)
word_front-IsWord (c ∷ text) =
    if_cases IsWord (is_space c) (λ e. (tt, tt))
      (λ e.
        let (spaces, newlines) = word_front-IsWord text in
        ((ground (arith, e), spaces), (ground (arith, e), newlines)))

read_word-IsWord : (text : Bytes) → IsWord (read_word text)
unfolding read_word
read_word-IsWord [] = (tt, tt)
read_word-IsWord (c ∷ text) =
    if_elim IsWord (is_space c) (read_word-IsWord text) (word_front-IsWord (c ∷ text))

load_leader_token-IsWord : (l : Link) → IsWord (load_leader_token l)
unfolding load_leader_token
load_leader_token-IsWord l =
    elim l.state_file
      as (λ o.
        IsWord
          (elim o as (λ (_ : Option Bytes). Bytes) [ none ↦ [] | some text ↦ read_word text ])) [
            | none ↦ (tt, tt)
            | some text ↦ read_word-IsWord text
          ]

-- The leader reads a follower's request as the follower means it.
pub sync_request-read :
    (script : List WriteResult) (leader_token : Bytes) (leader_offset : ℕ) (rest : Bytes)
    (session : Session) (n : ℕ) (l : Link)
    → length (load_leader_token l) ≤ 200
    → log_offset l.follower.applier.store < 2 ^ 64
    → perform_handshake script leader_token leader_offset (sync_request l ++ rest) session n
      ≡ answer_request script leader_token leader_offset
          (from_offset
            (sync_token (load_leader_token l) (log_offset l.follower.applier.store))
            (log_offset l.follower.applier.store))
          session
          n
unfolding perform_handshake sync_request
sync_request-read script leader_token leader_offset rest session n l short small =
    let offset = log_offset l.follower.applier.store in
    let (word, fits) =
      sync_token-IsWord (load_leader_token l) offset (load_leader_token-IsWord l) short in
    let token = sync_token (load_leader_token l) offset in
    let (number, digits) = to_string-IsWord offset in
    ap (λ o. answer_line script leader_token leader_offset o session n)
      (read_control_words (codes "SYNC") token (to_string offset) rest
        (no_separators-IsWord (codes "SYNC") refl) word number.1 (omega (arith, fits, digits)))
    ∙ (unfold answer_line in
        ap (λ r. answer_request script leader_token leader_offset r session n)
          (parse_request_lem token offset word small))
