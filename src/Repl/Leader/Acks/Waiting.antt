-- ===== src/Repl/Leader/Acks/Waiting.antt =====
-- What a leader makes of acknowledgements, and when a synchronous append returns.
use key_value_store.Common.{
  ℕ, zero, suc, ◌<◌, ◌≤◌, ◌^◌, ◌≡◌, refl, sym, ap, ◌∙◌, true, false, [], ◌∷◌, ◌++◌, Option, none,
  some, Bytes, codes, length, ltb, max, arith, to_string, append_assoc, length-append,
}
use key_value_store.Net.Lines.{newline, split_line, HasNoNewline}
use key_value_store.Repl.Control.{max_control_line}
use key_value_store.Repl.Control.Numbers.{stoull-to_string, to_string-IsWord}
use key_value_store.Repl.Follower.{ack_line}
use key_value_store.Repl.Leader.{Session}
use key_value_store.Repl.Leader.Acks.{
  starts_with, Lag, note_ack, ack_of_line, ack_lines, received, note_highest, after_read,
  drain_acks,
}

split_line_whole :
    (line rest : Bytes)
    → HasNoNewline line
    → split_line (line ++ (newline ∷ rest)) ≡ some (line, rest)
unfolding split_line
split_line_whole [] rest plain = refl
split_line_whole (c ∷ line) rest (e, plain) =
    rw (e) (ap (key_value_store.Net.Lines.onto c) (split_line_whole line rest plain))

-- An acknowledgement that a follower writes is read as the offset that it means.
ack_of_line-ack : (n : ℕ) → n < 2 ^ 64 → ack_of_line (codes "ACK " ++ to_string n) none ≡ some n
unfolding ack_of_line starts_with
ack_of_line-ack n h = rw (stoull-to_string n h) refl

ack_line_split : (n : ℕ) → split_line (ack_line n) ≡ some (codes "ACK " ++ to_string n, [])
unfolding ack_line
ack_line_split n =
    ap split_line (sym (append_assoc (codes "ACK ") (to_string n) (newline ∷ [])))
    ∙ split_line_whole (codes "ACK " ++ to_string n) []
        (refl, (refl, (refl, (refl, (to_string-IsWord n).0.1))))

ack_lines_round :
    (fuel : ℕ) (buffer line rest : Bytes) (highest : Option ℕ)
    → split_line buffer ≡ some (line, rest)
    → ack_lines (suc fuel) buffer highest ≡ ack_lines fuel rest (ack_of_line line highest)
unfolding ack_lines
ack_lines_round fuel buffer line rest highest e = rw (ack_lines, e) refl

ack_lines_end : (fuel : ℕ) (highest : Option ℕ) → ack_lines fuel [] highest ≡ ([], highest)
unfolding ack_lines split_line
ack_lines_end zero highest = refl
ack_lines_end (suc fuel) highest = refl

ack_lines-ack : (fuel n : ℕ) → n < 2 ^ 64 → ack_lines (suc fuel) (ack_line n) none ≡ ([], some n)
ack_lines-ack fuel n h =
    ack_lines_round fuel (ack_line n) _ [] none (ack_line_split n)
    ∙ (ack_lines_end fuel (ack_of_line (codes "ACK " ++ to_string n) none)
        ∙ ap (λ z. ([], z)) (ack_of_line-ack n h))

length-ack_line : (n : ℕ) → length (ack_line n) ≤ 25
unfolding ack_line
length-ack_line n =
    omega (arith, (to_string-IsWord n).1, length-append (to_string n) (newline ∷ []))

after_read_whole :
    (now n : ℕ) (bytes : Bytes) (s : Session) (lag : Lag)
    → s.ack_buffer ≡ []
    → 1 ≤ length bytes
    → length bytes ≤ max_control_line
    → ((fuel : ℕ) → ack_lines (suc fuel) bytes none ≡ ([], some n))
    → after_read now bytes s lag ≡ (true, record s { acked = max n s.acked }, note_ack now n lag)
unfolding after_read note_highest
after_read_whole now n [] s lag e h short x = absurd (omega (arith, h))
after_read_whole now n (c ∷ bytes) s lag e h short x =
    let fits : ltb max_control_line (length (c ∷ bytes)) ≡ false = ground (arith, short) in
    rw (e, fits, x (length (c ∷ bytes))) refl

-- The acknowledgement line that a follower writes for an offset below 2 ^ 64, read into an empty
-- buffer, is taken as that offset: the session is at least there, the records up to it are noted,
-- and nothing is left in the buffer.
pub drain_acks-ack_line :
    (now n : ℕ) (s : Session) (lag : Lag)
    → n < 2 ^ 64
    → s.ack_buffer ≡ []
    → drain_acks now (received (ack_line n)) s lag
      ≡ (true, record s { acked = max n s.acked }, note_ack now n lag)
unfolding drain_acks
drain_acks-ack_line now n s lag h e =
    after_read_whole now n (ack_line n) s lag e (unfold ack_line in omega arith)
      (omega (arith, length-ack_line n)) (λ fuel. ack_lines-ack fuel n h)
