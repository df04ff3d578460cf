-- ===== src/Repl/Handshake.antt =====
-- The two sides of the handshake: `performHandshake` of src/repl/leader.cpp, and `handshake` and
-- `runOneConnection` of src/repl/follower.cpp. What each side reads is an argument, up to where the
-- other end closes; so are the token and the log offset of the leader's store.
pub mod Requests
pub mod Resyncing
pub mod Agreement
use key_value_store.Common.{
  ℕ, zero, suc, ◌+◌, Bool, true, false, ◌&&◌, not, List, [], ◌∷◌, ◌++◌, Option, none, some, Bytes,
  codes, ◌==◌, leb, if◌then◌else◌, add64, bytes_eq, to_string,
}
use key_value_store.Net.Lines.{newline, strip_return}
use key_value_store.Repl.Control.{
  max_control_line, space, is_space, read_control, three_words, stoull,
}
use key_value_store.Repl.Follower.{Follower, begin_full_resync, consume, send_ack}
use key_value_store.Repl.Leader.{Session}
use key_value_store.Store.Engine.{log_offset}
use key_value_store.Wal.Log.{Io, WriteResult, write_all}

pub data Request : Type 0 where
  malformed other_verb bad_offset : Request
  from_offset : Bytes → ℕ → Request

abbrev numbered : Bytes → Option ℕ → Request
numbered token none = bad_offset
numbered token (some requested) = from_offset token requested

unfoldable pub request_of : Option (Bytes × Bytes × Bytes) → Request
request_of none = malformed
request_of (some (verb, token, offset)) =
    if not (bytes_eq verb (codes "SYNC")) then other_verb else numbered token (stoull offset)

unfoldable pub parse_request : Bytes → Request
parse_request line = request_of (three_words line)

-- What a handshake gives: whether the follower is taken, and what was written to it.
pub record Shaken : Type 0 where
  pub accepted : Bool
  pub session : Session
  pub full_resyncs : ℕ
  pub out : Bytes

module _ (script : List WriteResult) (leader_token : Bytes) (leader_offset : ℕ) where
  unfoldable pub refuse : Bytes → Session → ℕ → Shaken
  refuse reply session full_resyncs =
      let (out, all) = write_all script reply in
      record { accepted = false; session = session; full_resyncs = full_resyncs; out = out }

  unfoldable pub start_from : Bytes → ℕ → Session → ℕ → Shaken
  start_from reply offset session full_resyncs =
      let (out, all) = write_all script reply in
      record {
        accepted = all;
        session = record session { sent_offset = offset; acked = offset };
        full_resyncs = full_resyncs;
        out = out;
      }

  unfoldable pub resume_reply : ℕ → Bytes
  resume_reply requested =
      codes "+RESUME"
      ++ (space ∷ (leader_token ++ (space ∷ (to_string requested ++ (newline ∷ [])))))

  unfoldable pub full_reply : Bytes
  full_reply = codes "+FULL" ++ (space ∷ (leader_token ++ (space ∷ (codes "0" ++ (newline ∷ [])))))

  unfoldable pub can_resume : Bytes → ℕ → Bool
  can_resume token requested =
      not (bytes_eq token []) && (bytes_eq token leader_token && leb requested leader_offset)

  unfoldable pub answer_request : Request → Session → ℕ → Shaken
  unfolding refuse start_from
  answer_request malformed session full_resyncs =
      refuse (codes "-ERR expected: SYNC <token> <offset>" ++ (newline ∷ [])) session full_resyncs
  answer_request other_verb session full_resyncs =
      refuse (codes "-ERR unknown replication verb" ++ (newline ∷ [])) session full_resyncs
  answer_request bad_offset session full_resyncs =
      refuse (codes "-ERR bad offset" ++ (newline ∷ [])) session full_resyncs
  answer_request (from_offset token requested) session full_resyncs =
      if can_resume token requested
      then start_from (resume_reply requested) requested session full_resyncs
      else start_from full_reply 0 session (add64 full_resyncs 1)

  unfoldable pub answer_line : Option (Bytes × Bytes) → Session → ℕ → Shaken
  answer_line none session full_resyncs = record {
    accepted = false;
    session = session;
    full_resyncs = full_resyncs;
    out = [];
  }
  answer_line (some (line, rest)) session full_resyncs =
      answer_request (parse_request (strip_return line)) session full_resyncs

  unfoldable pub perform_handshake : Bytes → Session → ℕ → Shaken
  perform_handshake input session full_resyncs =
      answer_line (read_control max_control_line input) session full_resyncs

-- A follower with what it counts, and the file beside its log that holds its leader's token; `none`
-- where there is no log.
pub record Link : Type 0 where
  pub follower : Follower
  pub state_file : Option Bytes
  pub full_resyncs : ℕ

unfoldable pub word_front : Bytes → Bytes
word_front [] = []
word_front (c ∷ text) = let rest = word_front text in if is_space c then [] else c ∷ rest

-- `in >> token`
unfoldable pub read_word : Bytes → Bytes
unfolding word_front
read_word [] = []
read_word (c ∷ text) =
    let later = read_word text in if is_space c then later else word_front (c ∷ text)

unfoldable pub load_leader_token : Link → Bytes
load_leader_token l = elim l.state_file [ none ↦ [] | some text ↦ read_word text ]

-- `writable` is whether the file opens.
unfoldable pub save_leader_token : Bool → Bytes → Link → Link
save_leader_token writable token l = elim l.state_file [
  | none ↦ l
  | some text ↦ if not writable then l else record l { state_file = some (token ++ (newline ∷ [])) }
]

unfoldable pub sync_token : Bytes → ℕ → Bytes
sync_token token offset =
    if bytes_eq token [] then codes "-" else if offset == 0 then codes "-" else token

unfoldable pub sync_request : Link → Bytes
unfolding sync_token
sync_request l =
    let offset = log_offset l.follower.applier.store in
    codes "SYNC"
    ++ (space
        ∷ (sync_token (load_leader_token l) offset
            ++ (space ∷ (to_string offset ++ (newline ∷ [])))))

abbrev starts_with_minus : Bytes → Bool
starts_with_minus [] = false
starts_with_minus (c ∷ line) = c == 45

-- The answers of the calls that empty the log, and whether the file of the token opens.
pub record ResyncIo : Type 0 where
  pub truncate_ok : Bool
  pub sync_ok : Bool
  pub save_ok : Bool

unfoldable pub full_resync : ResyncIo → Bytes → Link → Bool × Bool × Link
unfolding save_leader_token begin_full_resync
full_resync io token l =
    let (done, f) = begin_full_resync io.truncate_ok io.sync_ok l.follower in
    let l' : Link = record l { follower = f; full_resyncs = add64 l.full_resyncs 1 } in
    if not done then (false, true, l') else (true, true, save_leader_token io.save_ok token l')

-- Whether the handshake succeeded, and whether the follower starts anew.
unfoldable pub follow_words : ResyncIo → Option (Bytes × Bytes × Bytes) → Link → Bool × Bool × Link
follow_words io none l = (false, false, l)
follow_words io (some (verb, token, last)) l =
    if bytes_eq verb (codes "+RESUME")
    then (true, false, l)
    else if not (bytes_eq verb (codes "+FULL"))
    then (false, false, l)
    else full_resync io token l

unfoldable pub follow_reply : ResyncIo → Bytes → Link → Bool × Bool × Link
follow_reply io line l =
    if starts_with_minus line then (false, false, l) else follow_words io (three_words line) l

unfoldable pub with_sent : Bytes → Link → Link
with_sent out l = record l { follower = record l.follower { sent = l.follower.sent ++ out } }

unfoldable pub follow_line : ResyncIo → Option (Bytes × Bytes) → Link → Bool × Bool × Link
follow_line io none l = (false, false, l)
follow_line io (some (line, rest)) l = follow_reply io line l

unfoldable pub handshake : ResyncIo → List WriteResult → Bytes → Link → Bool × Bool × Link
handshake io script input l =
    let (out, all) = write_all script (sync_request l) in
    let l' = with_sent out l in
    if not all then (false, false, l') else follow_line io (read_control max_control_line input) l'

-- What a connection meets after the handshake: the first acknowledgement, then the chunks.
unfoldable pub after_handshake :
    (Bytes → ℕ)
    → List WriteResult
    → List (Io × List WriteResult × Bytes)
    → Bool × Bool × Link
    → Bool × Link
after_handshake hash script chunks (false, full, l) = (false, l)
after_handshake hash script chunks (true, full, l) =
    let (told, f) = send_ack script (log_offset l.follower.applier.store) l.follower in
    let (kept, f') = consume hash chunks f in
    if not told then (false, record l { follower = f }) else (kept, record l { follower = f' })

unfoldable pub run_one_connection :
    (Bytes → ℕ)
    → ResyncIo
    → List WriteResult
    → Bytes
    → List WriteResult
    → List (Io × List WriteResult × Bytes)
    → Link
    → Bool × Link
run_one_connection hash io script input ack_script chunks l =
    after_handshake hash ack_script chunks (handshake io script input l)
