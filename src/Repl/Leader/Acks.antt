-- ===== src/Repl/Leader/Acks.antt =====
-- src/repl/leader.cpp: the acknowledgements of the followers, and `onAppend`, which waits for one in
-- synchronous mode. The clock is an argument, in microseconds.
pub mod Waiting
pub mod Ending
use key_value_store.Common.{
  ℕ, zero, suc, ◌+◌, ◌-◌, ◌*◌, ◌^◌, ◌%◌, Bool, true, false, not, ◌||◌, List, [], ◌∷◌, ◌++◌, Option,
  none, some, Bytes, codes, length, ltb, leb, if◌then◌else◌, add64, max, drop, ◌==◌, ◌&&◌,
}
use key_value_store.Net.Lines.{split_line}
use key_value_store.Repl.Control.{max_control_line, stoull}
use key_value_store.Repl.Leader.{Session, new_session}
use key_value_store.Repl.Roles.{ReplMode, async, synchronous}

-- `kMaxLagSamples`
abbrev pub max_lag_samples : ℕ
max_lag_samples = 2 ^ 16

pub record PendingRecord : Type 0 where
  pub offset : ℕ
  pub at : ℕ

-- The records that no follower acknowledged yet, and how long those before them took.
pub record Lag : Type 0 where
  pub pending : List PendingRecord
  pub samples : List ℕ
  pub count : ℕ
  pub max_us : ℕ
  pub sum_us : ℕ

unfoldable pub count_lag : ℕ → PendingRecord → Lag → Lag
count_lag now r lag =
    let lag_us = now - r.at in
    record lag {
      count = add64 lag.count 1;
      sum_us = add64 lag.sum_us lag_us;
      max_us = max lag.max_us lag_us;
      samples =
          if ltb (length lag.samples) max_lag_samples
          then lag.samples ++ (lag_us % 2 ^ 32 ∷ [])
          else lag.samples;
    }

-- The loop of `noteAck` over the front of `pending`.
unfoldable pub note_front : ℕ → ℕ → List PendingRecord → Lag → Lag
note_front now offset [] lag = record lag { pending = [] }
note_front now offset (r ∷ pending) lag =
    let rest = note_front now offset pending (count_lag now r lag) in
    if leb r.offset offset then rest else record lag { pending = r ∷ pending }

unfoldable pub note_ack : ℕ → ℕ → Lag → Lag
note_ack now offset lag = note_front now offset lag.pending lag

-- `rfind(prefix, 0) == 0`
unfoldable pub starts_with : Bytes → Bytes → Bool
starts_with [] line = true
starts_with (c ∷ prefix) [] = false
starts_with (c ∷ prefix) (d ∷ line) = c == d && starts_with prefix line

abbrev higher : Option ℕ → Option ℕ → Option ℕ
higher none highest = highest
higher (some offset) none = some offset
higher (some offset) (some highest) = some (max offset highest)

-- The highest offset so far, where a line was an acknowledgement.
unfoldable pub ack_of_line : Bytes → Option ℕ → Option ℕ
ack_of_line line highest =
    if not (starts_with (codes "ACK ") line) then highest else higher (stoull (drop 4 line)) highest

-- The loop over the whole lines of the buffer: what is left of it, and the highest offset. A round
-- takes a byte at least, so the length of the buffer is fuel enough.
unfoldable pub ack_lines : ℕ → Bytes → Option ℕ → Bytes × Option ℕ
ack_lines zero buffer highest = (buffer, highest)
ack_lines (suc fuel) buffer highest = elim (split_line buffer) [
  | none ↦ (buffer, highest)
  | some (line, rest) ↦ ack_lines fuel rest (ack_of_line line highest)
]

-- What the one `read` gives; no bytes at the end of the connection.
pub data AckRead : Type 0 where
  received : Bytes → AckRead
  ack_interrupted ack_broken : AckRead

unfoldable pub note_highest : ℕ → Option ℕ → Session → Lag → Session × Lag
note_highest now none s lag = (s, lag)
note_highest now (some highest) s lag =
    (record s { acked = max highest s.acked }, note_ack now highest lag)

unfoldable pub after_read : ℕ → Bytes → Session → Lag → Bool × Session × Lag
after_read now [] s lag = (false, s, lag)
after_read now (c ∷ bytes) s lag =
    let buffer = s.ack_buffer ++ (c ∷ bytes) in
    let (rest, highest) = ack_lines (suc (length buffer)) buffer none in
    if ltb max_control_line (length buffer)
    then (false, record s { ack_buffer = buffer }, lag)
    else let (s', lag') = note_highest now highest (record s { ack_buffer = rest }) lag in
      (true, s', lag')

unfoldable pub drain_acks : ℕ → AckRead → Session → Lag → Bool × Session × Lag
drain_acks now (received bytes) s lag = after_read now bytes s lag
drain_acks now ack_interrupted s lag = (true, s, lag)
drain_acks now ack_broken s lag = (false, s, lag)

pub record Leader : Type 0 where
  pub mode : ReplMode
  pub stopping : Bool
  pub sessions : List Session
  pub lag : Lag
  pub full_resyncs : ℕ
  pub ack_timeouts : ℕ
  pub sync_degraded : ℕ

unfoldable pub acked_offset : List Session → ℕ
acked_offset [] = 0
acked_offset (s ∷ sessions) = max s.acked (acked_offset sessions)

-- Whether a follower acknowledged `end_offset`.
unfoldable pub is_acked : ℕ → List Session → Bool
is_acked end_offset [] = false
is_acked end_offset (s ∷ sessions) =
    let later = is_acked end_offset sessions in if leb end_offset s.acked then true else later

-- What other threads do while `onAppend` waits: the session at an index reads acknowledgements or
-- ends, a follower joins, the sessions that ended are taken out, or the leader is stopped. Two of
-- these may come at once, before the one that waits has the lock again.
pub data Meanwhile : Type 0 where
  drains : ℕ → ℕ → AckRead → Meanwhile
  finishes : ℕ → Meanwhile
  joins : Session → Meanwhile
  reaps is_stopped : Meanwhile
  at_once : Meanwhile → Meanwhile → Meanwhile

-- The end of `sessionLoop`.
unfoldable pub finish_at : ℕ → List Session → List Session
finish_at i [] = []
finish_at zero (s ∷ sessions) = record s { finished = true } ∷ sessions
finish_at (suc i) (s ∷ sessions) = s ∷ finish_at i sessions

unfoldable pub reap_finished : List Session → List Session
reap_finished [] = []
reap_finished (s ∷ sessions) =
    let rest = reap_finished sessions in if s.finished then rest else s ∷ rest

-- The end of `acceptLoop`: a leader that stops takes no follower.
unfoldable pub join_session : Session → Leader → Leader
join_session s l = if l.stopping then l else record l { sessions = l.sessions ++ (s ∷ []) }

unfoldable pub drain_at : ℕ → AckRead → ℕ → List Session → Lag → List Session × Lag
drain_at now read i [] lag = ([], lag)
drain_at now read zero (s ∷ sessions) lag =
    let (kept, s', lag') = drain_acks now read s lag in (s' ∷ sessions, lag')
drain_at now read (suc i) (s ∷ sessions) lag =
    let (sessions', lag') = drain_at now read i sessions lag in (s ∷ sessions', lag')

unfoldable pub happens : Meanwhile → Leader → Leader
happens (drains i now read) l =
    let (sessions, lag) = drain_at now read i l.sessions l.lag in
    record l { sessions = sessions; lag = lag }
happens (finishes i) l = record l { sessions = finish_at i l.sessions }
happens (joins s) l = join_session s l
happens reaps l = record l { sessions = reap_finished l.sessions }
happens is_stopped l = record l { stopping = true }
happens (at_once e f) l = happens f (happens e l)

unfoldable pub all_happen : List Meanwhile → Leader → Leader
all_happen [] l = l
all_happen (e ∷ events) l = all_happen events (happens e l)

-- `wait_for`: whether the condition held before the time was over, which is at the end of the list.
unfoldable pub wait_for_ack : ℕ → List Meanwhile → Leader → Bool × Leader
wait_for_ack end_offset [] l = (l.stopping || is_acked end_offset l.sessions, l)
wait_for_ack end_offset (e ∷ events) l =
    let rest = wait_for_ack end_offset events (happens e l) in
    if l.stopping || is_acked end_offset l.sessions then (true, l) else rest

unfoldable pub push_pending : ℕ → ℕ → Leader → Leader
push_pending now end_offset l = elim l.sessions [
  | [] ↦ l
  | s ∷ sessions ↦
      let r : PendingRecord = record { offset = end_offset; at = now } in
      record l { lag = record l.lag { pending = l.lag.pending ++ (r ∷ []) } }
]

-- The two ends of the wait.
unfoldable pub waited : Bool × Leader → Leader
waited (true, l) = l
waited (false, l) = record l { ack_timeouts = add64 l.ack_timeouts 1 }

unfoldable pub wait_synchronous : ℕ → List Meanwhile → Leader → Leader
wait_synchronous end_offset events l = elim l.sessions [
  | [] ↦ record l { sync_degraded = add64 l.sync_degraded 1 }
  | s ∷ sessions ↦ waited (wait_for_ack end_offset events l)
]

-- The lock is free between the two parts, and `between` happens.
unfoldable pub on_append : ℕ → ℕ → List Meanwhile → List Meanwhile → Leader → Leader
on_append now end_offset between events l =
    let l' = push_pending now end_offset l in
    elim l.mode [
      | async ↦ l'
      | synchronous ↦ wait_synchronous end_offset events (all_happen between l')
    ]
