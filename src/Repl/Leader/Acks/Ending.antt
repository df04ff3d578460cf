-- ===== src/Repl/Leader/Acks/Ending.antt =====
-- src/repl/leader.cpp: how an append of a synchronous leader returns.
use key_value_store.Common.{
  if_elim, ℕ, ◌≡◌, refl, sym, ap, ◌∙◌, subst, Bool, true, false, ◌||◌, List, [], ◌∷◌, ◌++◌,
  if_cases, add64, inl, inr, ◌⊎◌,
}
use key_value_store.Repl.Leader.{Session}
use key_value_store.Repl.Leader.Acks.{
  ReplMode, at_once, all_happen, finishes, joins, reaps, join_session, is_stopped, drains, Leader,
  is_acked, Meanwhile, happens, wait_for_ack, wait_synchronous, waited, push_pending, on_append,
}
use key_value_store.Repl.Roles.{ReplMode, async, synchronous}

-- A follower acknowledged the record, or the leader stops.
abbrev pub is_over : ℕ → Leader → Bool
is_over end_offset l = l.stopping || is_acked end_offset l.sessions

-- Before each of the events it was not over.
abbrev pub NotYet : ℕ → List Meanwhile → Leader → Type 0
NotYet end_offset [] l = Unit {0}
NotYet end_offset (e ∷ events) l =
    (is_over end_offset l ≡ false) × NotYet end_offset events (happens e l)

-- How an append of a synchronous leader `l` ends, whose record ends at `end_offset` and which has
-- the lock again in `k`: a
-- follower acknowledged the record, or the leader stops, or the time is over, or there was no
-- follower.
pub data Returns (end_offset : ℕ) (events : List Meanwhile) (l k l' : Leader) : Type 0 where
  acknowledged :
      (before behind : List Meanwhile)
      → events ≡ before ++ behind
      → NotYet end_offset before k
      → l' ≡ all_happen before k
      → is_acked end_offset l'.sessions ≡ true
      → l'.ack_timeouts ≡ l.ack_timeouts
      → l'.sync_degraded ≡ l.sync_degraded
      → Returns end_offset events l k l'
  was_stopped :
      (before behind : List Meanwhile)
      → events ≡ before ++ behind
      → NotYet end_offset before k
      → l' ≡ all_happen before k
      → l'.stopping ≡ true
      → l'.ack_timeouts ≡ l.ack_timeouts
      → l'.sync_degraded ≡ l.sync_degraded
      → Returns end_offset events l k l'
  timed_out :
      NotYet end_offset events k
      → is_over end_offset (all_happen events k) ≡ false
      → l' ≡ record (all_happen events k) { ack_timeouts = add64 l.ack_timeouts 1 }
      → l'.sync_degraded ≡ l.sync_degraded
      → Returns end_offset events l k l'
  alone :
      k.sessions ≡ []
      → l' ≡ record k { sync_degraded = add64 l.sync_degraded 1 }
      → l'.ack_timeouts ≡ l.ack_timeouts
      → Returns end_offset events l k l'

either : (a b : Bool) → (a || b) ≡ true → (a ≡ true) ⊎ (b ≡ true)
either true b e = inl refl
either false b e = inr e

abbrev KeepsCounts : Leader → Leader → Type 0
KeepsCounts l l' = (l'.ack_timeouts ≡ l.ack_timeouts) × (l'.sync_degraded ≡ l.sync_degraded)

happens_keeps : (e : Meanwhile) (l : Leader) → KeepsCounts l (happens e l)
unfolding happens join_session
happens_keeps (drains i now read) l = (refl, refl)
happens_keeps (finishes i) l = (refl, refl)
happens_keeps (joins s) l =
    if_elim (KeepsCounts l) l.stopping {x = l} {y = record l { sessions = l.sessions ++ (s ∷ []) }}
      (refl, refl) (refl, refl)
happens_keeps reaps l = (refl, refl)
happens_keeps is_stopped l = (refl, refl)
happens_keeps (at_once e f) l =
    let (a, b) = happens_keeps f (happens e l) in
    let (a', b') = happens_keeps e l in (a ∙ a', b ∙ b')

all_happen_keeps : (events : List Meanwhile) (l : Leader) → KeepsCounts l (all_happen events l)
unfolding all_happen
all_happen_keeps [] l = (refl, refl)
all_happen_keeps (e ∷ events) l =
    let (a, b) = all_happen_keeps events (happens e l) in
    let (a', b') = happens_keeps e l in (a ∙ a', b ∙ b')

-- A wait that ends.
record Ended (end_offset : ℕ) (events : List Meanwhile) (l l' : Leader) : Type 0 where
  before : List Meanwhile
  behind : List Meanwhile
  split : events ≡ before ++ behind
  not_yet : NotYet end_offset before l
  state : l' ≡ all_happen before l
  over : is_over end_offset l' ≡ true

-- A wait that ends, and one that does not.
abbrev WaitsIf : ℕ → List Meanwhile → Leader → Bool × Leader → Type 0
WaitsIf end_offset events l (true, l') = Ended end_offset events l l'
WaitsIf end_offset events l (false, l') =
    NotYet end_offset events l
    × (l' ≡ all_happen events l)
    × (is_over end_offset (all_happen events l) ≡ false)

WaitsIf-end :
    (end_offset : ℕ) (l : Leader) (b : Bool)
    → is_over end_offset l ≡ b
    → WaitsIf end_offset [] l (b, l)
unfolding all_happen
WaitsIf-end end_offset l true e = record {
  before = [];
  behind = [];
  split = refl;
  not_yet = tt;
  state = refl;
  over = e;
}
WaitsIf-end end_offset l false e = (tt, refl, e)

WaitsIf-step :
    (end_offset : ℕ) (e : Meanwhile) (events : List Meanwhile) (l : Leader) (y : Bool × Leader)
    → is_over end_offset l ≡ false
    → WaitsIf end_offset events (happens e l) y
    → WaitsIf end_offset (e ∷ events) l y
unfolding all_happen
WaitsIf-step end_offset e events l (true, l') more x = record {
  before = e ∷ x.before;
  behind = x.behind;
  split = ap (λ z. e ∷ z) x.split;
  not_yet = (more, x.not_yet);
  state = x.state;
  over = x.over;
}
WaitsIf-step end_offset e events l (false, l') more (x, e', over) = ((more, x), e', over)

wait_for_ack-Waits :
    (end_offset : ℕ) (events : List Meanwhile) (l : Leader)
    → WaitsIf end_offset events l (wait_for_ack end_offset events l)
unfolding wait_for_ack all_happen
wait_for_ack-Waits end_offset [] l = WaitsIf-end end_offset l (is_over end_offset l) refl
wait_for_ack-Waits end_offset (e ∷ events) l =
    if_cases (WaitsIf end_offset (e ∷ events) l) (is_over end_offset l) {x = (true, l)}
      (λ over. record {
        before = [];
        behind = e ∷ events;
        split = refl;
        not_yet = tt;
        state = refl;
        over = over;
      })
      (λ more.
        WaitsIf-step end_offset e events l _ more
          (wait_for_ack-Waits end_offset events (happens e l)))

waited-Returns :
    (end_offset : ℕ) (events : List Meanwhile) (l k : Leader) (y : Bool × Leader)
    → KeepsCounts l k
    → WaitsIf end_offset events k y
    → Returns end_offset events l k (waited y)
unfolding waited
waited-Returns end_offset events l k (true, l') (a, b) x =
    let (a', b') = all_happen_keeps x.before k in
    let timeouts = ap (λ (z : Leader). z.ack_timeouts) x.state ∙ (a' ∙ a) in
    let degraded = ap (λ (z : Leader). z.sync_degraded) x.state ∙ (b' ∙ b) in
    elim (either _ _ x.over) [
      | inl stopped ↦
          was_stopped x.before x.behind x.split x.not_yet x.state stopped timeouts degraded
      | inr acked ↦ acknowledged x.before x.behind x.split x.not_yet x.state acked timeouts degraded
    ]
waited-Returns end_offset events l k (false, l') (a, b) (x, e, more) =
    let (a', b') = all_happen_keeps events k in
    timed_out x more
      (ap (λ (z : Leader). record z { ack_timeouts = add64 z.ack_timeouts 1 }) e
        ∙ ap (λ (n : ℕ). record (all_happen events k) { ack_timeouts = add64 n 1 }) (a' ∙ a))
      (ap (λ (z : Leader). z.sync_degraded) e ∙ (b' ∙ b))

push_pending_keeps :
    (now end_offset : ℕ) (l : Leader) → KeepsCounts l (push_pending now end_offset l)
unfolding push_pending
push_pending_keeps now end_offset l = with_sessions l.sessions refl
  where
    with_sessions :
        (sessions : List Session)
        → l.sessions ≡ sessions
        → KeepsCounts l (push_pending now end_offset l)
    with_sessions [] e = rw (e) (refl, refl)
    with_sessions (s ∷ sessions) e = rw (e) (refl, refl)

wait_synchronous_alone :
    (end_offset : ℕ) (events : List Meanwhile) (l : Leader)
    → l.sessions ≡ []
    → wait_synchronous end_offset events l ≡ record l { sync_degraded = add64 l.sync_degraded 1 }
unfolding wait_synchronous
wait_synchronous_alone end_offset events l e = rw (e) refl

wait_synchronous_waits :
    (end_offset : ℕ) (events : List Meanwhile) (l : Leader) (s : Session) (sessions : List Session)
    → l.sessions ≡ s ∷ sessions
    → wait_synchronous end_offset events l ≡ waited (wait_for_ack end_offset events l)
unfolding wait_synchronous
wait_synchronous_waits end_offset events l s sessions e = rw (e) refl

wait_synchronous-Returns :
    (end_offset : ℕ) (events : List Meanwhile) (l k : Leader) (sessions : List Session)
    → k.sessions ≡ sessions
    → KeepsCounts l k
    → Returns end_offset events l k (wait_synchronous end_offset events k)
wait_synchronous-Returns end_offset events l k [] e (a, b) =
    let out = wait_synchronous_alone end_offset events k e in
    alone e (out ∙ ap (λ (n : ℕ). record k { sync_degraded = add64 n 1 }) b)
      (ap (λ (z : Leader). z.ack_timeouts) out ∙ a)
wait_synchronous-Returns end_offset events l k (s ∷ sessions) e counts =
    subst (Returns end_offset events l k)
      (sym (wait_synchronous_waits end_offset events k s sessions e))
      (waited-Returns end_offset events l k _ counts (wait_for_ack-Waits end_offset events k))

-- While the lock is free, before and in the wait of an append of a synchronous leader, sessions
-- read acknowledgements, end, join and are reaped, and the leader may be stopped, in any order. The
-- append returns at the first moment that the wait sees when a follower has acknowledged the record
-- or the leader stops, with neither count changed; or it sees none up to the end of the time, and
-- the count of the timeouts, and nothing else, is then one higher; or there is no follower when the
-- wait would start, and only the count of such appends is one higher.
pub on_append-Returns :
    (now end_offset : ℕ) (between events : List Meanwhile) (l : Leader)
    → l.mode ≡ synchronous
    → Returns end_offset events l
        (all_happen between (push_pending now end_offset l))
        (on_append now end_offset between events l)
unfolding on_append
on_append-Returns now end_offset between events l e =
    let k = all_happen between (push_pending now end_offset l) in
    let (a, b) = push_pending_keeps now end_offset l in
    let (a', b') = all_happen_keeps between (push_pending now end_offset l) in
    let after : on_append now end_offset between events l ≡ wait_synchronous end_offset events k =
      ap
        (λ m. elim m as (λ (_ : ReplMode). Leader) [
          | async ↦ push_pending now end_offset l
          | synchronous ↦ wait_synchronous end_offset events k
        ])
        e in
    subst (Returns end_offset events l k) (sym after)
      (wait_synchronous-Returns end_offset events l k k.sessions refl (a' ∙ a, b' ∙ b))
