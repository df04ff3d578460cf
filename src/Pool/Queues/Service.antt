-- ===== src/Pool/Queues/Service.antt =====
-- What the priority queue serves: every task that it counts, by priority, and with aging from the
-- lowest level once the threshold is reached.
use key_value_store.Common.{
  ℕ, ◌+◌, ◌-◌, ◌==◌, ◌≡◌, refl, ap, sym, ◌∙◌, Bool-cases, inl, inr, Bool, true, false, List, [],
  ◌∷◌, ◌++◌, Option, All, none, some, length, arith, length-append, if◌then◌else◌, add64,
}
use key_value_store.Pool.Queues.{
  Task, TaskPriority, high, normal, low, Levels, level, set_level, PriorityQueue, priority_push,
  priority_pop, serve_first, served_of, promoted_of, serve_by_priority, serve_promoted,
  highest_first, lowest_first, is_due,
}

abbrev pub waiting : Levels → ℕ
waiting ls = length ls.of_high + length ls.of_normal + length ls.of_low

-- The count of a queue is that of its tasks.
pub record IsCounted (q : PriorityQueue) : Type 0 where
  pub counted : q.count ≡ waiting q.levels

waiting-set_level :
    (p : TaskPriority) (tasks : List Task) (ls : Levels)
    → waiting (set_level p tasks ls) + length (level p ls) ≡ waiting ls + length tasks
unfolding set_level level
waiting-set_level high tasks ls = omega arith
waiting-set_level normal tasks ls = omega arith
waiting-set_level low tasks ls = omega arith

-- A `push` on a priority queue keeps its count that of the tasks in its levels.
pub priority_push-IsCounted :
    (task : Task) (q : PriorityQueue) → IsCounted q → IsCounted (priority_push task q)
unfolding priority_push
priority_push-IsCounted task q c =
    let next = add64 q.next_sequence 1 in
    let one = record task { sequence = next } ∷ [] in
    record {
      counted = omega (
        arith,
        c.counted,
        length-append (level task.priority q.levels) one,
        waiting-set_level task.priority (level task.priority q.levels ++ one) q.levels,
      );
    }

-- A higher priority.
abbrev pub is_above : TaskPriority → TaskPriority → Bool
is_above high high = false
is_above high normal = true
is_above high low = true
is_above normal high = false
is_above normal normal = false
is_above normal low = true
is_above low p = false

abbrev same : TaskPriority → TaskPriority → Bool
same high high = true
same high normal = false
same high low = false
same normal high = false
same normal normal = true
same normal low = false
same low high = false
same low normal = false
same low low = true

same_eq : (r p : TaskPriority) → same r p ≡ true → r ≡ p
same_eq high high e = refl
same_eq high normal e = ground (arith, e)
same_eq high low e = ground (arith, e)
same_eq normal high e = ground (arith, e)
same_eq normal normal e = refl
same_eq normal low e = ground (arith, e)
same_eq low high e = ground (arith, e)
same_eq low normal e = ground (arith, e)
same_eq low low e = refl

same_self : (p : TaskPriority) → same p p ≡ true
same_self high = refl
same_self normal = refl
same_self low = refl

-- A level that the loop comes to before another.
unfoldable is_before : TaskPriority → TaskPriority → List TaskPriority → Bool
is_before r p [] = false
is_before r p (x ∷ ps) =
    let rest = is_before r p ps in if same p x then false else if same r x then true else rest

is_above-is_before : (r p : TaskPriority) → is_above r p ≡ true → is_before r p highest_first ≡ true
unfolding is_before
is_above-is_before high high e = ground (arith, e)
is_above-is_before high normal e = refl
is_above-is_before high low e = refl
is_above-is_before normal high e = ground (arith, e)
is_above-is_before normal normal e = ground (arith, e)
is_above-is_before normal low e = refl
is_above-is_before low p e = ground (arith, e)

-- The loop over levels: all are empty, or the front of one is served and those before it are empty.
data Serves (ls : Levels) (ps : List TaskPriority) : Option (Task × Levels) → Type 0 where
  exhausted : All (λ p. level p ls ≡ []) ps → Serves ls ps none
  front :
      (p : TaskPriority) (task : Task) (tasks : List Task)
      → ((r : TaskPriority) → is_before r p ps ≡ true → level r ls ≡ [])
      → level p ls ≡ task ∷ tasks
      → Serves ls ps (some (task, set_level p tasks ls))

Serves-cons :
    (ls : Levels) (p : TaskPriority) (ps : List TaskPriority) (o : Option (Task × Levels))
    → level p ls ≡ []
    → Serves ls ps o
    → Serves ls (p ∷ ps) o
unfolding is_before
Serves-cons ls p ps _ e (exhausted es) = exhausted (e, es)
Serves-cons ls p ps _ e (front q task tasks passed h) =
    front q task tasks
      (λ r b. elim (Bool-cases (same r p)) [
        | inl here ↦ ap (λ x. level x ls) (same_eq r p here) ∙ e
        | inr later ↦ passed r (ground (arith, b, later))
      ])
      h

serve_level :
    (ls : Levels) (p : TaskPriority) (ps : List TaskPriority) (l : List Task)
    → level p ls ≡ l
    → Serves ls ps (serve_first ps ls)
    → Serves ls
        (p ∷ ps)
        (elim l [ [] ↦ serve_first ps ls | task ∷ tasks ↦ some (task, set_level p tasks ls) ])
unfolding is_before
serve_level ls p ps [] e rest = Serves-cons ls p ps (serve_first ps ls) e rest
serve_level ls p ps (task ∷ tasks) e rest =
    front p task tasks (λ r b. ground (arith, b, same_self p)) e

serve_first-Serves : (ps : List TaskPriority) (ls : Levels) → Serves ls ps (serve_first ps ls)
unfolding serve_first
serve_first-Serves [] ls = exhausted tt
serve_first-Serves (p ∷ ps) ls = serve_level ls p ps (level p ls) refl (serve_first-Serves ps ls)

-- The end of a `pop`: nothing from an empty queue, or one task, with the queue counted as before.
pub data IsServed (q : PriorityQueue) : Option (Task × PriorityQueue) → Type 0 where
  empty : q.count ≡ 0 → IsServed q none
  served :
      (task : Task) (after : PriorityQueue) (p : TaskPriority)
      → level p q.levels ≡ task ∷ level p after.levels
      → IsCounted after
      → after.count + 1 ≡ q.count
      → ((is_due q ≡ false) → (r : TaskPriority) → is_above r p ≡ true → level r q.levels ≡ [])
      → IsServed q (some (task, after))

level-set_level :
    (p : TaskPriority) (tasks : List Task) (ls : Levels) → level p (set_level p tasks ls) ≡ tasks
unfolding level set_level
level-set_level high tasks ls = refl
level-set_level normal tasks ls = refl
level-set_level low tasks ls = refl

-- A queue after one task of a level is gone.
taken-IsCounted :
    (q after : PriorityQueue) (p : TaskPriority) (task : Task) (tasks : List Task)
    → IsCounted q
    → level p q.levels ≡ task ∷ tasks
    → after.levels ≡ set_level p tasks q.levels
    → after.count ≡ q.count - 1
    → IsCounted after × (after.count + 1 ≡ q.count)
taken-IsCounted q after p task tasks c h e n =
    let size = ap length h in
    let moved = waiting-set_level p tasks q.levels in
    let same = ap waiting e in
    (
      record { counted = omega (arith, c.counted, size, moved, same, n) },
      omega (arith, c.counted, size, moved, n),
    )

served_of-IsServed :
    (q : PriorityQueue) (o : Option (Task × Levels))
    → IsCounted q
    → Serves q.levels highest_first o
    → IsServed q (served_of q o)
unfolding served_of
served_of-IsServed q _ c (exhausted e) =
    empty
      (unfold level in omega (arith, c.counted, ap length e.0, ap length e.1.0, ap length e.1.1.0))
served_of-IsServed q _ c (front p task tasks passed h) =
    let (counted, fewer) = taken-IsCounted q _ p task tasks c h refl refl in
    served task _ p (h ∙ ap (◌∷◌ task) (sym (level-set_level p tasks q.levels))) counted fewer
      (λ not_due r above. passed r (is_above-is_before r p above))

promoted_of-IsServed :
    (q : PriorityQueue) (o : Option (Task × Levels))
    → is_due q ≡ true
    → IsCounted q
    → Serves q.levels lowest_first o
    → IsServed q (promoted_of q o)
unfolding promoted_of serve_by_priority
promoted_of-IsServed q _ due c (exhausted es) =
    served_of-IsServed q _ c (serve_first-Serves highest_first q.levels)
promoted_of-IsServed q _ due c (front p task tasks passed h) =
    let (counted, fewer) = taken-IsCounted q _ p task tasks c h refl refl in
    served task _ p (h ∙ ap (◌∷◌ task) (sym (level-set_level p tasks q.levels))) counted fewer
      (λ not_due r above. ground (arith, due, not_due))

-- A `pop` of a priority queue whose count is right gives no task only when it is empty; else it
-- takes the front of one level, the count is right again and one less, and when no promotion is due
-- every level of higher priority was empty.
pub priority_pop-IsServed : (q : PriorityQueue) → IsCounted q → IsServed q (priority_pop q)
unfolding priority_pop serve_by_priority serve_promoted
priority_pop-IsServed q c = elim (Bool-cases (q.count == 0)) [
  | inl none_left ↦ rw (none_left, priority_pop) (empty (ground (arith, none_left)))
  | inr some_left ↦ elim (Bool-cases (is_due q)) [
    | inl due ↦
        rw (some_left, due, priority_pop)
          (promoted_of-IsServed q _ due c (serve_first-Serves lowest_first q.levels))
    | inr not_due ↦
        rw (some_left, not_due, priority_pop)
          (served_of-IsServed q _ c (serve_first-Serves highest_first q.levels))
  ]
]
