-- ===== src/Pool/Queues.antt =====
-- src/pool/task_queue.cpp: the queues of the thread pool. The function of a task is named by a
-- number. `none` is a `pop` that returns `false`.
pub mod Service
use key_value_store.Common.{
  ℕ, ◌+◌, ◌-◌, ◌==◌, Bool, true, false, ◌&&◌, not, List, [], ◌∷◌, ◌++◌, Option, none, some, Bytes,
  codes, bytes_eq, length, leb, if◌then◌else◌, add64, ◌||◌,
}

pub data TaskPriority : Type 0 where
  high normal low : TaskPriority

pub record Task : Type 0 where
  pub run : ℕ
  pub priority : TaskPriority
  pub sequence : ℕ

pub data SchedulingPolicy : Type 0 where
  fcfs priority round_robin : SchedulingPolicy

unfoldable pub task_priority_name : TaskPriority → Bytes
task_priority_name high = codes "high"
task_priority_name normal = codes "normal"
task_priority_name low = codes "low"

unfoldable pub parse_scheduling_policy : Bytes → Option SchedulingPolicy
parse_scheduling_policy text =
    if bytes_eq text (codes "fcfs")
    then some fcfs
    else if bytes_eq text (codes "priority")
    then some priority
    else if bytes_eq text (codes "rr") || bytes_eq text (codes "round-robin")
    then some round_robin
    else none

unfoldable pub scheduling_policy_name : SchedulingPolicy → Bytes
scheduling_policy_name fcfs = codes "fcfs"
scheduling_policy_name priority = codes "priority"
scheduling_policy_name round_robin = codes "round-robin"

pub record FcfsQueue : Type 0 where
  pub tasks : List Task
  pub next_sequence : ℕ

unfoldable pub fcfs_push : Task → FcfsQueue → FcfsQueue
fcfs_push task q = record {
  tasks = q.tasks ++ (record task { sequence = q.next_sequence } ∷ []);
  next_sequence = add64 q.next_sequence 1;
}

unfoldable pub fcfs_pop : FcfsQueue → Option (Task × FcfsQueue)
fcfs_pop q = elim q.tasks [ [] ↦ none | task ∷ tasks ↦ some (task, record q { tasks = tasks }) ]

pub record RoundRobinQueue : Type 0 where
  pub tasks : List Task
  pub next_sequence : ℕ
  pub requeues : ℕ

unfoldable pub round_robin_push : Task → RoundRobinQueue → RoundRobinQueue
round_robin_push task q =
    let next = add64 q.next_sequence 1 in
    record {
      tasks = q.tasks ++ (record task { sequence = next } ∷ []);
      next_sequence = next;
      requeues = if task.sequence == 0 then q.requeues else add64 q.requeues 1;
    }

unfoldable pub round_robin_pop : RoundRobinQueue → Option (Task × RoundRobinQueue)
round_robin_pop q = elim q.tasks [
  | [] ↦ none
  | task ∷ tasks ↦ some (task, record q { tasks = tasks })
]

-- `levels_`, one queue for each priority.
pub record Levels : Type 0 where
  pub of_high : List Task
  pub of_normal : List Task
  pub of_low : List Task

unfoldable pub level : TaskPriority → Levels → List Task
level high ls = ls.of_high
level normal ls = ls.of_normal
level low ls = ls.of_low

unfoldable pub set_level : TaskPriority → List Task → Levels → Levels
set_level high tasks ls = record ls { of_high = tasks }
set_level normal tasks ls = record ls { of_normal = tasks }
set_level low tasks ls = record ls { of_low = tasks }

pub record PriorityQueue : Type 0 where
  pub levels : Levels
  pub aging : Bool
  pub aging_threshold : ℕ
  pub count : ℕ
  pub next_sequence : ℕ
  pub served : ℕ
  pub promotions : ℕ
  pub serves_since_promotion : ℕ

unfoldable pub new_priority_queue : Bool → ℕ → PriorityQueue
new_priority_queue aging aging_threshold = record {
  levels = record { of_high = []; of_normal = []; of_low = [] };
  aging = aging;
  aging_threshold = if aging_threshold == 0 then 1 else aging_threshold;
  count = 0;
  next_sequence = 0;
  served = 0;
  promotions = 0;
  serves_since_promotion = 0;
}

-- The number of tasks is below 2 ^ 64.
unfoldable pub priority_push : Task → PriorityQueue → PriorityQueue
priority_push task q =
    let next = add64 q.next_sequence 1 in
    record q {
      levels =
          set_level task.priority
            (level task.priority q.levels ++ (record task { sequence = next } ∷ [])) q.levels;
      count = q.count + 1;
      next_sequence = next;
    }

-- A loop over levels: the front of the first that is not empty.
unfoldable pub serve_first : List TaskPriority → Levels → Option (Task × Levels)
serve_first [] ls = none
serve_first (p ∷ ps) ls = elim (level p ls) [
  | [] ↦ serve_first ps ls
  | task ∷ tasks ↦ some (task, set_level p tasks ls)
]

abbrev pub lowest_first : List TaskPriority
lowest_first = low ∷ normal ∷ []

abbrev pub highest_first : List TaskPriority
highest_first = high ∷ normal ∷ low ∷ []

abbrev pub is_due : PriorityQueue → Bool
is_due q = q.aging && leb q.aging_threshold q.serves_since_promotion

-- The counts after the loop that goes by priority.
unfoldable pub served_of : PriorityQueue → Option (Task × Levels) → Option (Task × PriorityQueue)
served_of q none = none
served_of q (some (task, levels)) = some (
  task,
  record q {
    levels = levels;
    count = q.count - 1;
    served = add64 q.served 1;
    serves_since_promotion = add64 q.serves_since_promotion 1;
  },
)

unfoldable pub serve_by_priority : PriorityQueue → Option (Task × PriorityQueue)
serve_by_priority q = served_of q (serve_first highest_first q.levels)

-- The counts after the loop of a promotion; the other loop follows if it finds nothing.
unfoldable pub promoted_of : PriorityQueue → Option (Task × Levels) → Option (Task × PriorityQueue)
promoted_of q none = serve_by_priority q
promoted_of q (some (task, levels)) = some (
  task,
  record q {
    levels = levels;
    count = q.count - 1;
    served = add64 q.served 1;
    promotions = add64 q.promotions 1;
    serves_since_promotion = 0;
  },
)

unfoldable pub serve_promoted : PriorityQueue → Option (Task × PriorityQueue)
serve_promoted q = promoted_of q (serve_first lowest_first q.levels)

unfoldable pub priority_pop : PriorityQueue → Option (Task × PriorityQueue)
priority_pop q =
    if q.count == 0 then none else if is_due q then serve_promoted q else serve_by_priority q
