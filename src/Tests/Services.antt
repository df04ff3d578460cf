-- ===== src/Tests/Services.antt =====
-- Tests of the parser and of the priority queue.
use key_value_store.Common.{true, [], ◌∷◌, ◌≡◌, refl, codes}
use key_value_store.Protocol.Parser.{set_type, parse}
use key_value_store.Protocol.Parser.Lines.{set_line, parse-set_line}
use key_value_store.Pool.Queues.{
  Task, low, PriorityQueue, new_priority_queue, priority_push, priority_pop,
}
use key_value_store.Pool.Queues.Service.{
  IsCounted, IsServed, priority_push-IsCounted, priority_pop-IsServed,
}

parse-set_line_example :
    parse (set_line (b'k' ∷ []) (b'v' ∷ codes " w"))
    ≡ record { type = set_type; key = b'k' ∷ []; value = b'v' ∷ codes " w"; error = [] }
parse-set_line_example = parse-set_line b'k' b'v' [] (codes " w") (refl, tt) refl

abbrev slow : Task
slow = record { run = 1; priority = low; sequence = 0 }

abbrev queue : PriorityQueue
queue = new_priority_queue true 32

queue-IsCounted : IsCounted queue
unfolding new_priority_queue
queue-IsCounted = record { counted = refl }

pushed-IsCounted : IsCounted (priority_push slow queue)
pushed-IsCounted = priority_push-IsCounted slow queue queue-IsCounted

priority_pop-IsServed_example :
    IsServed (priority_push slow queue) (priority_pop (priority_push slow queue))
priority_pop-IsServed_example = priority_pop-IsServed (priority_push slow queue) pushed-IsCounted
