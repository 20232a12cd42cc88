-- ===== src/Scheduler/Registry.antt =====
-- services/scheduler/internal/queue/queue.go: `Registry`, the queues of all models. A model's queue
-- is shared by pointer and its map entry is never replaced, so the model id stands for the pointer.
pub mod Isolation
mod Examples
use llm_platform.Common.{ℕ, String, Bool, List, [], Option, none, some, if◌then◌else◌}
use llm_platform.Common.Int.{ℤ}
use llm_platform.Common.Dict.{Dict, get, put, map_values}
use llm_platform.Scheduler.Queue.{
  Item, ModelQueue, QueueStats, new_model_queue, depth, enqueue, drain, stats,
}

pub record Registry : Type 0 where
  pub queues : Dict ModelQueue
  pub max_depth : ℕ

unfoldable pub new_registry : ℕ → Registry
new_registry max_depth = record { queues = []; max_depth = max_depth }

-- `Registry.Queue`: the second look under the write lock finds what the first did not only if
-- another call came between, which is the case of the first look here.
unfoldable pub queue : Registry → String → Registry × ModelQueue
queue r model_id = elim (get r.queues model_id) [
  | some q ↦ (r, q)
  | none ↦ let q = new_model_queue r.max_depth in (record r { queues = put r.queues model_id q }, q)
]

unfoldable pub all_depths : Registry → Dict ℕ
all_depths r = map_values depth r.queues

unfoldable pub all_stats : Registry → Dict QueueStats
all_stats r = map_values stats r.queues

unfoldable pub queue_depth : Registry → String → ℕ
queue_depth r model_id = elim (get r.queues model_id) [ some q ↦ depth q | none ↦ 0 ]

-- `r.Queue(modelID).Enqueue(item)` and `r.Queue(modelID).Drain(n)`, through the pointer.
unfoldable pub enqueue_at : Registry → String → Item → Registry × Bool
enqueue_at r model_id item =
    let (r', q) = queue r model_id in
    let (q', accepted) = enqueue q item in
    (record r' { queues = put r'.queues model_id q' }, accepted)

unfoldable pub drain_at : Registry → String → ℤ → Registry × List Item
drain_at r model_id n =
    let (r', q) = queue r model_id in
    let (q', items) = drain q n in (record r' { queues = put r'.queues model_id q' }, items)
