-- ===== src/Scheduler/Queue.antt =====
-- services/scheduler/internal/queue/queue.go: `ModelQueue`, the three-lane queue of one model.
-- The mutex makes each method one step. The counters are int64 bit patterns.
pub mod Order
pub mod Counts
pub mod Trace
pub mod Examples
use llm_platform.Common.{
  ℕ, zero, suc, ◌+◌, Bool, true, false, ◌||◌, Option, none, some, List, [], ◌∷◌, ◌++◌, String,
  length, leb, if◌then◌else◌, add64,
}
use llm_platform.Common.Int.{ℤ, eqb_ℤ, pos_part}
use llm_platform.Inference.{
  InferenceRequest, Priority, priority_normal, priority_high, priority_critical,
}

-- `result_ch` is the identity of the item's channel, times are in nanoseconds.
pub record Item : Type 0 where
  pub req : InferenceRequest
  pub executor_addr : String
  pub enqueued_at : ℕ
  pub result_ch : ℕ

pub record ModelQueue : Type 0 where
  pub high : List Item
  pub normal : List Item
  pub low : List Item
  pub max_depth : ℕ
  pub enqueued : ℕ
  pub dropped : ℕ
  pub dispatched : ℕ

unfoldable pub new_model_queue : ℕ → ModelQueue
new_model_queue max_depth = record {
  high = [];
  normal = [];
  low = [];
  max_depth = max_depth;
  enqueued = 0;
  dropped = 0;
  dispatched = 0;
}

unfoldable pub depth : ModelQueue → ℕ
depth q = length q.high + length q.normal + length q.low

-- The `switch` on the item's priority.
pub append_lane : ModelQueue → Item → ModelQueue
append_lane q item =
    if eqb_ℤ item.req.priority priority_critical || eqb_ℤ item.req.priority priority_high
    then record q { high = q.high ++ item ∷ [] }
    else if eqb_ℤ item.req.priority priority_normal
    then record q { normal = q.normal ++ item ∷ [] }
    else record q { low = q.low ++ item ∷ [] }

unfoldable pub enqueue : ModelQueue → Item → ModelQueue × Bool
unfolding depth append_lane
enqueue q item =
    if leb q.max_depth (depth q)
    then (record q { dropped = add64 q.dropped 1 }, false)
    else (let q' = append_lane q item in record q' { enqueued = add64 q.enqueued 1 }, true)

-- One round of the loop of `Drain`: the head of the first lane that holds an item.
pub pop : ModelQueue → Option (Item × ModelQueue)
pop q = elim q.high [
  | x ∷ rest ↦ some (x, record q { high = rest })
  | [] ↦ elim q.normal [
    | x ∷ rest ↦ some (x, record q { normal = rest })
    | [] ↦ elim q.low [ x ∷ rest ↦ some (x, record q { low = rest }) | [] ↦ none ]
  ]
]

-- The loop of `Drain`, on the rounds left, `n - len(out)`.
pub drain_loop : ℕ → ModelQueue → List Item → ModelQueue × List Item
unfolding pop
drain_loop zero q out = (q, out)
drain_loop (suc k) q out = elim (pop q) [
  | some (x, q') ↦ drain_loop k q' (out ++ x ∷ [])
  | none ↦ (q, out)
]

unfoldable pub drain : ModelQueue → ℤ → ModelQueue × List Item
unfolding drain_loop
drain q n =
    let (q', out) = drain_loop (pos_part n) q [] in
    (record q' { dispatched = add64 q'.dispatched (length out) }, out)

pub record QueueStats : Type 0 where
  pub depth_high : ℕ
  pub depth_normal : ℕ
  pub depth_low : ℕ
  pub enqueued : ℕ
  pub dropped : ℕ
  pub dispatched : ℕ

unfoldable pub depth_by_lane : ModelQueue → ℕ × ℕ × ℕ
depth_by_lane q = (length q.high, length q.normal, length q.low)

unfoldable pub stats : ModelQueue → QueueStats
unfolding depth_by_lane
stats q =
    let (h, n, l) = depth_by_lane q in
    record {
      depth_high = h;
      depth_normal = n;
      depth_low = l;
      enqueued = q.enqueued;
      dropped = q.dropped;
      dispatched = q.dispatched;
    }

unfoldable pub total_depth : QueueStats → ℕ
total_depth s = s.depth_high + s.depth_normal + s.depth_low
