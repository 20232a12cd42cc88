-- ===== src/Scheduler/Registry/Examples.antt =====
-- A registry with two models.
use llm_platform.Common.{[]}
use llm_platform.Inference.{priority_low}
use llm_platform.Scheduler.Queue.Examples.{item}
use llm_platform.Scheduler.Registry.{Registry, enqueue_at}

abbrev empty : Registry
empty = record { queues = []; max_depth = 2 }

abbrev one : Registry
one = (enqueue_at empty "gpt" (item 1 priority_low)).0
