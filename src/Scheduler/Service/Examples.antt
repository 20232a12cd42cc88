-- ===== src/Scheduler/Service/Examples.antt =====
-- Calls of the scheduler service.
use llm_platform.Common.{ℕ, ◌+◌, ◌%◌, ◌^◌, ◌≤◌, ◌≡◌, none, List, [], ◌∷◌, arith}
use llm_platform.Common.Dict.{get}
use llm_platform.Common.Fixed.{fixed}
use llm_platform.Inference.{priority_low}
use llm_platform.Scheduler.Queue.{ModelQueue, depth}
use llm_platform.Scheduler.Queue.Examples.{request}
use llm_platform.Scheduler.Registry.Isolation.{queue_of}
use llm_platform.Scheduler.Service.{
  SchedulerService, new_scheduler_service, Wakeup, received, timed_out, cancelled,
}
use llm_platform.Scheduler.Service.Accounts.{Request, calls, cancellations, calls-accounted}

abbrev ask : Wakeup fixed ℕ ℕ → Request fixed ℕ ℕ
ask w = record {
  req = request priority_low;
  model_id = "m";
  exec_addr = "e";
  now = 5;
  channel = 1;
  wakeup = w;
}

abbrev three : List (Request fixed ℕ ℕ)
three =
    ask timed_out
    ∷ ask cancelled
    ∷ ask (received (record { resp = none; error = none; wait_ms = 0 }))
    ∷ []

calls-accounted_example :
    let s = new_scheduler_service fixed ℕ ℕ "e" in
    let m = (calls fixed ℕ ℕ s three).s_metrics in
    (m.dispatched + m.load_shedded + m.errors + cancellations fixed ℕ ℕ s three) % 2 ^ 64
    ≡ m.enqueued % 2 ^ 64
calls-accounted_example = calls-accounted fixed ℕ ℕ "e" three

abbrev no_room : ModelQueue
no_room = record {
  high = [];
  normal = [];
  low = [];
  max_depth = 0;
  enqueued = 0;
  dropped = 0;
  dispatched = 0;
}

abbrev busy : SchedulerService fixed ℕ ℕ
busy = record (new_scheduler_service fixed ℕ ℕ "e") {
  queues = record { queues = ("m", no_room) ∷ []; max_depth = 0 };
}

no_room-full : (queue_of busy.queues "m").max_depth ≤ depth (queue_of busy.queues "m")
unfolding queue_of get depth
no_room-full = omega arith
