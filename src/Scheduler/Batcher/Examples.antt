-- ===== src/Scheduler/Batcher/Examples.antt =====
-- A batcher, a round of its loop, and a dial that fails.
use llm_platform.Common.{
  ℕ, ◌≤◌, ◌≡◌, refl, inl, true, some, List, [], ◌∷◌, ◌++◌, arith, take, drop, Result, ok, err,
}
use llm_platform.Common.Int.{pos}
use llm_platform.Common.Fixed.{fixed}
use llm_platform.Percentile.Decimals.{fixed-RankFits}
use llm_platform.Execution.{ExecuteRequest, ExecuteResponse}
use llm_platform.Inference.{priority_low, priority_high}
use llm_platform.Scheduler.Queue.{ModelQueue}
use llm_platform.Scheduler.Queue.Order.{contents}
use llm_platform.Scheduler.Queue.Examples.{item}
use llm_platform.Scheduler.Batcher.{
  BatchMetrics, default_config, wait_window, new_batcher, World, Outside, QueueResult, round,
}
use llm_platform.Scheduler.Batcher.Window.{wait_window-antitone, Sampled-new}
use llm_platform.Scheduler.Batcher.Replies.{Healthy, AllAnswered, round-Served}

abbrev queued : ModelQueue
queued = record {
  high = item 3 priority_high ∷ [];
  normal = [];
  low = item 1 priority_low ∷ [];
  max_depth = 10;
  enqueued = 2;
  dropped = 0;
  dispatched = 0;
}

abbrev no_metrics : BatchMetrics
no_metrics = record {
  batches_dispatched = 0;
  requests_processed = 0;
  total_batch_size = 0;
  total_batches = 0;
  load_shedded = 0;
}

abbrev world : World fixed ℕ ℕ
world = record {
  batcher = new_batcher fixed ℕ ℕ "m" "addr" (default_config fixed);
  queue = queued;
  metrics = no_metrics;
  rows = [];
  sent = [];
}

abbrev reply : ExecuteRequest → Result ℕ (ExecuteResponse ℕ)
reply req = ok (record {
  request_id = req.request_id;
  model_id = req.model_id;
  content = "hi";
  embedding = [];
  scores = [];
  tokens_input = pos 1;
  tokens_output = pos 2;
  latency_ms = 1000;
})

abbrev up : Outside fixed ℕ ℕ
up = record { dial = ok 7; execute = λ c req. reply req; started = 1; finished = 5 }

abbrev down : Outside fixed ℕ ℕ
down = record { dial = err 1; execute = λ c req. reply req; started = 1; finished = 5 }

world-Healthy : Healthy fixed ℕ ℕ world
unfolding new_batcher
world-Healthy = record { sampled = Sampled-new fixed; connected = inl refl }

abbrev batch : ℕ
batch = world.batcher.cfg.max_batch_size

wait_window-antitone_example :
    (5 ≤ wait_window fixed (default_config fixed) 3 0)
    × (wait_window fixed (default_config fixed) 3 0 ≤ 30)
    × (wait_window fixed (default_config fixed) 9 0 ≤ wait_window fixed (default_config fixed) 3 0)
    × (fixed.lt (fixed.mul (default_config fixed).p99_slo_ms (fixed.lit 15 1)) 0 ≡ true
        → wait_window fixed (default_config fixed) 3 0 ≡ 5)
unfolding default_config
wait_window-antitone_example =
    wait_window-antitone fixed (default_config fixed) 3 9 0 (omega arith) (omega arith)

round-Served_example :
    (w : World fixed ℕ ℕ) × (replies : List (ℕ × QueueResult fixed ℕ ℕ)) × (round fixed ℕ ℕ world up
      ≡ some w)
    × Healthy fixed ℕ ℕ w
    × (w.sent ≡ world.sent ++ replies)
    × AllAnswered fixed ℕ ℕ (take batch (contents queued)) replies
    × (contents w.queue ≡ drop batch (contents queued))
round-Served_example =
    round-Served fixed ℕ ℕ (λ n lo hi. fixed-RankFits n lo) world up 7 world-Healthy refl
