-- ===== src/Scheduler/Service.antt =====
-- services/scheduler/cmd/main.go: `SchedulerService`. The database, the context and the goroutines of
-- the batchers are left out; what the `select` of `Schedule` sees first is an argument, and `channel`
-- the identity of the channel that it makes. Times are nanoseconds since 1970.
pub mod Accounts
mod Examples
use llm_platform.Common.{
  ℕ, ◌+◌, ◌*◌, String, Bool, true, false, not, Option, none, some, List, [], ◌∷◌, if◌then◌else◌,
  add64, Result, ok, err,
}
use llm_platform.Common.Int.{ℤ, pos, pos_part, ltb_ℤ}
use llm_platform.Common.Dict.{Dict, get, put}
use llm_platform.Common.Float.{Float64}
use llm_platform.Inference.{InferenceRequest, InferenceResponse}
use llm_platform.Scheduler.Queue.{Item, depth}
use llm_platform.Scheduler.Registry.{
  Registry, new_registry, queue, all_depths, enqueue_at, queue_depth,
}
use llm_platform.Scheduler.Batcher.{
  BatchMetrics, Config, default_config, Batcher, new_batcher, QueueResult, Failed, avg_batch_size,
}

pub record SchedulerMetrics : Type 0 where
  pub enqueued : ℕ
  pub dispatched : ℕ
  pub load_shedded : ℕ
  pub errors : ℕ

-- The deadline of `Schedule`: the request's, or 60 s from now.
unfoldable pub wait_until : InferenceRequest → ℕ → ℕ
wait_until req now =
    if ltb_ℤ (pos 0) req.deadline_unix_ms
    then pos_part req.deadline_unix_ms * 1_000_000
    else now + 60 * 1_000_000_000

module _ (fl : Float64) (Client Failure : Type 0) where
  open fl use {Num}

  pub record SchedulerService : Type 0 where
    pub queues : Registry
    pub batchers : Dict (Batcher fl Client Failure)
    pub metrics : BatchMetrics
    pub s_metrics : SchedulerMetrics
    pub cfg : Config fl
    pub exec_addr : String

  unfoldable pub new_scheduler_service : String → SchedulerService
  new_scheduler_service exec_addr = record {
    queues = new_registry 10000;
    batchers = [];
    metrics = record {
      batches_dispatched = 0;
      requests_processed = 0;
      total_batch_size = 0;
      total_batches = 0;
      load_shedded = 0;
    };
    s_metrics = record { enqueued = 0; dispatched = 0; load_shedded = 0; errors = 0 };
    cfg = default_config fl;
    exec_addr = exec_addr;
  }

  -- `getBatcher`
  unfoldable pub get_batcher : SchedulerService → String → String → SchedulerService
  get_batcher s model_id exec_addr = elim (get s.batchers model_id) [
    | some b ↦ s
    | none ↦ record s {
      queues = (queue s.queues model_id).0;
      batchers = put s.batchers model_id (new_batcher fl Client Failure model_id exec_addr s.cfg);
    }
  ]

  -- What a waiting caller sees first.
  pub data Wakeup : Type 0 where
    received : QueueResult fl Client Failure → Wakeup
    timed_out cancelled : Wakeup

  pub data ScheduleError : Type 0 where
    resource_exhausted : String → ℕ → ScheduleError
    deadline_exceeded : String → ScheduleError
    canceled : String → ScheduleError
    reported : Failed fl Client Failure → ScheduleError
    invalid_argument : ScheduleError

  abbrev pub Answer : Type 0
  Answer = Result ScheduleError (Option (InferenceResponse Num))

  -- The `select`.
  unfoldable pub wake : SchedulerService → InferenceRequest → Wakeup → SchedulerService × Answer
  wake s req (received r) = elim r.error [
    | some e ↦ (
      record s { s_metrics = record s.s_metrics { errors = add64 s.s_metrics.errors 1 } },
      err (reported e),
    )
    | none ↦ (
      record s { s_metrics = record s.s_metrics { dispatched = add64 s.s_metrics.dispatched 1 } },
      ok r.resp,
    )
  ]
  wake s req timed_out = (
    record s { s_metrics = record s.s_metrics { errors = add64 s.s_metrics.errors 1 } },
    err (deadline_exceeded req.request_id),
  )
  wake s req cancelled = (s, err (canceled req.request_id))

  abbrev pub item_of : InferenceRequest → String → ℕ → ℕ → Item
  item_of req model_id now channel = record {
    req = req;
    executor_addr = model_id;
    enqueued_at = now;
    result_ch = channel;
  }

  -- `Schedule` of the service.
  unfoldable pub schedule :
      SchedulerService
      → InferenceRequest
      → String
      → String
      → ℕ
      → ℕ
      → Wakeup
      → SchedulerService × Answer
  schedule s req model_id exec_addr now channel wakeup =
      let counted = record s {
        s_metrics = record s.s_metrics { enqueued = add64 s.s_metrics.enqueued 1 };
      } in
      let ready = get_batcher counted model_id exec_addr in
      let (queues, accepted) =
        enqueue_at ready.queues model_id (item_of req model_id now channel) in
      let next = record ready { queues = queues } in
      if not accepted
      then (
        record next {
          s_metrics = record next.s_metrics { load_shedded = add64 next.s_metrics.load_shedded 1 };
        },
        err (resource_exhausted model_id (queue_depth queues model_id)),
      )
      else wake next req wakeup

  -- `Schedule` of the gRPC server, whose request may be nil.
  unfoldable pub serve :
      SchedulerService
      → Option InferenceRequest
      → String
      → String
      → ℕ
      → ℕ
      → Wakeup
      → SchedulerService × Answer
  serve s none model_id exec_addr now channel wakeup = (s, err invalid_argument)
  serve s (some req) model_id exec_addr now channel wakeup =
      schedule s req model_id exec_addr now channel wakeup

  pub record ServiceStats : Type 0 where
    pub enqueued : ℕ
    pub dispatched : ℕ
    pub load_shedded : ℕ
    pub errors : ℕ
    pub avg_size : Num
    pub batches : ℕ
    pub queue_depths : Dict ℕ

  unfoldable pub service_stats : SchedulerService → ServiceStats
  service_stats s = record {
    enqueued = s.s_metrics.enqueued;
    dispatched = s.s_metrics.dispatched;
    load_shedded = s.s_metrics.load_shedded;
    errors = s.s_metrics.errors;
    avg_size = avg_batch_size fl s.metrics;
    batches = s.metrics.batches_dispatched;
    queue_depths = all_depths s.queues;
  }
