-- ===== src/Scheduler/Batcher.antt =====
-- services/scheduler/internal/batcher/batcher.go: the batching loop of one model. Parameters are
-- float64, the client of google.golang.org/grpc with its errors, the outcome of a dial (`grpc.NewClient`)
-- and of each `Execute` call. Times are in nanoseconds and come from Go's monotonic clock.
pub mod Window
pub mod Replies
mod Examples
use llm_platform.Common.{
  ℕ, ◌+◌, ◌-◌, ◌*◌, ◌/◌, String, Bool, true, false, ◌||◌, Option, none, some, List, [], ◌∷◌, ◌++◌,
  map, length, ltb, eqb, if◌then◌else◌, add64, Result, ok, err,
}
use llm_platform.Common.Int.{ℤ, pos}
use llm_platform.Common.Float.{Float64}
use llm_platform.Inference.{InferenceResponse, task_unspecified}
use llm_platform.Execution.{ExecuteRequest, ExecuteResponse}
use llm_platform.Scheduler.Queue.{Item, ModelQueue, depth, drain}
use llm_platform.Scheduler.Histogram.{LatencyHist, new_latency_hist, record_latency, p99}

pub record BatchMetrics : Type 0 where
  pub batches_dispatched : ℕ
  pub requests_processed : ℕ
  pub total_batch_size : ℕ
  pub total_batches : ℕ
  pub load_shedded : ℕ

unfoldable pub record_batch : BatchMetrics → ℕ → BatchMetrics
record_batch m size = record m {
  batches_dispatched = add64 m.batches_dispatched 1;
  requests_processed = add64 m.requests_processed size;
  total_batch_size = add64 m.total_batch_size size;
  total_batches = add64 m.total_batches 1;
}

module _ (fl : Float64) where
  open fl use {Num, of_nat, lit, mul, div, lt}

  -- The counters stay below 2^63, so that the int64 is the number.
  unfoldable pub avg_batch_size : BatchMetrics → Num
  avg_batch_size m =
      if eqb m.total_batches 0
      then of_nat 0
      else div (of_nat m.total_batch_size) (of_nat m.total_batches)

  -- The limits are ints that the program makes positive.
  pub record Config : Type 0 where
    pub max_batch_size : ℕ
    pub max_wait_ms : ℕ
    pub min_wait_ms : ℕ
    pub p99_slo_ms : Num
    pub dispatch_timeout : ℕ

  unfoldable pub default_config : Config
  default_config = record {
    max_batch_size = 16;
    max_wait_ms = 30;
    min_wait_ms = 5;
    p99_slo_ms = of_nat 500;
    dispatch_timeout = 30 * 1_000_000_000;
  }

  -- `adaptiveWait` from the depth of the queue and the p99 that it reads.
  pub wait_window : Config → ℕ → Num → ℕ
  wait_window cfg depth p99_ms =
      if ltb 20 depth || lt (mul cfg.p99_slo_ms (lit 15 1)) p99_ms
      then cfg.min_wait_ms
      else if ltb 5 depth
      then cfg.max_wait_ms / 2
      else cfg.max_wait_ms

  module _ (Client Failure : Type 0) where
    -- `connOnce` has run if `dialled`; `exec_client` is nil until a dial has succeeded.
    pub record Batcher : Type 0 where
      pub model_id : String
      pub exec_addr : String
      pub cfg : Config
      pub latency : LatencyHist fl
      pub dialled : Bool
      pub exec_client : Option Client

    unfoldable pub new_batcher : String → String → Config → Batcher
    new_batcher model_id exec_addr cfg = record {
      model_id = model_id;
      exec_addr = exec_addr;
      cfg = cfg;
      latency = new_latency_hist fl 1000;
      dialled = false;
      exec_client = none;
    }

    -- `none` is the panic of the p99.
    unfoldable pub adaptive_wait : Batcher → ModelQueue → Option ℕ
    unfolding wait_window
    adaptive_wait b q = elim (p99 fl b.latency) [
      | some v ↦ some (wait_window b.cfg (depth q) v)
      | none ↦ none
    ]

    -- The client, nil among them, or the error of the dial; `dial` is what `grpc.NewClient` returns if
    -- it is called.
    unfoldable pub exec_client_lazy :
        Batcher → Result Failure Client → Batcher × Result Failure (Option Client)
    exec_client_lazy b dial = if b.dialled then (b, ok b.exec_client) else elim dial [
      | err e ↦ (record b { dialled = true }, err e)
      | ok c ↦ (record b { dialled = true; exec_client = some c }, ok (some c))
    ]

    -- What is sent on an item's channel. A dial's error is wrapped as "executor dial: …".
    pub data Failed : Type 0 where
      dial_failed : Failure → Failed
      execute_failed : Failure → Failed

    pub record QueueResult : Type 0 where
      pub resp : Option (InferenceResponse Num)
      pub error : Option Failed
      pub wait_ms : Num

    pub execute_request : Item → ExecuteRequest
    execute_request it = record {
      request_id = it.req.request_id;
      model_id = it.executor_addr;
      model_version = "";
      task_type = it.req.task_type;
      prompt = it.req.prompt;
      messages = it.req.messages;
      documents = it.req.documents;
      query = it.req.query;
      max_tokens = it.req.max_tokens;
      deadline_ms = pos 0;
    }

    pub reply_of : Num → ExecuteResponse Num → InferenceResponse Num
    reply_of wait_ms r = record {
      request_id = r.request_id;
      trace_id = "";
      task_type = task_unspecified;
      model_id = r.model_id;
      model_version = "";
      model_tier = pos 0;
      content = r.content;
      embedding = r.embedding;
      scores = r.scores;
      tokens_input = r.tokens_input;
      tokens_output = r.tokens_output;
      latency_ms = r.latency_ms;
      queue_wait_ms = wait_ms;
      cached = false;
      fallback_used = false;
      is_canary = false;
      cost_usd = of_nat 0;
      executor_id = "";
    }

    -- The goroutine of one item, at time `now`.
    unfoldable pub run_item :
        (ExecuteRequest → Result Failure (ExecuteResponse Num)) → ℕ → Item → QueueResult
    unfolding execute_request reply_of
    run_item execute now it =
        let wait_ms = of_nat ((now - it.enqueued_at) / 1_000_000) in
        elim (execute (execute_request it)) [
          | err e ↦ record { resp = none; error = some (execute_failed e); wait_ms = wait_ms }
          | ok r ↦ record { resp = some (reply_of wait_ms r); error = none; wait_ms = wait_ms }
        ]

    -- One goroutine for each item, and `wg.Wait`: what is sent, with the channel it is sent on.
    unfoldable pub default_dispatch :
        (ExecuteRequest → Result Failure (ExecuteResponse Num))
        → ℕ
        → List Item
        → List (ℕ × QueueResult)
    unfolding run_item
    default_dispatch execute now items = map (λ it. (it.result_ch, run_item execute now it)) items

    -- A row of `batch_log`, the generated id left out.
    pub record BatchRow : Type 0 where
      pub row_model : String
      pub task_type : String
      pub batch_size : ℕ
      pub row_wait_ms : Num
      pub dispatch_ms : Num
      pub flush_reason : String

    -- The state that a batcher works on: its own, its queue, the metrics that all batchers share, the
    -- rows of `batch_log`, and what was sent to the waiting callers.
    pub record World : Type 0 where
      pub batcher : Batcher
      pub queue : ModelQueue
      pub metrics : BatchMetrics
      pub rows : List BatchRow
      pub sent : List (ℕ × QueueResult)

    -- What the outside does in one dispatch: the dial, the calls, and the clock at the two ends.
    pub record Outside : Type 0 where
      pub dial : Result Failure Client
      pub execute : Client → ExecuteRequest → Result Failure (ExecuteResponse Num)
      pub started : ℕ
      pub finished : ℕ

    -- The metrics and the row of `batch_log` that a dispatched batch leaves.
    abbrev pub logged : World → Batcher → ℕ → ℕ → Num → World
    logged w b size wait latency_ms = record w {
      batcher = b;
      metrics = record_batch w.metrics size;
      rows =
          w.rows
          ++ record {
            row_model = b.model_id;
            task_type = "mixed";
            batch_size = size;
            row_wait_ms = of_nat wait;
            dispatch_ms = latency_ms;
            flush_reason = "timer";
          }
            ∷ [];
    }

    -- The part of `dispatch` behind `dispatchFn`, with a database.
    pub after_dispatch : World → ℕ → ℕ → Option World
    after_dispatch w size latency_ns =
        let latency_ms = of_nat (latency_ns / 1_000_000) in
        let b = record w.batcher { latency = record_latency fl w.batcher.latency latency_ms } in
        elim (adaptive_wait b w.queue) [
          | none ↦ none
          | some wait ↦ some (logged w b size wait latency_ms)
        ]

    -- What every item of a batch is sent if the dial fails.
    abbrev pub dial_error : Failure → QueueResult
    dial_error e = record { resp = none; error = some (dial_failed e); wait_ms = of_nat 0 }

    -- `none` is a panic: a call through the nil client, or the p99's.
    unfoldable pub dispatch : World → Outside → List Item → Option World
    unfolding after_dispatch
    dispatch w o items =
        let (b, client) = exec_client_lazy w.batcher o.dial in
        elim client [
          | err e ↦ some (record w {
            batcher = b;
            sent = w.sent ++ map (λ it. (it.result_ch, dial_error e)) items;
          })
          | ok none ↦ none
          | ok (some c) ↦
              after_dispatch
                (record w {
                  batcher = b;
                  sent = w.sent ++ default_dispatch (o.execute c) o.started items;
                })
                (length items) (o.finished - o.started)
        ]

    -- One round of `loop`, the context not being done: it sleeps, drains and dispatches.
    unfoldable pub round : World → Outside → Option World
    unfolding dispatch
    round w o = elim (adaptive_wait w.batcher w.queue) [
      | none ↦ none
      | some wait ↦
          let (q, items) = drain w.queue (pos w.batcher.cfg.max_batch_size) in
          let w' = record w { queue = q } in
          if eqb (length items) 0 then some w' else dispatch w' o items
    ]
