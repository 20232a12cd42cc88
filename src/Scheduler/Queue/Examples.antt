-- ===== src/Scheduler/Queue/Examples.antt =====
-- Tests and examples of the queue.
use llm_platform.Common.{ℕ, ◌≡◌, refl, false, none, List, [], ◌∷◌, drop, replicate, ◌*◌, map}
use llm_platform.Common.Int.{pos}
use llm_platform.Inference.{
  InferenceRequest, task_chat, Priority, priority_low, priority_normal, priority_high,
}
use llm_platform.Scheduler.Queue.{Item, ModelQueue, new_model_queue, enqueue, drain}
use llm_platform.Scheduler.Queue.Order.{contents}
use llm_platform.Scheduler.Queue.Trace.{Call, offers, drains, run, start, step, drains-contents}

abbrev pub request : Priority → InferenceRequest
request p = record {
  request_id = "r";
  idempotency_key = "";
  task_type = task_chat;
  prompt = "hello";
  messages = [];
  documents = [];
  query = "";
  max_tokens = pos 10;
  stream = false;
  priority = p;
  cost_budget = "";
  latency_target_ms = pos 0;
  tenant_id = "t";
  api_key_id = "k";
  metadata = none;
  deadline_unix_ms = pos 0;
  received_at_ms = pos 0;
}

abbrev pub item : ℕ → Priority → Item
item n p = record { req = request p; executor_addr = "m"; enqueued_at = 0; result_ch = n }

abbrev pub calls : List Call
calls =
    offers (item 1 priority_low)
    ∷ offers (item 2 priority_normal)
    ∷ offers (item 3 priority_high)
    ∷ offers (item 4 priority_high)
    ∷ drains (pos 2)
    ∷ []

abbrev three : ModelQueue
three = record {
  high = item 3 priority_high ∷ [];
  normal = item 2 priority_normal ∷ [];
  low = item 1 priority_low ∷ [];
  max_depth = 3;
  enqueued = 3;
  dropped = 0;
  dispatched = 0;
}

run_calls : map (λ i. i.result_ch) (run (start 3) calls).handed_out ≡ 3 ∷ 2 ∷ []
unfolding run start step enqueue drain new_model_queue
run_calls = refl

drains-contents_example :
    contents (run (start 3) (replicate 2 (drains (pos 2)))).queue
    ≡ drop (2 * 2) (contents (start 3).queue)
drains-contents_example = drains-contents 2 (pos 2) (start 3)
