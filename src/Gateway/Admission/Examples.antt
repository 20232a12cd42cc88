-- ===== src/Gateway/Admission/Examples.antt =====
-- Requests that admission takes and refuses.
use llm_platform.Common.{ℕ, ◌≡◌, refl, false, none, [], arith, ok}
use llm_platform.Common.Int.{pos}
use llm_platform.Inference.{InferenceRequest, task_chat, TaskType}
use llm_platform.Gateway.Admission.{
  Config, validate_task, body_bytes, content_bytes, document_bytes, normalise, admit,
}
use llm_platform.Gateway.Admission.Limits.{WithinLimits, admit_complete}

abbrev request : TaskType → InferenceRequest
request t = record {
  request_id = "r";
  idempotency_key = "";
  task_type = t;
  prompt = "hello";
  messages = [];
  documents = [];
  query = "";
  max_tokens = pos 0;
  stream = false;
  priority = pos 1;
  cost_budget = "";
  latency_target_ms = pos 0;
  tenant_id = "t";
  api_key_id = "k";
  metadata = none;
  deadline_unix_ms = pos 0;
  received_at_ms = pos 0;
}

abbrev chat : InferenceRequest
chat = request task_chat

abbrev limits : Config
limits = record {
  max_prompt_bytes = pos 1000;
  max_tokens = pos 8192;
  max_documents = pos 50;
  deadline_default = 30_000_000_000;
  deadline_max = 120_000_000_000;
}

abbrev now : ℕ
now = 5_000_000_000

chat_complete : validate_task chat ≡ ok tt
unfolding validate_task
chat_complete = refl

chat-WithinLimits : WithinLimits limits chat
unfolding body_bytes content_bytes document_bytes
chat-WithinLimits = record {
  size = omega arith;
  tokens = (omega arith, omega arith);
  documents = omega arith;
}

admit_complete_example : admit limits chat now ≡ ok (normalise limits chat now)
admit_complete_example = admit_complete limits chat now chat_complete chat-WithinLimits
