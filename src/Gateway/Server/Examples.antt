-- ===== src/Gateway/Server/Examples.antt =====
-- The gateway on a request to chat, unary and streamed.
use llm_platform.Common.{ℕ, Bool, true, false, Option, none, some, List, [], ◌∷◌, ok}
use llm_platform.Common.Dict
use llm_platform.Common.Int.{pos}
use llm_platform.Common.Fixed.{fixed}
use llm_platform.Inference.{InferenceRequest, InferenceResponse}
use llm_platform.Gateway.Admission
use llm_platform.Gateway.Admission.{default_config}
use llm_platform.Gateway.Auth
use llm_platform.Gateway.Auth.{found}
use llm_platform.Gateway.Server.{
  Gateway, Incoming, HttpRequest, World, Handled, grpc_request, sse_answer, handle_inference,
  new_gateway,
}

abbrev response : InferenceResponse ℕ
response = record {
  request_id = "r1";
  trace_id = "t1";
  task_type = pos 1;
  model_id = "m";
  model_version = "";
  model_tier = pos 1;
  content = "hello there";
  embedding = [];
  scores = [];
  tokens_input = pos 3;
  tokens_output = pos 9;
  latency_ms = 12000;
  queue_wait_ms = 0;
  cached = false;
  fallback_used = false;
  is_canary = false;
  cost_usd = 7;
  executor_id = "e";
}

abbrev world : World fixed
world = record {
  row = found (record {
    key_id = "k1";
    tenant_id = "tenant-default";
    routing_mode = "balanced";
    rate_limit_rps = pos 50;
    burst_limit = pos 100;
  });
  start = 1_000_000_000;
  auth_at = 1_000_000_000;
  cached_at = 1_000_000_000;
  admitted_at = 1_000_000_000;
  request_id = "r1";
  route = λ deadline req. ok response;
  fields = λ content. "hello" ∷ "there" ∷ [];
  gone = λ i. false;
  last_chunk_at = 1_040_000_000;
}

abbrev body : Bool → HttpRequest
body stream = record {
  prompt = "hi";
  messages = [];
  documents = [];
  query = "";
  max_tokens = pos 0;
  stream = stream;
  priority = pos 1;
  cost_budget = "";
  latency_target_ms = pos 0;
  metadata = none;
}

abbrev incoming : Bool → Incoming
incoming stream = record {
  method = "POST";
  path = "/v1/chat";
  authorization = "Bearer test-key-1234";
  x_api_key = "";
  idempotency_key = "";
  body = some (body stream);
  flusher = true;
}

abbrev gateway : Gateway
unfolding new_gateway default_config
gateway = new_gateway default_config

abbrev or_empty : Option InferenceRequest → InferenceRequest
or_empty (some req) = req
or_empty none = grpc_request "" 0 (incoming false) (body false) (record {
  key_id = "";
  tenant_id = "";
  routing_mode = "";
  rate_limit_rps = pos 0;
  burst_limit = pos 0;
})

abbrev asked : Option InferenceRequest
asked = (handle_inference fixed world gateway (incoming true)).asked

abbrev requests : List (World fixed × Incoming)
requests = (world, incoming true) ∷ (world, incoming false) ∷ []

abbrev streamed : Handled fixed
streamed = sse_answer fixed world gateway (or_empty none) (ok response)
