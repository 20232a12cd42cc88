-- ===== src/Inference/Examples.antt =====
-- A request and a response through the wire format, in which a byte is a whole tag, number or text.
use llm_platform.Common.{ℕ, List, [], ◌∷◌, true, false, some, ◌≡◌, refl, arith, ok}
use llm_platform.Common.Int.{pos, negsuc}
use llm_platform.Common.Dict
use llm_platform.Common.Fixed.{fixed}
use llm_platform.Wire.Numbers.{IsZeroExact}
use llm_platform.Wire.Plain.{plain, Cell, tag, number}
use llm_platform.Inference.{InferenceRequest, InferenceResponse}
use llm_platform.Inference.Request
use llm_platform.Inference.Request.{made}
use llm_platform.Inference.Response
use llm_platform.Inference.RequestTrip.{IsWireRequest, request_round_trip}
use llm_platform.Inference.RoundTrip.{IsWireResponse, response_round_trip}

abbrev request : InferenceRequest
request = record {
  request_id = "r1";
  idempotency_key = "";
  task_type = pos 1;
  prompt = "";
  messages =
      record { role = "user"; content = "hello" } ∷ record { role = ""; content = "again" } ∷ [];
  documents = "a" ∷ "" ∷ [];
  query = "q";
  max_tokens = negsuc 4;
  stream = true;
  priority = pos 3;
  cost_budget = "low";
  latency_target_ms = pos 0;
  tenant_id = "t";
  api_key_id = "k";
  metadata = some (("x", "1") ∷ ("y", "") ∷ []);
  deadline_unix_ms = pos 1_700_000_000_000;
  received_at_ms = pos 0;
}

request_fits : IsWireRequest request
unfolding Dict.has
request_fits = record {
  task_type = omega arith;
  max_tokens = omega arith;
  priority = omega arith;
  latency_target_ms = omega arith;
  deadline_unix_ms = omega arith;
  received_at_ms = omega arith;
  metadata = (refl, (refl, tt));
}

request_round_trip_example :
    Request.unmarshal plain Request.empty (Request.marshal plain request)
    ≡ ok (record request { metadata = some (made request.metadata) })
request_round_trip_example = request_round_trip plain request request_fits

abbrev response : InferenceResponse ℕ
response = record {
  request_id = "r1";
  trace_id = "t1";
  task_type = pos 1;
  model_id = "m";
  model_version = "";
  model_tier = pos 1;
  content = "hi";
  embedding = 1500 ∷ 0 ∷ [];
  scores = [];
  tokens_input = pos 3;
  tokens_output = pos 9;
  latency_ms = 12000;
  queue_wait_ms = 0;
  cached = false;
  fallback_used = false;
  is_canary = true;
  cost_usd = 7;
  executor_id = "e";
}

exact : (x : ℕ) → IsZeroExact fixed x
exact x h = ground (arith, h)

response_fits : IsWireResponse fixed response
response_fits = record {
  task_type = omega arith;
  model_tier = omega arith;
  tokens_input = omega arith;
  tokens_output = omega arith;
  latency_ms = exact 12000;
  queue_wait_ms = exact 0;
  cost_usd = exact 7;
}

response_round_trip_example :
    Response.unmarshal plain (Response.empty fixed) (Response.marshal plain response) ≡ ok response
response_round_trip_example = response_round_trip plain response response_fits

-- A tag of a field that the decoder does not know, and an input that stops in a field.
abbrev cut_off : List Cell
cut_off = tag 99 0 ∷ number 5 ∷ tag 1 2 ∷ []
