-- ===== src/Execution/Examples.antt =====
-- The executor's messages through the wire format, in which a byte is a whole tag, number or text.
use llm_platform.Common.{ℕ, [], ◌∷◌, ◌≡◌, arith, ok}
use llm_platform.Common.Int.{pos}
use llm_platform.Common.Fixed.{fixed}
use llm_platform.Wire.Numbers.{IsZeroExact}
use llm_platform.Wire.Plain.{plain}
use llm_platform.Execution.{ExecuteRequest, ExecuteResponse}
use llm_platform.Execution.Request
use llm_platform.Execution.Response
use llm_platform.Execution.RoundTrip.{execute_request_round_trip, execute_response_round_trip}

abbrev request : ExecuteRequest
request = record {
  request_id = "r1";
  model_id = "m";
  model_version = "v1";
  task_type = pos 4;
  prompt = "";
  messages = record { role = "user"; content = "" } ∷ [];
  documents = "a" ∷ "b" ∷ [];
  query = "q";
  max_tokens = pos 64;
  deadline_ms = pos 0;
}

execute_request_round_trip_example :
    Request.unmarshal plain Request.empty (Request.marshal plain request) ≡ ok request
execute_request_round_trip_example =
    execute_request_round_trip plain request
      (record { task_type = omega arith; max_tokens = omega arith; deadline_ms = omega arith })

abbrev response : ExecuteResponse ℕ
response = record {
  request_id = "r1";
  model_id = "m";
  content = "hi";
  embedding = 1500 ∷ [];
  scores = 10 ∷ 20 ∷ [];
  tokens_input = pos 3;
  tokens_output = pos 9;
  latency_ms = 12000;
}

exact : (x : ℕ) → IsZeroExact fixed x
exact x h = ground (arith, h)

execute_response_round_trip_example :
    Response.unmarshal plain (Response.empty fixed) (Response.marshal plain response) ≡ ok response
execute_response_round_trip_example =
    execute_response_round_trip plain response
      (record { tokens_input = omega arith; tokens_output = omega arith; latency_ms = exact 12000 })
