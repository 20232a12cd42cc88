-- ===== src/Execution/Termination.antt =====
-- The decoders of gen/go/execution/v1/execution.go end on every input.
use llm_platform.Common.{ℕ, List, ◌≢◌, length, err, arith}
use llm_platform.Common.Float.{Float64}
use llm_platform.Wire.{Wire, out_of_fuel}
use llm_platform.Wire.Progress.{IsProgress, decode_loop-ends, progress_rules}
use llm_platform.Inference.Termination.{chat_unmarshal-ends}
use llm_platform.Execution.{
  ExecuteRequest, ExecuteResponse, StreamChunk, HealthResponse, SetStatusRequest, SetStatusResponse,
}
use llm_platform.Execution.Request
use llm_platform.Execution.Response
use llm_platform.Execution.Chunk
use llm_platform.Execution.Health
use llm_platform.Execution.SetStatus
use llm_platform.Execution.StatusReply

module _ {fl : Float64} (w : Wire fl) where
  execute_request-IsProgress :
      (m : ExecuteRequest) (num typ : ℕ) (b : List w.Byte)
      → IsProgress b (Request.field w m num typ b)
  unfolding Request.field
  execute_request-IsProgress m num typ b = search (progress_rules, chat_unmarshal-ends w) depth 24

  -- Decoding ends on every input: the fuel of the model never runs out.
  pub execute_request_unmarshal-ends :
      (m : ExecuteRequest) (b : List w.Byte) → Request.unmarshal w m b ≢ err out_of_fuel
  unfolding Request.unmarshal
  execute_request_unmarshal-ends m b =
      decode_loop-ends w (Request.field w) execute_request-IsProgress (length b) m b (omega arith)

  execute_response-IsProgress :
      (m : ExecuteResponse fl.Num) (num typ : ℕ) (b : List w.Byte)
      → IsProgress b (Response.field w m num typ b)
  unfolding Response.field
  execute_response-IsProgress m num typ b = search (progress_rules) depth 24

  -- Decoding ends on every input: the fuel of the model never runs out.
  pub execute_response_unmarshal-ends :
      (m : ExecuteResponse fl.Num) (b : List w.Byte) → Response.unmarshal w m b ≢ err out_of_fuel
  unfolding Response.unmarshal
  execute_response_unmarshal-ends m b =
      decode_loop-ends w (Response.field w) execute_response-IsProgress (length b) m b (omega arith)

  execute_chunk-IsProgress :
      (m : StreamChunk) (num typ : ℕ) (b : List w.Byte) → IsProgress b (Chunk.field w m num typ b)
  unfolding Chunk.field
  execute_chunk-IsProgress m num typ b = search (progress_rules) depth 24

  -- Decoding ends on every input: the fuel of the model never runs out.
  pub execute_chunk_unmarshal-ends :
      (m : StreamChunk) (b : List w.Byte) → Chunk.unmarshal w m b ≢ err out_of_fuel
  unfolding Chunk.unmarshal
  execute_chunk_unmarshal-ends m b =
      decode_loop-ends w (Chunk.field w) execute_chunk-IsProgress (length b) m b (omega arith)

  health-IsProgress :
      (m : HealthResponse fl.Num) (num typ : ℕ) (b : List w.Byte)
      → IsProgress b (Health.field w m num typ b)
  unfolding Health.field
  health-IsProgress m num typ b = search (progress_rules) depth 24

  -- Decoding ends on every input: the fuel of the model never runs out.
  pub health_unmarshal-ends :
      (m : HealthResponse fl.Num) (b : List w.Byte) → Health.unmarshal w m b ≢ err out_of_fuel
  unfolding Health.unmarshal
  health_unmarshal-ends m b =
      decode_loop-ends w (Health.field w) health-IsProgress (length b) m b (omega arith)

  set_status-IsProgress :
      (m : SetStatusRequest fl.Num) (num typ : ℕ) (b : List w.Byte)
      → IsProgress b (SetStatus.field w m num typ b)
  unfolding SetStatus.field
  set_status-IsProgress m num typ b = search (progress_rules) depth 24

  -- Decoding ends on every input: the fuel of the model never runs out.
  pub set_status_unmarshal-ends :
      (m : SetStatusRequest fl.Num) (b : List w.Byte) → SetStatus.unmarshal w m b ≢ err out_of_fuel
  unfolding SetStatus.unmarshal
  set_status_unmarshal-ends m b =
      decode_loop-ends w (SetStatus.field w) set_status-IsProgress (length b) m b (omega arith)

  status_reply-IsProgress :
      (m : SetStatusResponse) (num typ : ℕ) (b : List w.Byte)
      → IsProgress b (StatusReply.field w m num typ b)
  unfolding StatusReply.field
  status_reply-IsProgress m num typ b = search (progress_rules) depth 24

  -- Decoding ends on every input: the fuel of the model never runs out.
  pub status_reply_unmarshal-ends :
      (m : SetStatusResponse) (b : List w.Byte) → StatusReply.unmarshal w m b ≢ err out_of_fuel
  unfolding StatusReply.unmarshal
  status_reply_unmarshal-ends m b =
      decode_loop-ends w (StatusReply.field w) status_reply-IsProgress (length b) m b (omega arith)
