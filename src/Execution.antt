-- ===== src/Execution.antt =====
-- The messages of gen/go/execution/v1/execution.go.
pub mod Request
pub mod Response
pub mod Chunk
pub mod Health
pub mod SetStatus
pub mod StatusReply
pub mod RoundTrip
pub mod Termination
mod Examples
use llm_platform.Common.{String, Bool, List}
use llm_platform.Common.Int.{ℤ}
use llm_platform.Inference.{TaskType, ChatMessage}

pub record ExecuteRequest : Type 0 where
  pub request_id : String
  pub model_id : String
  pub model_version : String
  pub task_type : TaskType
  pub prompt : String
  pub messages : List ChatMessage
  pub documents : List String
  pub query : String
  pub max_tokens : ℤ
  pub deadline_ms : ℤ

-- `Num` is float64.
pub record ExecuteResponse (Num : Type 0) : Type 0 where
  pub request_id : String
  pub model_id : String
  pub content : String
  pub embedding : List Num
  pub scores : List Num
  pub tokens_input : ℤ
  pub tokens_output : ℤ
  pub latency_ms : Num

pub record StreamChunk : Type 0 where
  pub request_id : String
  pub token : String
  pub done : Bool
  pub tokens_out : ℤ

pub record HealthResponse (Num : Type 0) : Type 0 where
  pub executor_id : String
  pub status : String
  pub model_ids : List String
  pub load_factor : Num
  pub requests_served : ℤ
  pub tokens_per_second : Num
  pub avg_latency_ms : Num

pub record SetStatusRequest (Num : Type 0) : Type 0 where
  pub status : String
  pub load_factor : Num

pub record SetStatusResponse : Type 0 where
  pub status : String
