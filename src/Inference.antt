-- ===== src/Inference.antt =====
-- The messages of gen/go/inference/v1/inference.go. An enum is the int32 that Go makes of it, so
-- values outside the named ones are there too. A map that may be nil is an option.
pub mod Chat
pub mod Request
pub mod Response
pub mod Chunk
pub mod RoundTrip
pub mod RequestTrip
pub mod Termination
mod Examples
use llm_platform.Common.{String, Bool, Option, List, if◌then◌else◌}
use llm_platform.Common.Int.{ℤ, pos, eqb_ℤ}
use llm_platform.Common.Dict.{Dict}

abbrev pub TaskType : Type 0
TaskType = ℤ

abbrev pub task_unspecified : TaskType
task_unspecified = pos 0

abbrev pub task_chat : TaskType
task_chat = pos 1

abbrev pub task_summarize : TaskType
task_summarize = pos 2

abbrev pub task_embed : TaskType
task_embed = pos 3

abbrev pub task_rerank : TaskType
task_rerank = pos 4

abbrev pub task_classify : TaskType
task_classify = pos 5

abbrev pub task_moderate : TaskType
task_moderate = pos 6

-- `TaskType.String`
unfoldable pub task_string : TaskType → String
task_string t =
    if eqb_ℤ t task_chat
    then "chat"
    else if eqb_ℤ t task_summarize
    then "summarize"
    else if eqb_ℤ t task_embed
    then "embed"
    else if eqb_ℤ t task_rerank
    then "rerank"
    else if eqb_ℤ t task_classify
    then "classify"
    else if eqb_ℤ t task_moderate
    then "moderate"
    else "unspecified"

-- `TierSmall`
abbrev pub tier_small : ℤ
tier_small = pos 1

abbrev pub Priority : Type 0
Priority = ℤ

abbrev pub priority_low : Priority
priority_low = pos 0

abbrev pub priority_normal : Priority
priority_normal = pos 1

abbrev pub priority_high : Priority
priority_high = pos 2

abbrev pub priority_critical : Priority
priority_critical = pos 3

pub record ChatMessage : Type 0 where
  pub role : String
  pub content : String

pub record InferenceRequest : Type 0 where
  pub request_id : String
  pub idempotency_key : String
  pub task_type : TaskType
  pub prompt : String
  pub messages : List ChatMessage
  pub documents : List String
  pub query : String
  pub max_tokens : ℤ
  pub stream : Bool
  pub priority : Priority
  pub cost_budget : String
  pub latency_target_ms : ℤ
  pub tenant_id : String
  pub api_key_id : String
  pub metadata : Option (Dict String)
  pub deadline_unix_ms : ℤ
  pub received_at_ms : ℤ

-- `Num` is float64.
pub record InferenceResponse (Num : Type 0) : Type 0 where
  pub request_id : String
  pub trace_id : String
  pub task_type : TaskType
  pub model_id : String
  pub model_version : String
  pub model_tier : ℤ
  pub content : String
  pub embedding : List Num
  pub scores : List Num
  pub tokens_input : ℤ
  pub tokens_output : ℤ
  pub latency_ms : Num
  pub queue_wait_ms : Num
  pub cached : Bool
  pub fallback_used : Bool
  pub is_canary : Bool
  pub cost_usd : Num
  pub executor_id : String

pub record StreamChunk (Num : Type 0) : Type 0 where
  pub request_id : String
  pub trace_id : String
  pub token : String
  pub done : Bool
  pub tokens_out : ℤ
  pub latency_ms : Num
