-- ===== src/Inference/Response.antt =====
-- `InferenceResponse.MarshalProto` and `UnmarshalProto` of gen/go/inference/v1/inference.go.
use llm_platform.Common.{ℕ, false, List, [], ◌∷◌, Result, if◌then◌else◌}
use llm_platform.Common.Int.{pos}
use llm_platform.Common.Float.{Float64}
use llm_platform.Wire.{
  Wire, DecodeError, bytes_type, varint_type, fixed64_type, is_field, concat, put_string, put_int,
  put_bool, put_float, read_string, read_bytes, read_int32, read_bool, read_float, skip, decode,
}
use llm_platform.Wire.Packed.{put_packed, unpack_fixed64}
use llm_platform.Inference.{InferenceResponse}

module _ (fl : Float64) where
  abbrev pub empty : InferenceResponse fl.Num
  empty = record {
    request_id = "";
    trace_id = "";
    task_type = pos 0;
    model_id = "";
    model_version = "";
    model_tier = pos 0;
    content = "";
    embedding = [];
    scores = [];
    tokens_input = pos 0;
    tokens_output = pos 0;
    latency_ms = fl.of_nat 0;
    queue_wait_ms = fl.of_nat 0;
    cached = false;
    fallback_used = false;
    is_canary = false;
    cost_usd = fl.of_nat 0;
    executor_id = "";
  }

module _ {fl : Float64} (w : Wire fl) where
  -- `MarshalProto`
  unfoldable pub marshal : InferenceResponse fl.Num → List w.Byte
  marshal m = concat w (
      (put_string w 1 m.request_id)
      ∷ (put_string w 2 m.trace_id)
      ∷ (put_int w 3 m.task_type)
      ∷ (put_string w 4 m.model_id)
      ∷ (put_string w 5 m.model_version)
      ∷ (put_int w 6 m.model_tier)
      ∷ (put_string w 7 m.content)
      ∷ (put_packed w 8 m.embedding)
      ∷ (put_packed w 9 m.scores)
      ∷ (put_int w 10 m.tokens_input)
      ∷ (put_int w 11 m.tokens_output)
      ∷ (put_float w 12 m.latency_ms)
      ∷ (put_float w 13 m.queue_wait_ms)
      ∷ (put_bool w 14 m.cached)
      ∷ (put_bool w 15 m.fallback_used)
      ∷ (put_bool w 16 m.is_canary)
      ∷ (put_float w 17 m.cost_usd)
      ∷ (put_string w 18 m.executor_id)
      ∷ [])

  -- The switch of `UnmarshalProto`.
  unfoldable pub field :
      InferenceResponse fl.Num
      → ℕ
      → ℕ
      → List w.Byte
      → Result DecodeError (InferenceResponse fl.Num × List w.Byte)
  field m num typ b =
      if is_field 1 bytes_type num typ
      then read_string w (λ v. record m { request_id = v }) b
      else if is_field 2 bytes_type num typ
      then read_string w (λ v. record m { trace_id = v }) b
      else if is_field 3 varint_type num typ
      then read_int32 w (λ v. record m { task_type = v }) b
      else if is_field 4 bytes_type num typ
      then read_string w (λ v. record m { model_id = v }) b
      else if is_field 5 bytes_type num typ
      then read_string w (λ v. record m { model_version = v }) b
      else if is_field 6 varint_type num typ
      then read_int32 w (λ v. record m { model_tier = v }) b
      else if is_field 7 bytes_type num typ
      then read_string w (λ v. record m { content = v }) b
      else if is_field 8 bytes_type num typ
      then read_bytes w (λ v. record m { embedding = unpack_fixed64 w v }) b
      else if is_field 9 bytes_type num typ
      then read_bytes w (λ v. record m { scores = unpack_fixed64 w v }) b
      else if is_field 10 varint_type num typ
      then read_int32 w (λ v. record m { tokens_input = v }) b
      else if is_field 11 varint_type num typ
      then read_int32 w (λ v. record m { tokens_output = v }) b
      else if is_field 12 fixed64_type num typ
      then read_float w (λ v. record m { latency_ms = v }) b
      else if is_field 13 fixed64_type num typ
      then read_float w (λ v. record m { queue_wait_ms = v }) b
      else if is_field 14 varint_type num typ
      then read_bool w (λ v. record m { cached = v }) b
      else if is_field 15 varint_type num typ
      then read_bool w (λ v. record m { fallback_used = v }) b
      else if is_field 16 varint_type num typ
      then read_bool w (λ v. record m { is_canary = v }) b
      else if is_field 17 fixed64_type num typ
      then read_float w (λ v. record m { cost_usd = v }) b
      else if is_field 18 bytes_type num typ
      then read_string w (λ v. record m { executor_id = v }) b
      else skip w num typ m b

  -- `UnmarshalProto` into the message `m`
  unfoldable pub unmarshal :
      InferenceResponse fl.Num → List w.Byte → Result DecodeError (InferenceResponse fl.Num)
  unmarshal m b = decode w field m b
