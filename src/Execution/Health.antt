-- ===== src/Execution/Health.antt =====
-- `HealthResponse.MarshalProto` and `UnmarshalProto` of gen/go/execution/v1/execution.go.
use llm_platform.Common.{ℕ, List, [], ◌∷◌, ◌++◌, Result, if◌then◌else◌}
use llm_platform.Common.Int.{pos}
use llm_platform.Common.Float.{Float64}
use llm_platform.Wire.{
  Wire, DecodeError, bytes_type, varint_type, fixed64_type, is_field, concat, put_string, put_int,
  put_float, put_strings, read_string, read_int64, read_float, skip, decode,
}
use llm_platform.Execution.{HealthResponse}

module _ (fl : Float64) where
  abbrev pub empty : HealthResponse fl.Num
  empty = record {
    executor_id = "";
    status = "";
    model_ids = [];
    load_factor = fl.of_nat 0;
    requests_served = pos 0;
    tokens_per_second = fl.of_nat 0;
    avg_latency_ms = fl.of_nat 0;
  }

module _ {fl : Float64} (w : Wire fl) where
  -- `MarshalProto`
  unfoldable pub marshal : HealthResponse fl.Num → List w.Byte
  marshal m = concat w (
      (put_string w 1 m.executor_id)
      ∷ (put_string w 2 m.status)
      ∷ (put_strings w 3 m.model_ids)
      ∷ (put_float w 4 m.load_factor)
      ∷ (put_int w 5 m.requests_served)
      ∷ (put_float w 6 m.tokens_per_second)
      ∷ (put_float w 7 m.avg_latency_ms)
      ∷ [])

  -- The switch of `UnmarshalProto`.
  unfoldable pub field :
      HealthResponse fl.Num
      → ℕ
      → ℕ
      → List w.Byte
      → Result DecodeError (HealthResponse fl.Num × List w.Byte)
  field m num typ b =
      if is_field 1 bytes_type num typ
      then read_string w (λ v. record m { executor_id = v }) b
      else if is_field 2 bytes_type num typ
      then read_string w (λ v. record m { status = v }) b
      else if is_field 3 bytes_type num typ
      then read_string w (λ v. record m { model_ids = m.model_ids ++ (v ∷ []) }) b
      else if is_field 4 fixed64_type num typ
      then read_float w (λ v. record m { load_factor = v }) b
      else if is_field 5 varint_type num typ
      then read_int64 w (λ v. record m { requests_served = v }) b
      else if is_field 6 fixed64_type num typ
      then read_float w (λ v. record m { tokens_per_second = v }) b
      else if is_field 7 fixed64_type num typ
      then read_float w (λ v. record m { avg_latency_ms = v }) b
      else skip w num typ m b

  -- `UnmarshalProto` into the message `m`
  unfoldable pub unmarshal :
      HealthResponse fl.Num → List w.Byte → Result DecodeError (HealthResponse fl.Num)
  unmarshal m b = decode w field m b
