-- ===== src/Execution/Response.antt =====
-- `ExecuteResponse.MarshalProto` and `UnmarshalProto` of gen/go/execution/v1/execution.go.
use llm_platform.Common.{ℕ, List, [], ◌∷◌, Result, if◌then◌else◌}
use llm_platform.Common.Int.{pos}
use llm_platform.Common.Float.{Float64}
use llm_platform.Wire.{
  Wire, DecodeError, bytes_type, varint_type, fixed64_type, is_field, concat, put_string, put_int,
  put_float, read_string, read_bytes, read_int32, read_float, skip, decode,
}
use llm_platform.Wire.Packed.{put_packed, unpack_fixed64}
use llm_platform.Execution.{ExecuteResponse}

module _ (fl : Float64) where
  abbrev pub empty : ExecuteResponse fl.Num
  empty = record {
    request_id = "";
    model_id = "";
    content = "";
    embedding = [];
    scores = [];
    tokens_input = pos 0;
    tokens_output = pos 0;
    latency_ms = fl.of_nat 0;
  }

module _ {fl : Float64} (w : Wire fl) where
  -- `MarshalProto`
  unfoldable pub marshal : ExecuteResponse fl.Num → List w.Byte
  marshal m = concat w (
      (put_string w 1 m.request_id)
      ∷ (put_string w 2 m.model_id)
      ∷ (put_string w 3 m.content)
      ∷ (put_packed w 4 m.embedding)
      ∷ (put_packed w 5 m.scores)
      ∷ (put_int w 6 m.tokens_input)
      ∷ (put_int w 7 m.tokens_output)
      ∷ (put_float w 8 m.latency_ms)
      ∷ [])

  -- The switch of `UnmarshalProto`.
  unfoldable pub field :
      ExecuteResponse fl.Num
      → ℕ
      → ℕ
      → List w.Byte
      → Result DecodeError (ExecuteResponse fl.Num × List w.Byte)
  field m num typ b =
      if is_field 1 bytes_type num typ
      then read_string w (λ v. record m { request_id = v }) b
      else if is_field 2 bytes_type num typ
      then read_string w (λ v. record m { model_id = v }) b
      else if is_field 3 bytes_type num typ
      then read_string w (λ v. record m { content = v }) b
      else if is_field 4 bytes_type num typ
      then read_bytes w (λ v. record m { embedding = unpack_fixed64 w v }) b
      else if is_field 5 bytes_type num typ
      then read_bytes w (λ v. record m { scores = unpack_fixed64 w v }) b
      else if is_field 6 varint_type num typ
      then read_int32 w (λ v. record m { tokens_input = v }) b
      else if is_field 7 varint_type num typ
      then read_int32 w (λ v. record m { tokens_output = v }) b
      else if is_field 8 fixed64_type num typ
      then read_float w (λ v. record m { latency_ms = v }) b
      else skip w num typ m b

  -- `UnmarshalProto` into the message `m`
  unfoldable pub unmarshal :
      ExecuteResponse fl.Num → List w.Byte → Result DecodeError (ExecuteResponse fl.Num)
  unmarshal m b = decode w field m b
