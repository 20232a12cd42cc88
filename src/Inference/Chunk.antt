-- ===== src/Inference/Chunk.antt =====
-- `StreamChunk.MarshalProto` and `UnmarshalProto` of gen/go/inference/v1/inference.go.
use llm_platform.Common.{ℕ, false, List, [], ◌∷◌, Result, if◌then◌else◌}
use llm_platform.Common.Int.{pos}
use llm_platform.Common.Float.{Float64}
use llm_platform.Wire.{
  Wire, DecodeError, bytes_type, varint_type, fixed64_type, is_field, concat, put_string, put_int,
  put_bool, put_float, read_string, read_int32, read_bool, read_float, skip, decode,
}
use llm_platform.Inference.{StreamChunk}

module _ (fl : Float64) where
  abbrev pub empty : StreamChunk fl.Num
  empty = record {
    request_id = "";
    trace_id = "";
    token = "";
    done = false;
    tokens_out = pos 0;
    latency_ms = fl.of_nat 0;
  }

module _ {fl : Float64} (w : Wire fl) where
  -- `MarshalProto`
  unfoldable pub marshal : StreamChunk fl.Num → List w.Byte
  marshal m = concat w (
      (put_string w 1 m.request_id)
      ∷ (put_string w 2 m.trace_id)
      ∷ (put_string w 3 m.token)
      ∷ (put_bool w 4 m.done)
      ∷ (put_int w 5 m.tokens_out)
      ∷ (put_float w 6 m.latency_ms)
      ∷ [])

  -- The switch of `UnmarshalProto`.
  unfoldable pub field :
      StreamChunk fl.Num
      → ℕ
      → ℕ
      → List w.Byte
      → Result DecodeError (StreamChunk fl.Num × List w.Byte)
  field m num typ b =
      if is_field 1 bytes_type num typ
      then read_string w (λ v. record m { request_id = v }) b
      else if is_field 2 bytes_type num typ
      then read_string w (λ v. record m { trace_id = v }) b
      else if is_field 3 bytes_type num typ
      then read_string w (λ v. record m { token = v }) b
      else if is_field 4 varint_type num typ
      then read_bool w (λ v. record m { done = v }) b
      else if is_field 5 varint_type num typ
      then read_int32 w (λ v. record m { tokens_out = v }) b
      else if is_field 6 fixed64_type num typ
      then read_float w (λ v. record m { latency_ms = v }) b
      else skip w num typ m b

  -- `UnmarshalProto` into the message `m`
  unfoldable pub unmarshal :
      StreamChunk fl.Num → List w.Byte → Result DecodeError (StreamChunk fl.Num)
  unmarshal m b = decode w field m b
