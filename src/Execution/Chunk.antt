-- ===== src/Execution/Chunk.antt =====
-- `StreamChunk.MarshalProto` and `UnmarshalProto` of gen/go/execution/v1/execution.go.
use llm_platform.Common.{ℕ, false, List, [], ◌∷◌, Result, if◌then◌else◌}
use llm_platform.Common.Int.{pos}
use llm_platform.Common.Float.{Float64}
use llm_platform.Wire.{
  Wire, DecodeError, bytes_type, varint_type, is_field, concat, put_string, put_int, put_bool,
  read_string, read_int32, read_bool, skip, decode,
}
use llm_platform.Execution.{StreamChunk}

abbrev pub empty : StreamChunk
empty = record { request_id = ""; token = ""; done = false; tokens_out = pos 0 }

module _ {fl : Float64} (w : Wire fl) where
  -- `MarshalProto`
  unfoldable pub marshal : StreamChunk → List w.Byte
  marshal m = concat w (
      (put_string w 1 m.request_id)
      ∷ (put_string w 2 m.token)
      ∷ (put_bool w 3 m.done)
      ∷ (put_int w 4 m.tokens_out)
      ∷ [])

  -- The switch of `UnmarshalProto`.
  unfoldable pub field :
      StreamChunk → ℕ → ℕ → List w.Byte → Result DecodeError (StreamChunk × List w.Byte)
  field m num typ b =
      if is_field 1 bytes_type num typ
      then read_string w (λ v. record m { request_id = v }) b
      else if is_field 2 bytes_type num typ
      then read_string w (λ v. record m { token = v }) b
      else if is_field 3 varint_type num typ
      then read_bool w (λ v. record m { done = v }) b
      else if is_field 4 varint_type num typ
      then read_int32 w (λ v. record m { tokens_out = v }) b
      else skip w num typ m b

  -- `UnmarshalProto` into the message `m`
  unfoldable pub unmarshal : StreamChunk → List w.Byte → Result DecodeError StreamChunk
  unmarshal m b = decode w field m b
