-- ===== src/Execution/StatusReply.antt =====
-- `SetStatusResponse.MarshalProto` and `UnmarshalProto` of gen/go/execution/v1/execution.go.
use llm_platform.Common.{ℕ, List, [], ◌∷◌, Result, if◌then◌else◌}
use llm_platform.Common.Float.{Float64}
use llm_platform.Wire.{
  Wire, DecodeError, bytes_type, is_field, concat, put_string, read_string, skip, decode,
}
use llm_platform.Execution.{SetStatusResponse}

abbrev pub empty : SetStatusResponse
empty = record { status = "" }

module _ {fl : Float64} (w : Wire fl) where
  -- `MarshalProto`
  unfoldable pub marshal : SetStatusResponse → List w.Byte
  marshal m = concat w ((put_string w 1 m.status) ∷ [])

  -- The switch of `UnmarshalProto`.
  unfoldable pub field :
      SetStatusResponse → ℕ → ℕ → List w.Byte → Result DecodeError (SetStatusResponse × List w.Byte)
  field m num typ b =
      if is_field 1 bytes_type num typ
      then read_string w (λ v. record m { status = v }) b
      else skip w num typ m b

  -- `UnmarshalProto` into the message `m`
  unfoldable pub unmarshal : SetStatusResponse → List w.Byte → Result DecodeError SetStatusResponse
  unmarshal m b = decode w field m b
