-- ===== src/Inference/Chat.antt =====
-- `ChatMessage.MarshalProto` and `UnmarshalProto` of gen/go/inference/v1/inference.go.
use llm_platform.Common.{ℕ, List, [], ◌∷◌, Result, if◌then◌else◌}
use llm_platform.Common.Float.{Float64}
use llm_platform.Wire.{
  Wire, DecodeError, bytes_type, is_field, concat, put_string, read_string, skip, decode,
}
use llm_platform.Inference.{ChatMessage}

abbrev pub empty : ChatMessage
empty = record { role = ""; content = "" }

module _ {fl : Float64} (w : Wire fl) where
  -- `MarshalProto`
  unfoldable pub marshal : ChatMessage → List w.Byte
  marshal m = concat w ((put_string w 1 m.role) ∷ (put_string w 2 m.content) ∷ [])

  -- The switch of `UnmarshalProto`.
  unfoldable pub field :
      ChatMessage → ℕ → ℕ → List w.Byte → Result DecodeError (ChatMessage × List w.Byte)
  field m num typ b =
      if is_field 1 bytes_type num typ
      then read_string w (λ v. record m { role = v }) b
      else if is_field 2 bytes_type num typ
      then read_string w (λ v. record m { content = v }) b
      else skip w num typ m b

  -- `UnmarshalProto` into the message `m`
  unfoldable pub unmarshal : ChatMessage → List w.Byte → Result DecodeError ChatMessage
  unmarshal m b = decode w field m b
