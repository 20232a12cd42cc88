-- ===== src/Execution/SetStatus.antt =====
-- `SetStatusRequest.MarshalProto` and `UnmarshalProto` of gen/go/execution/v1/execution.go.
use llm_platform.Common.{ℕ, List, [], ◌∷◌, Result, if◌then◌else◌}
use llm_platform.Common.Float.{Float64}
use llm_platform.Wire.{
  Wire, DecodeError, bytes_type, fixed64_type, is_field, concat, put_string, put_float, read_string,
  read_float, skip, decode,
}
use llm_platform.Execution.{SetStatusRequest}

module _ (fl : Float64) where
  abbrev pub empty : SetStatusRequest fl.Num
  empty = record { status = ""; load_factor = fl.of_nat 0 }

module _ {fl : Float64} (w : Wire fl) where
  -- `MarshalProto`
  unfoldable pub marshal : SetStatusRequest fl.Num → List w.Byte
  marshal m = concat w ((put_string w 1 m.status) ∷ (put_float w 2 m.load_factor) ∷ [])

  -- The switch of `UnmarshalProto`.
  unfoldable pub field :
      SetStatusRequest fl.Num
      → ℕ
      → ℕ
      → List w.Byte
      → Result DecodeError (SetStatusRequest fl.Num × List w.Byte)
  field m num typ b =
      if is_field 1 bytes_type num typ
      then read_string w (λ v. record m { status = v }) b
      else if is_field 2 fixed64_type num typ
      then read_float w (λ v. record m { load_factor = v }) b
      else skip w num typ m b

  -- `UnmarshalProto` into the message `m`
  unfoldable pub unmarshal :
      SetStatusRequest fl.Num → List w.Byte → Result DecodeError (SetStatusRequest fl.Num)
  unmarshal m b = decode w field m b
