-- ===== src/Execution/Request.antt =====
-- `ExecuteRequest.MarshalProto` and `UnmarshalProto` of gen/go/execution/v1/execution.go.
use llm_platform.Common.{ℕ, List, [], ◌∷◌, ◌++◌, Result, if◌then◌else◌}
use llm_platform.Common.Int.{pos}
use llm_platform.Common.Float.{Float64}
use llm_platform.Wire.{
  Wire, DecodeError, bytes_type, varint_type, is_field, concat, put_string, put_int, put_strings,
  put_messages, read_string, read_int32, read_int64, read_message, skip, decode,
}
use llm_platform.Inference.Chat
use llm_platform.Execution.{ExecuteRequest}

abbrev pub empty : ExecuteRequest
empty = record {
  request_id = "";
  model_id = "";
  model_version = "";
  task_type = pos 0;
  prompt = "";
  messages = [];
  documents = [];
  query = "";
  max_tokens = pos 0;
  deadline_ms = pos 0;
}

module _ {fl : Float64} (w : Wire fl) where
  -- `MarshalProto`
  unfoldable pub marshal : ExecuteRequest → List w.Byte
  marshal m = concat w (
      (put_string w 1 m.request_id)
      ∷ (put_string w 2 m.model_id)
      ∷ (put_string w 3 m.model_version)
      ∷ (put_int w 4 m.task_type)
      ∷ (put_string w 5 m.prompt)
      ∷ (put_messages w 6 (Chat.marshal w) m.messages)
      ∷ (put_strings w 7 m.documents)
      ∷ (put_string w 8 m.query)
      ∷ (put_int w 9 m.max_tokens)
      ∷ (put_int w 10 m.deadline_ms)
      ∷ [])

  -- The switch of `UnmarshalProto`.
  unfoldable pub field :
      ExecuteRequest → ℕ → ℕ → List w.Byte → Result DecodeError (ExecuteRequest × List w.Byte)
  field m num typ b =
      if is_field 1 bytes_type num typ
      then read_string w (λ v. record m { request_id = v }) b
      else if is_field 2 bytes_type num typ
      then read_string w (λ v. record m { model_id = v }) b
      else if is_field 3 bytes_type num typ
      then read_string w (λ v. record m { model_version = v }) b
      else if is_field 4 varint_type num typ
      then read_int32 w (λ v. record m { task_type = v }) b
      else if is_field 5 bytes_type num typ
      then read_string w (λ v. record m { prompt = v }) b
      else if is_field 6 bytes_type num typ
      then read_message w (Chat.unmarshal w Chat.empty)
          (λ v. record m { messages = m.messages ++ (v ∷ []) }) b
      else if is_field 7 bytes_type num typ
      then read_string w (λ v. record m { documents = m.documents ++ (v ∷ []) }) b
      else if is_field 8 bytes_type num typ
      then read_string w (λ v. record m { query = v }) b
      else if is_field 9 varint_type num typ
      then read_int32 w (λ v. record m { max_tokens = v }) b
      else if is_field 10 varint_type num typ
      then read_int64 w (λ v. record m { deadline_ms = v }) b
      else skip w num typ m b

  -- `UnmarshalProto` into the message `m`
  unfoldable pub unmarshal : ExecuteRequest → List w.Byte → Result DecodeError ExecuteRequest
  unmarshal m b = decode w field m b
