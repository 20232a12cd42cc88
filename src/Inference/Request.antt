-- ===== src/Inference/Request.antt =====
-- `InferenceRequest.MarshalProto`, `UnmarshalProto` and `unmarshalStringPair` of
-- gen/go/inference/v1/inference.go.
use llm_platform.Common.{
  ℕ, zero, suc, Option, none, some, length, eqb, String, false, List, [], ◌∷◌, ◌++◌, Result, ok,
  err, if◌then◌else◌, ◌>>=◌,
}
use llm_platform.Common.Int.{pos}
use llm_platform.Common.Dict.{Dict, put}
use llm_platform.Common.Float.{Float64}
use llm_platform.Wire.{
  Wire, DecodeError, bytes_type, varint_type, is_field, concat, put_string, put_int, put_bool,
  put_strings, put_messages, read, read_string, read_bytes, read_int32, read_int64, read_bool,
  read_message, skip, decode,
}
use llm_platform.Inference.Chat
use llm_platform.Inference.{InferenceRequest}

abbrev pub empty : InferenceRequest
empty = record {
  request_id = "";
  idempotency_key = "";
  task_type = pos 0;
  prompt = "";
  messages = [];
  documents = [];
  query = "";
  max_tokens = pos 0;
  stream = false;
  priority = pos 0;
  cost_budget = "";
  latency_target_ms = pos 0;
  tenant_id = "";
  api_key_id = "";
  metadata = none;
  deadline_unix_ms = pos 0;
  received_at_ms = pos 0;
}

-- `if m.Metadata == nil { m.Metadata = make(map[string]string) }`
abbrev pub made : Option (Dict String) → Dict String
made none = []
made (some d) = d

-- `m.Metadata[k] = v`
abbrev pub set_metadata : Option (Dict String) → String × String → Option (Dict String)
set_metadata o (k, v) = some (put (made o) k v)

module _ {fl : Float64} (w : Wire fl) where
  -- The entry of a map: `AppendTag(nil, 1, BytesType)`, the key, `AppendTag(entry, 2, BytesType)`, the
  -- value.
  unfoldable pub pair_entry : String → String → List w.Byte
  pair_entry k v =
      (w.append_tag 1 bytes_type ++ w.append_string k)
      ++ ((w.append_tag 2 bytes_type ++ w.append_string v) ++ [])

  -- `for k, v := range m.Metadata { entry := …; b = AppendTag(…); b = AppendBytes(b, entry) }`
  unfoldable pub put_pairs : ℕ → Option (Dict String) → List w.Byte
  put_pairs num none = []
  put_pairs num (some d) = put_messages w num (λ (k, v). pair_entry k v) d

  -- One round of `unmarshalStringPair`, which reads every field of a bytes type as a string.
  unfoldable pub pair_field :
      String × String → ℕ → ℕ → List w.Byte → Result DecodeError ((String × String) × List w.Byte)
  pair_field (k, v) num typ b =
      if eqb typ bytes_type
      then read_string w (λ s. if eqb num 1 then (s, v) else if eqb num 2 then (k, s) else (k, v)) b
      else skip w num typ (k, v) b

  -- the named results, also after an error
  abbrev pub result_or : String × String → Result DecodeError (String × String) → String × String
  result_or kv (ok r) = r
  result_or kv (err e) = kv

  unfoldable pub pair_loop : ℕ → String × String → List w.Byte → String × String
  pair_loop fuel kv [] = kv
  pair_loop zero kv (x ∷ b) = kv
  pair_loop (suc fuel) kv (x ∷ b) = result_or kv (
      read w (λ tag. tag) (x ∷ b) (w.consume_tag (x ∷ b)) >>= λ ((num, typ), b').
      pair_field kv num typ b' >>= λ (kv', rest). ok (pair_loop fuel kv' rest))

  -- `unmarshalStringPair`
  unfoldable pub unmarshal_string_pair : List w.Byte → String × String
  unmarshal_string_pair b = pair_loop (length b) ("", "") b

  -- `MarshalProto`
  unfoldable pub marshal : InferenceRequest → List w.Byte
  marshal m = concat w (
      (put_string w 1 m.request_id)
      ∷ (put_string w 2 m.idempotency_key)
      ∷ (put_int w 3 m.task_type)
      ∷ (put_string w 4 m.prompt)
      ∷ (put_messages w 5 (Chat.marshal w) m.messages)
      ∷ (put_strings w 6 m.documents)
      ∷ (put_string w 7 m.query)
      ∷ (put_int w 8 m.max_tokens)
      ∷ (put_bool w 9 m.stream)
      ∷ (put_int w 10 m.priority)
      ∷ (put_string w 11 m.cost_budget)
      ∷ (put_int w 12 m.latency_target_ms)
      ∷ (put_string w 13 m.tenant_id)
      ∷ (put_string w 14 m.api_key_id)
      ∷ (put_pairs 15 m.metadata)
      ∷ (put_int w 16 m.deadline_unix_ms)
      ∷ (put_int w 17 m.received_at_ms)
      ∷ [])

  -- The switch of `UnmarshalProto`.
  unfoldable pub field :
      InferenceRequest → ℕ → ℕ → List w.Byte → Result DecodeError (InferenceRequest × List w.Byte)
  field m num typ b =
      if is_field 1 bytes_type num typ
      then read_string w (λ v. record m { request_id = v }) b
      else if is_field 2 bytes_type num typ
      then read_string w (λ v. record m { idempotency_key = v }) b
      else if is_field 3 varint_type num typ
      then read_int32 w (λ v. record m { task_type = v }) b
      else if is_field 4 bytes_type num typ
      then read_string w (λ v. record m { prompt = v }) b
      else if is_field 5 bytes_type num typ
      then read_message w (Chat.unmarshal w Chat.empty)
          (λ v. record m { messages = m.messages ++ (v ∷ []) }) b
      else if is_field 6 bytes_type num typ
      then read_string w (λ v. record m { documents = m.documents ++ (v ∷ []) }) b
      else if is_field 7 bytes_type num typ
      then read_string w (λ v. record m { query = v }) b
      else if is_field 8 varint_type num typ
      then read_int32 w (λ v. record m { max_tokens = v }) b
      else if is_field 9 varint_type num typ
      then read_bool w (λ v. record m { stream = v }) b
      else if is_field 10 varint_type num typ
      then read_int32 w (λ v. record m { priority = v }) b
      else if is_field 11 bytes_type num typ
      then read_string w (λ v. record m { cost_budget = v }) b
      else if is_field 12 varint_type num typ
      then read_int32 w (λ v. record m { latency_target_ms = v }) b
      else if is_field 13 bytes_type num typ
      then read_string w (λ v. record m { tenant_id = v }) b
      else if is_field 14 bytes_type num typ
      then read_string w (λ v. record m { api_key_id = v }) b
      else if is_field 15 bytes_type num typ
      then read_bytes w
          (λ raw. record m { metadata = set_metadata m.metadata (unmarshal_string_pair raw) }) b
      else if is_field 16 varint_type num typ
      then read_int64 w (λ v. record m { deadline_unix_ms = v }) b
      else if is_field 17 varint_type num typ
      then read_int64 w (λ v. record m { received_at_ms = v }) b
      else skip w num typ m b

  -- `UnmarshalProto` into the message `m`
  unfoldable pub unmarshal : InferenceRequest → List w.Byte → Result DecodeError InferenceRequest
  unmarshal m b = decode w field (record m { metadata = some (made m.metadata) }) b
