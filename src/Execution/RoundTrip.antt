-- ===== src/Execution/RoundTrip.antt =====
-- Round trips of the messages of gen/go/execution/v1/execution.go: what `MarshalProto` writes,
-- `UnmarshalProto` reads into the same message.
use llm_platform.Common.{String, Bool, List, [], ◌≡◌, refl, length, ok, arith}
use llm_platform.Common.Int.{ℤ, IsInt64}
use llm_platform.Common.Float.{Float64}
use llm_platform.Wire.{Wire, concat}
use llm_platform.Wire.Fields.{finished, string_piece, strings_piece, messages_piece, packed_piece}
use llm_platform.Wire.Numbers.{
  int32_piece, int64_piece, bool_piece, float_piece, IsInt32, IsZeroExact,
}
use llm_platform.Inference.{ChatMessage}
use llm_platform.Inference.Chat
use llm_platform.Inference.RoundTrip.{chat_round_trip}
use llm_platform.Execution.{
  ExecuteRequest, ExecuteResponse, StreamChunk, HealthResponse, SetStatusRequest, SetStatusResponse,
}
use llm_platform.Execution.Request
use llm_platform.Execution.Response
use llm_platform.Execution.Chunk
use llm_platform.Execution.Health
use llm_platform.Execution.SetStatus
use llm_platform.Execution.StatusReply

-- The integers fit their Go types.
pub record IsWireExecuteRequest (m : ExecuteRequest) : Type 0 where
  pub task_type : IsInt32 m.task_type
  pub max_tokens : IsInt32 m.max_tokens
  pub deadline_ms : IsInt64 m.deadline_ms

-- The integers fit their Go types.
pub record IsWireExecuteChunk (m : StreamChunk) : Type 0 where
  pub tokens_out : IsInt32 m.tokens_out

module _ (fl : Float64) where
  -- The integers fit their Go types, and a double that equals 0 is 0, not -0.
  pub record IsWireExecuteResponse (m : ExecuteResponse fl.Num) : Type 0 where
    pub tokens_input : IsInt32 m.tokens_input
    pub tokens_output : IsInt32 m.tokens_output
    pub latency_ms : IsZeroExact fl m.latency_ms

  -- The integers fit their Go types, and a double that equals 0 is 0, not -0.
  pub record IsWireHealth (m : HealthResponse fl.Num) : Type 0 where
    pub load_factor : IsZeroExact fl m.load_factor
    pub requests_served : IsInt64 m.requests_served
    pub tokens_per_second : IsZeroExact fl m.tokens_per_second
    pub avg_latency_ms : IsZeroExact fl m.avg_latency_ms

  -- The integers fit their Go types, and a double that equals 0 is 0, not -0.
  pub record IsWireSetStatus (m : SetStatusRequest fl.Num) : Type 0 where
    pub load_factor : IsZeroExact fl m.load_factor

module _ {fl : Float64} (w : Wire fl) where
  -- A request for the executor whose integers fit their Go types is read back as it was.
  pub execute_request_round_trip :
      (m : ExecuteRequest)
      → IsWireExecuteRequest m
      → Request.unmarshal w Request.empty (Request.marshal w m) ≡ ok m
  unfolding Request.marshal Request.field Request.unmarshal concat
  execute_request_round_trip m h =
      let e0 = Request.empty in
      let s1 = record e0 { request_id = m.request_id } in
      let s2 = record s1 { model_id = m.model_id } in
      let s3 = record s2 { model_version = m.model_version } in
      let s4 = record s3 { task_type = m.task_type } in
      let s5 = record s4 { prompt = m.prompt } in
      let s6 = record s5 { messages = m.messages } in
      let s7 = record s6 { documents = m.documents } in
      let s8 = record s7 { query = m.query } in
      let s9 = record s8 { max_tokens = m.max_tokens } in
      let decodes =
        string_piece w (Request.field w) 1 refl (λ (v : String). record e0 { request_id = v })
          m.request_id (λ _. refl)
          (string_piece w (Request.field w) 2 refl (λ (v : String). record s1 { model_id = v })
            m.model_id (λ _. refl)
            (string_piece w (Request.field w) 3 refl
              (λ (v : String). record s2 { model_version = v }) m.model_version (λ _. refl)
              (int32_piece w (Request.field w) 4 refl (λ (v : ℤ). record s3 { task_type = v })
                m.task_type h.task_type (λ _. refl)
                (string_piece w (Request.field w) 5 refl (λ (v : String). record s4 { prompt = v })
                  m.prompt (λ _. refl)
                  (messages_piece w (Request.field w) 6 refl (Chat.marshal w)
                    (Chat.unmarshal w Chat.empty)
                    (λ (v : List ChatMessage). record s5 { messages = v }) [] m.messages
                    (chat_round_trip w) (λ _ _. refl)
                    (strings_piece w (Request.field w) 7 refl
                      (λ (v : List String). record s6 { documents = v }) [] m.documents
                      (λ _ _. refl)
                      (string_piece w (Request.field w) 8 refl
                        (λ (v : String). record s7 { query = v }) m.query (λ _. refl)
                        (int32_piece w (Request.field w) 9 refl
                          (λ (v : ℤ). record s8 { max_tokens = v }) m.max_tokens h.max_tokens
                          (λ _. refl)
                          (int64_piece w (Request.field w) 10 refl
                            (λ (v : ℤ). record s9 { deadline_ms = v }) m.deadline_ms h.deadline_ms
                            (λ _. refl) (finished w (Request.field w) m)))))))))) in
      decodes.run (length (Request.marshal w m)) (omega arith)

  -- A response of the executor whose integers fit int32 and whose latency is not -0 is read back as
  -- it was, the packed embedding and scores included.
  pub execute_response_round_trip :
      (m : ExecuteResponse fl.Num)
      → IsWireExecuteResponse fl m
      → Response.unmarshal w (Response.empty fl) (Response.marshal w m) ≡ ok m
  unfolding Response.marshal Response.field Response.unmarshal concat
  execute_response_round_trip m h =
      let e0 = (Response.empty fl) in
      let s1 = record e0 { request_id = m.request_id } in
      let s2 = record s1 { model_id = m.model_id } in
      let s3 = record s2 { content = m.content } in
      let s4 = record s3 { embedding = m.embedding } in
      let s5 = record s4 { scores = m.scores } in
      let s6 = record s5 { tokens_input = m.tokens_input } in
      let s7 = record s6 { tokens_output = m.tokens_output } in
      let decodes =
        string_piece w (Response.field w) 1 refl (λ (v : String). record e0 { request_id = v })
          m.request_id (λ _. refl)
          (string_piece w (Response.field w) 2 refl (λ (v : String). record s1 { model_id = v })
            m.model_id (λ _. refl)
            (string_piece w (Response.field w) 3 refl (λ (v : String). record s2 { content = v })
              m.content (λ _. refl)
              (packed_piece w (Response.field w) 4 refl
                (λ (v : List fl.Num). record s3 { embedding = v }) m.embedding (λ _. refl)
                (packed_piece w (Response.field w) 5 refl
                  (λ (v : List fl.Num). record s4 { scores = v }) m.scores (λ _. refl)
                  (int32_piece w (Response.field w) 6 refl
                    (λ (v : ℤ). record s5 { tokens_input = v }) m.tokens_input h.tokens_input
                    (λ _. refl)
                    (int32_piece w (Response.field w) 7 refl
                      (λ (v : ℤ). record s6 { tokens_output = v }) m.tokens_output h.tokens_output
                      (λ _. refl)
                      (float_piece w (Response.field w) 8 refl
                        (λ (v : fl.Num). record s7 { latency_ms = v }) m.latency_ms h.latency_ms
                        (λ _. refl) (finished w (Response.field w) m)))))))) in
      decodes.run (length (Response.marshal w m)) (omega arith)

  -- A chunk of the executor whose integer fits int32 is read back as it was.
  pub execute_chunk_round_trip :
      (m : StreamChunk)
      → IsWireExecuteChunk m
      → Chunk.unmarshal w Chunk.empty (Chunk.marshal w m) ≡ ok m
  unfolding Chunk.marshal Chunk.field Chunk.unmarshal concat
  execute_chunk_round_trip m h =
      let e0 = Chunk.empty in
      let s1 = record e0 { request_id = m.request_id } in
      let s2 = record s1 { token = m.token } in
      let s3 = record s2 { done = m.done } in
      let decodes =
        string_piece w (Chunk.field w) 1 refl (λ (v : String). record e0 { request_id = v })
          m.request_id (λ _. refl)
          (string_piece w (Chunk.field w) 2 refl (λ (v : String). record s1 { token = v }) m.token
            (λ _. refl)
            (bool_piece w (Chunk.field w) 3 refl (λ (v : Bool). record s2 { done = v }) m.done
              (λ _. refl)
              (int32_piece w (Chunk.field w) 4 refl (λ (v : ℤ). record s3 { tokens_out = v })
                m.tokens_out h.tokens_out (λ _. refl) (finished w (Chunk.field w) m)))) in
      decodes.run (length (Chunk.marshal w m)) (omega arith)

  -- A health report whose integer fits int64 and whose doubles are not -0 is read back as it was.
  pub health_round_trip :
      (m : HealthResponse fl.Num)
      → IsWireHealth fl m
      → Health.unmarshal w (Health.empty fl) (Health.marshal w m) ≡ ok m
  unfolding Health.marshal Health.field Health.unmarshal concat
  health_round_trip m h =
      let e0 = (Health.empty fl) in
      let s1 = record e0 { executor_id = m.executor_id } in
      let s2 = record s1 { status = m.status } in
      let s3 = record s2 { model_ids = m.model_ids } in
      let s4 = record s3 { load_factor = m.load_factor } in
      let s5 = record s4 { requests_served = m.requests_served } in
      let s6 = record s5 { tokens_per_second = m.tokens_per_second } in
      let decodes =
        string_piece w (Health.field w) 1 refl (λ (v : String). record e0 { executor_id = v })
          m.executor_id (λ _. refl)
          (string_piece w (Health.field w) 2 refl (λ (v : String). record s1 { status = v })
            m.status (λ _. refl)
            (strings_piece w (Health.field w) 3 refl
              (λ (v : List String). record s2 { model_ids = v }) [] m.model_ids (λ _ _. refl)
              (float_piece w (Health.field w) 4 refl (λ (v : fl.Num). record s3 { load_factor = v })
                m.load_factor h.load_factor (λ _. refl)
                (int64_piece w (Health.field w) 5 refl
                  (λ (v : ℤ). record s4 { requests_served = v }) m.requests_served h.requests_served
                  (λ _. refl)
                  (float_piece w (Health.field w) 6 refl
                    (λ (v : fl.Num). record s5 { tokens_per_second = v }) m.tokens_per_second
                    h.tokens_per_second (λ _. refl)
                    (float_piece w (Health.field w) 7 refl
                      (λ (v : fl.Num). record s6 { avg_latency_ms = v }) m.avg_latency_ms
                      h.avg_latency_ms (λ _. refl) (finished w (Health.field w) m))))))) in
      decodes.run (length (Health.marshal w m)) (omega arith)

  -- A status to set whose load is not -0 is read back as it was.
  pub set_status_round_trip :
      (m : SetStatusRequest fl.Num)
      → IsWireSetStatus fl m
      → SetStatus.unmarshal w (SetStatus.empty fl) (SetStatus.marshal w m) ≡ ok m
  unfolding SetStatus.marshal SetStatus.field SetStatus.unmarshal concat
  set_status_round_trip m h =
      let e0 = (SetStatus.empty fl) in
      let s1 = record e0 { status = m.status } in
      let decodes =
        string_piece w (SetStatus.field w) 1 refl (λ (v : String). record e0 { status = v })
          m.status (λ _. refl)
          (float_piece w (SetStatus.field w) 2 refl (λ (v : fl.Num). record s1 { load_factor = v })
            m.load_factor h.load_factor (λ _. refl) (finished w (SetStatus.field w) m)) in
      decodes.run (length (SetStatus.marshal w m)) (omega arith)

  -- The reply to it is read back as it was.
  pub status_reply_round_trip :
      (m : SetStatusResponse)
      → StatusReply.unmarshal w StatusReply.empty (StatusReply.marshal w m) ≡ ok m
  unfolding StatusReply.marshal StatusReply.field StatusReply.unmarshal concat
  status_reply_round_trip m =
      let e0 = StatusReply.empty in
      let decodes =
        string_piece w (StatusReply.field w) 1 refl (λ (v : String). record e0 { status = v })
          m.status (λ _. refl) (finished w (StatusReply.field w) m) in
      decodes.run (length (StatusReply.marshal w m)) (omega arith)
