-- ===== src/Inference/RoundTrip.antt =====
-- Round trips of the messages of gen/go/inference/v1/inference.go: what `MarshalProto` writes,
-- `UnmarshalProto` reads into the same message. `InferenceRequest` has its own module.
use llm_platform.Common.{String, Bool, List, ◌≡◌, refl, length, ok, arith}
use llm_platform.Common.Int.{ℤ}
use llm_platform.Common.Float.{Float64}
use llm_platform.Wire.{Wire, concat}
use llm_platform.Wire.Fields.{finished, string_piece, packed_piece}
use llm_platform.Wire.Numbers.{int32_piece, bool_piece, float_piece, IsInt32, IsZeroExact}
use llm_platform.Inference.{ChatMessage, InferenceResponse, StreamChunk}
use llm_platform.Inference.Chat
use llm_platform.Inference.Response
use llm_platform.Inference.Chunk

module _ (fl : Float64) where
  -- The integers fit their Go types, and a double that equals 0 is 0, not -0.
  pub record IsWireResponse (m : InferenceResponse fl.Num) : Type 0 where
    pub task_type : IsInt32 m.task_type
    pub model_tier : IsInt32 m.model_tier
    pub tokens_input : IsInt32 m.tokens_input
    pub tokens_output : IsInt32 m.tokens_output
    pub latency_ms : IsZeroExact fl m.latency_ms
    pub queue_wait_ms : IsZeroExact fl m.queue_wait_ms
    pub cost_usd : IsZeroExact fl m.cost_usd

  -- The integers fit their Go types, and a double that equals 0 is 0, not -0.
  pub record IsWireChunk (m : StreamChunk fl.Num) : Type 0 where
    pub tokens_out : IsInt32 m.tokens_out
    pub latency_ms : IsZeroExact fl m.latency_ms

module _ {fl : Float64} (w : Wire fl) where
  -- A chat message is read back as it was.
  pub chat_round_trip : (m : ChatMessage) → Chat.unmarshal w Chat.empty (Chat.marshal w m) ≡ ok m
  unfolding Chat.marshal Chat.field Chat.unmarshal concat
  chat_round_trip m =
      let e0 = Chat.empty in
      let s1 = record e0 { role = m.role } in
      let decodes =
        string_piece w (Chat.field w) 1 refl (λ (v : String). record e0 { role = v }) m.role
          (λ _. refl)
          (string_piece w (Chat.field w) 2 refl (λ (v : String). record s1 { content = v })
            m.content (λ _. refl) (finished w (Chat.field w) m)) in
      decodes.run (length (Chat.marshal w m)) (omega arith)

  -- A response whose integers fit int32 and whose three doubles are not -0 is read back as it was,
  -- the packed embedding and scores included.
  pub response_round_trip :
      (m : InferenceResponse fl.Num)
      → IsWireResponse fl m
      → Response.unmarshal w (Response.empty fl) (Response.marshal w m) ≡ ok m
  unfolding Response.marshal Response.field Response.unmarshal concat
  response_round_trip m h =
      let e0 = (Response.empty fl) in
      let s1 = record e0 { request_id = m.request_id } in
      let s2 = record s1 { trace_id = m.trace_id } in
      let s3 = record s2 { task_type = m.task_type } in
      let s4 = record s3 { model_id = m.model_id } in
      let s5 = record s4 { model_version = m.model_version } in
      let s6 = record s5 { model_tier = m.model_tier } in
      let s7 = record s6 { content = m.content } in
      let s8 = record s7 { embedding = m.embedding } in
      let s9 = record s8 { scores = m.scores } in
      let s10 = record s9 { tokens_input = m.tokens_input } in
      let s11 = record s10 { tokens_output = m.tokens_output } in
      let s12 = record s11 { latency_ms = m.latency_ms } in
      let s13 = record s12 { queue_wait_ms = m.queue_wait_ms } in
      let s14 = record s13 { cached = m.cached } in
      let s15 = record s14 { fallback_used = m.fallback_used } in
      let s16 = record s15 { is_canary = m.is_canary } in
      let s17 = record s16 { cost_usd = m.cost_usd } in
      let decodes =
        string_piece w (Response.field w) 1 refl (λ (v : String). record e0 { request_id = v })
          m.request_id (λ _. refl)
          (string_piece w (Response.field w) 2 refl (λ (v : String). record s1 { trace_id = v })
            m.trace_id (λ _. refl)
            (int32_piece w (Response.field w) 3 refl (λ (v : ℤ). record s2 { task_type = v })
              m.task_type h.task_type (λ _. refl)
              (string_piece w (Response.field w) 4 refl (λ (v : String). record s3 { model_id = v })
                m.model_id (λ _. refl)
                (string_piece w (Response.field w) 5 refl
                  (λ (v : String). record s4 { model_version = v }) m.model_version (λ _. refl)
                  (int32_piece w (Response.field w) 6 refl (λ (v : ℤ). record s5 { model_tier = v })
                    m.model_tier h.model_tier (λ _. refl)
                    (string_piece w (Response.field w) 7 refl
                      (λ (v : String). record s6 { content = v }) m.content (λ _. refl)
                      (packed_piece w (Response.field w) 8 refl
                        (λ (v : List fl.Num). record s7 { embedding = v }) m.embedding (λ _. refl)
                        (packed_piece w (Response.field w) 9 refl
                          (λ (v : List fl.Num). record s8 { scores = v }) m.scores (λ _. refl)
                          (int32_piece w (Response.field w) 10 refl
                            (λ (v : ℤ). record s9 { tokens_input = v }) m.tokens_input
                            h.tokens_input (λ _. refl)
                            (int32_piece w (Response.field w) 11 refl
                              (λ (v : ℤ). record s10 { tokens_output = v }) m.tokens_output
                              h.tokens_output (λ _. refl)
                              (float_piece w (Response.field w) 12 refl
                                (λ (v : fl.Num). record s11 { latency_ms = v }) m.latency_ms
                                h.latency_ms (λ _. refl)
                                (float_piece w (Response.field w) 13 refl
                                  (λ (v : fl.Num). record s12 { queue_wait_ms = v }) m.queue_wait_ms
                                  h.queue_wait_ms (λ _. refl)
                                  (bool_piece w (Response.field w) 14 refl
                                    (λ (v : Bool). record s13 { cached = v }) m.cached (λ _. refl)
                                    (bool_piece w (Response.field w) 15 refl
                                      (λ (v : Bool). record s14 { fallback_used = v })
                                      m.fallback_used (λ _. refl)
                                      (bool_piece w (Response.field w) 16 refl
                                        (λ (v : Bool). record s15 { is_canary = v }) m.is_canary
                                        (λ _. refl)
                                        (float_piece w (Response.field w) 17 refl
                                          (λ (v : fl.Num). record s16 { cost_usd = v }) m.cost_usd
                                          h.cost_usd (λ _. refl)
                                          (string_piece w (Response.field w) 18 refl
                                            (λ (v : String). record s17 { executor_id = v })
                                            m.executor_id (λ _. refl)
                                            (finished w (Response.field w) m)))))))))))))))))) in
      decodes.run (length (Response.marshal w m)) (omega arith)

  -- A stream chunk whose integer fits int32 and whose double is not -0 is read back as it was.
  pub chunk_round_trip :
      (m : StreamChunk fl.Num)
      → IsWireChunk fl m
      → Chunk.unmarshal w (Chunk.empty fl) (Chunk.marshal w m) ≡ ok m
  unfolding Chunk.marshal Chunk.field Chunk.unmarshal concat
  chunk_round_trip m h =
      let e0 = (Chunk.empty fl) in
      let s1 = record e0 { request_id = m.request_id } in
      let s2 = record s1 { trace_id = m.trace_id } in
      let s3 = record s2 { token = m.token } in
      let s4 = record s3 { done = m.done } in
      let s5 = record s4 { tokens_out = m.tokens_out } in
      let decodes =
        string_piece w (Chunk.field w) 1 refl (λ (v : String). record e0 { request_id = v })
          m.request_id (λ _. refl)
          (string_piece w (Chunk.field w) 2 refl (λ (v : String). record s1 { trace_id = v })
            m.trace_id (λ _. refl)
            (string_piece w (Chunk.field w) 3 refl (λ (v : String). record s2 { token = v }) m.token
              (λ _. refl)
              (bool_piece w (Chunk.field w) 4 refl (λ (v : Bool). record s3 { done = v }) m.done
                (λ _. refl)
                (int32_piece w (Chunk.field w) 5 refl (λ (v : ℤ). record s4 { tokens_out = v })
                  m.tokens_out h.tokens_out (λ _. refl)
                  (float_piece w (Chunk.field w) 6 refl
                    (λ (v : fl.Num). record s5 { latency_ms = v }) m.latency_ms h.latency_ms
                    (λ _. refl) (finished w (Chunk.field w) m)))))) in
      decodes.run (length (Chunk.marshal w m)) (omega arith)
