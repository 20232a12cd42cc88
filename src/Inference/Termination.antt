-- ===== src/Inference/Termination.antt =====
-- The decoders of gen/go/inference/v1/inference.go end on every input.
use llm_platform.Common.{ℕ, List, ◌≢◌, length, err, arith}
use llm_platform.Common.Float.{Float64}
use llm_platform.Wire.{Wire, out_of_fuel}
use llm_platform.Wire.Progress.{IsProgress, decode_loop-ends, progress_rules}
use llm_platform.Inference.{ChatMessage, InferenceResponse, StreamChunk}
use llm_platform.Inference.Chat
use llm_platform.Inference.Request
use llm_platform.Inference.Response
use llm_platform.Inference.Chunk

module _ {fl : Float64} (w : Wire fl) where
  chat-IsProgress :
      (m : ChatMessage) (num typ : ℕ) (b : List w.Byte) → IsProgress b (Chat.field w m num typ b)
  unfolding Chat.field
  chat-IsProgress m num typ b = search (progress_rules) depth 24

  -- Decoding ends on every input: the fuel of the model never runs out.
  pub chat_unmarshal-ends :
      (m : ChatMessage) (b : List w.Byte) → Chat.unmarshal w m b ≢ err out_of_fuel
  unfolding Chat.unmarshal
  chat_unmarshal-ends m b =
      decode_loop-ends w (Chat.field w) chat-IsProgress (length b) m b (omega arith)

  response-IsProgress :
      (m : InferenceResponse fl.Num) (num typ : ℕ) (b : List w.Byte)
      → IsProgress b (Response.field w m num typ b)
  unfolding Response.field
  response-IsProgress m num typ b = search (progress_rules) depth 24

  -- Decoding ends on every input: the fuel of the model never runs out.
  pub response_unmarshal-ends :
      (m : InferenceResponse fl.Num) (b : List w.Byte) → Response.unmarshal w m b ≢ err out_of_fuel
  unfolding Response.unmarshal
  response_unmarshal-ends m b =
      decode_loop-ends w (Response.field w) response-IsProgress (length b) m b (omega arith)

  chunk-IsProgress :
      (m : StreamChunk fl.Num) (num typ : ℕ) (b : List w.Byte)
      → IsProgress b (Chunk.field w m num typ b)
  unfolding Chunk.field
  chunk-IsProgress m num typ b = search (progress_rules) depth 24

  -- Decoding ends on every input: the fuel of the model never runs out.
  pub chunk_unmarshal-ends :
      (m : StreamChunk fl.Num) (b : List w.Byte) → Chunk.unmarshal w m b ≢ err out_of_fuel
  unfolding Chunk.unmarshal
  chunk_unmarshal-ends m b =
      decode_loop-ends w (Chunk.field w) chunk-IsProgress (length b) m b (omega arith)
