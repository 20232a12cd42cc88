-- ===== src/Gateway/Server/Guards.antt =====
-- What stands between a client and the router in services/api-gateway/cmd/main.go, and what a stream
-- sends.
use llm_platform.Common.{◌≡◌, String, Option, none, some, List, [], ◌∷◌, ok}
use llm_platform.Common.Float.{Float64}
use llm_platform.Inference.{InferenceRequest, InferenceResponse, StreamChunk}
use llm_platform.Gateway.Admission.{admit}
use llm_platform.Gateway.Auth.{Principal, validate}
use llm_platform.Gateway.Server.{
  Gateway, Incoming, HttpRequest, World, grpc_request, extract_key, stream_chunk, is_last,
}

module _ (fl : Float64) where
  -- What stands behind a request that the router is asked with: a key that the store accepts, a body that
  -- could be read, and the admission of the request made of these, for the tenant of the key.
  pub record IsGuarded (w : World fl) (g : Gateway) (r : Incoming) (req : InferenceRequest)
      : Type 0 where
    pub principal : Principal
    pub body : HttpRequest
    pub authenticated :
        (validate g.auth_store (extract_key r) w.auth_at w.cached_at w.row).1 ≡ ok principal
    pub readable : r.body ≡ some body
    pub admitted :
        admit g.admitter (grpc_request w.request_id w.start r body principal) w.admitted_at ≡ ok req

  -- Whatever is asked has the property.
  abbrev IsAsked : (InferenceRequest → Type 0) → Option InferenceRequest → Type 0
  IsAsked P none = Unit
  IsAsked P (some req) = P req

  -- The chunks of the words, the last one marked.
  pub sent_chunks :
      World fl
      → InferenceRequest
      → InferenceResponse fl.Num
      → List String
      → List (StreamChunk fl.Num)
  sent_chunks w req resp [] = []
  sent_chunks w req resp (word ∷ words) =
      stream_chunk fl w req resp word (is_last words) ∷ sent_chunks w req resp words
