-- ===== src/Gateway/Server.antt =====
-- services/api-gateway/cmd/main.go: `Gateway` and its handlers. A request that has come in is a record of
-- what the handlers read of it; its body is what `json.Decode` makes of it. `World` is the rest: the
-- database's answer, the clock, the router. A reply is its status and body; the request that the
-- router was asked with is kept beside it. Times are nanoseconds since 1970.
pub mod Accounts
pub mod Guards
mod Examples
use Prim.Native.String.{len, slice}
use text.Mathlib.Text.{starts_with}
use llm_platform.Common.{
  ℕ, ◌+◌, ◌-◌, ◌*◌, ◌/◌, String, Bool, true, false, ◌&&◌, Option, none, some, List, [], ◌∷◌, eqb,
  leb, length, if◌then◌else◌, Result, ok, err, ◌==◌, add64, join,
}
use llm_platform.Common.Int.{ℤ, pos}
use llm_platform.Common.Dict.{Dict}
use llm_platform.Common.Float.{Float64}
use llm_platform.Inference.{
  InferenceRequest, InferenceResponse, StreamChunk, ChatMessage, TaskType, task_chat,
  task_summarize, task_embed, task_rerank, task_classify, task_moderate, task_unspecified,
}
use llm_platform.Gateway.Admission.{Config, AdmissionError, admit, unix_milli}
use llm_platform.Gateway.Auth.{Store, Principal, Row, AuthError, validate}

-- `gatewayMetrics`
pub record GatewayMetrics : Type 0 where
  pub total : ℕ
  pub auth_failed : ℕ
  pub admitted : ℕ
  pub admit_failed : ℕ
  pub rate_limited : ℕ
  pub routed : ℕ
  pub streamed : ℕ
  pub errors : ℕ

pub record Gateway : Type 0 where
  pub auth_store : Store
  pub admitter : Config
  pub m : GatewayMetrics

-- `httpRequest`
pub record HttpRequest : Type 0 where
  pub prompt : String
  pub messages : List ChatMessage
  pub documents : List String
  pub query : String
  pub max_tokens : ℤ
  pub stream : Bool
  pub priority : ℤ
  pub cost_budget : String
  pub latency_target_ms : ℤ
  pub metadata : Option (Dict String)

-- The method, the path, the headers that are read, the body, and whether the transport can flush.
pub record Incoming : Type 0 where
  pub method : String
  pub path : String
  pub authorization : String
  pub x_api_key : String
  pub idempotency_key : String
  pub body : Option HttpRequest
  pub flusher : Bool

-- `strings.HasSuffix`
unfoldable pub has_suffix : String → String → Bool
has_suffix s suffix = leb (len suffix) (len s) && (slice s (len s - len suffix) (len s) == suffix)

-- `taskFromPath`
unfoldable pub task_from_path : String → TaskType
task_from_path path =
    if has_suffix path "/chat"
    then task_chat
    else if has_suffix path "/summarize"
    then task_summarize
    else if has_suffix path "/embed"
    then task_embed
    else if has_suffix path "/rerank"
    then task_rerank
    else if has_suffix path "/classify"
    then task_classify
    else if has_suffix path "/moderate"
    then task_moderate
    else task_unspecified

-- `extractKey`
unfoldable pub extract_key : Incoming → String
extract_key r =
    if starts_with r.authorization "Bearer "
    then slice r.authorization (len "Bearer ") (len r.authorization)
    else r.x_api_key

-- The request that the handler makes.
unfoldable pub grpc_request : String → ℕ → Incoming → HttpRequest → Principal → InferenceRequest
grpc_request req_id start r hr principal = record {
  request_id = req_id;
  idempotency_key = r.idempotency_key;
  task_type = task_from_path r.path;
  prompt = hr.prompt;
  messages = hr.messages;
  documents = hr.documents;
  query = hr.query;
  max_tokens = hr.max_tokens;
  stream = hr.stream;
  priority = hr.priority;
  cost_budget = hr.cost_budget;
  latency_target_ms = hr.latency_target_ms;
  tenant_id = principal.tenant_id;
  api_key_id = principal.key_id;
  metadata = hr.metadata;
  deadline_unix_ms = pos 0;
  received_at_ms = pos (unix_milli start);
}

-- The codes that the handler tells apart, and the message.
pub data Code : Type 0 where
  resource_exhausted unavailable other_code : Code

pub record Status : Type 0 where
  pub code : Code
  pub message : String

-- Until when the router may take: a time in milliseconds, or a number of nanoseconds from now.
pub data Deadline : Type 0 where
  at_unix_ms : ℤ → Deadline
  within : ℕ → Deadline

abbrev pub is_last : List String → Bool
is_last [] = true
is_last (word ∷ words) = false

-- `if len(words) == 0 { words = []string{""} }`
abbrev pub at_least_one : List String → List String
at_least_one [] = "" ∷ []
at_least_one (word ∷ words) = word ∷ words

module _ (fl : Float64) where
  open fl use {Num, of_nat, of_int}

  pub record World : Type 0 where
    pub row : Row
    pub start : ℕ
    pub auth_at : ℕ
    pub cached_at : ℕ
    pub admitted_at : ℕ
    pub request_id : String
    pub route : Deadline → InferenceRequest → Result Status (InferenceResponse Num)
    -- `strings.Fields`
    pub fields : String → List String
    -- whether the client has gone before the i-th chunk
    pub gone : ℕ → Bool
    pub last_chunk_at : ℕ

  pub data Body : Type 0 where
    message : String → Body
    not_admitted : AdmissionError → Body
    response : InferenceResponse Num → Body
    -- the events of a stream, or its one error
    chunks : List (StreamChunk Num) → Body
    stream_error : Status → String → Body

  pub record Reply : Type 0 where
    pub status : ℕ
    pub body : Body

  -- The gateway, the reply, and what the router was asked.
  pub record Handled : Type 0 where
    pub gateway : Gateway
    pub reply : Reply
    pub asked : Option InferenceRequest

  abbrev pub json_error : Gateway → ℕ → String → Option InferenceRequest → Handled
  json_error g code msg asked = record {
    gateway = g;
    reply = record { status = code; body = message msg };
    asked = asked;
  }

  unfoldable pub stream_chunk :
      World → InferenceRequest → InferenceResponse Num → String → Bool → StreamChunk Num
  stream_chunk w req resp word done = record {
    request_id = req.request_id;
    trace_id = resp.trace_id;
    token = join word " ";
    done = done;
    tokens_out = if done then resp.tokens_output else pos 0;
    latency_ms = if done then of_int (pos ((w.last_chunk_at - w.start) / 1_000_000)) else of_nat 0;
  }

  -- The loop over the words from the i-th on: the chunks sent, and whether it came to its end.
  unfoldable pub sse_loop :
      World
      → InferenceRequest
      → InferenceResponse Num
      → ℕ
      → List String
      → List (StreamChunk Num) × Bool
  sse_loop w req resp i [] = ([], true)
  sse_loop w req resp i (word ∷ words) =
      let (rest, finished) = sse_loop w req resp (i + 1) words in
      if w.gone i
      then ([], false)
      else (stream_chunk w req resp word (is_last words) ∷ rest, finished)

  -- What follows the router's answer in `handleSSE`.
  unfoldable pub sse_answer :
      World → Gateway → InferenceRequest → Result Status (InferenceResponse Num) → Handled
  sse_answer w g req (err st) = record {
    gateway = g;
    reply = record { status = 200; body = stream_error st req.request_id };
    asked = some req;
  }
  sse_answer w g req (ok resp) =
      let (sent, finished) = sse_loop w req resp 0 (at_least_one (w.fields resp.content)) in
      record {
        gateway = record g {
          m = record g.m { streamed = if finished then add64 g.m.streamed 1 else g.m.streamed };
        };
        reply = record { status = 200; body = chunks sent };
        asked = some req;
      }

  -- `handleSSE`
  unfoldable pub handle_sse : World → Gateway → Incoming → InferenceRequest → Handled
  unfolding sse_answer
  handle_sse w g r req =
      if r.flusher
      then sse_answer w g req (w.route (within (30 * 1_000_000_000)) req)
      else json_error g 500 "streaming not supported by this transport" none

  -- `switch st.Code().String()`
  unfoldable pub unary_error : Status → Reply
  unary_error st = elim st.code [
    | resource_exhausted ↦ record { status = 429; body = message st.message }
    | unavailable ↦ record { status = 503; body = message "model service unavailable" }
    | other_code ↦ record { status = 500; body = message "inference failed" }
  ]

  -- What follows the router's answer to a request that does not stream.
  unfoldable pub unary_answer :
      Gateway → InferenceRequest → Result Status (InferenceResponse Num) → Handled
  unary_answer g req (err st) = record {
    gateway = record g { m = record g.m { errors = add64 g.m.errors 1 } };
    reply = unary_error st;
    asked = some req;
  }
  unary_answer g req (ok resp) = record {
    gateway = record g { m = record g.m { routed = add64 g.m.routed 1 } };
    reply = record { status = 200; body = response resp };
    asked = some req;
  }

  -- From the answer of the admission on.
  unfoldable pub admitted_or_not :
      World → Gateway → Incoming → Result AdmissionError InferenceRequest → Handled
  unfolding handle_sse unary_answer
  admitted_or_not w g r (err e) = record {
    gateway = record g { m = record g.m { admit_failed = add64 g.m.admit_failed 1 } };
    reply = record { status = 400; body = not_admitted e };
    asked = none;
  }
  admitted_or_not w g r (ok req) =
      let g' : Gateway = record g { m = record g.m { admitted = add64 g.m.admitted 1 } } in
      if req.stream
      then handle_sse w g' r req
      else unary_answer g' req (w.route (at_unix_ms req.deadline_unix_ms) req)

  -- From the body on.
  unfoldable pub parsed_or_not :
      World → Gateway → Incoming → Principal → Option HttpRequest → Handled
  unfolding admitted_or_not
  parsed_or_not w g r principal none =
      json_error (record g { m = record g.m { admit_failed = add64 g.m.admit_failed 1 } }) 400
        "invalid request body" none
  parsed_or_not w g r principal (some hr) =
      admitted_or_not w g r
        (admit g.admitter (grpc_request w.request_id w.start r hr principal) w.admitted_at)

  -- From the answer of the authentication on.
  unfoldable pub authenticated_or_not :
      World → Gateway → Incoming → Result AuthError Principal → Handled
  unfolding parsed_or_not
  authenticated_or_not w g r (err e) =
      json_error (record g { m = record g.m { auth_failed = add64 g.m.auth_failed 1 } }) 401
        "invalid or missing API key" none
  authenticated_or_not w g r (ok principal) = parsed_or_not w g r principal r.body

  -- `handleInference`
  unfoldable pub handle_inference : World → Gateway → Incoming → Handled
  unfolding authenticated_or_not
  handle_inference w g r =
      let (auth_store, answer) =
        validate g.auth_store (extract_key r) w.auth_at w.cached_at w.row in
      authenticated_or_not w
        (record g { auth_store = auth_store; m = record g.m { total = add64 g.m.total 1 } }) r
        answer

  -- `postOnly` and `getOnly`
  unfoldable pub only : String → (Gateway → Incoming → Handled) → Gateway → Incoming → Handled
  only method h g r =
      if r.method == method then h g r else json_error g 405 "method not allowed" none

  abbrev pub post_only : (Gateway → Incoming → Handled) → Gateway → Incoming → Handled
  post_only h g r = only "POST" h g r

  abbrev pub get_only : (Gateway → Incoming → Handled) → Gateway → Incoming → Handled
  get_only h g r = only "GET" h g r

-- `NewGateway`, whose store and admission are new
unfoldable pub new_gateway : Config → Gateway
new_gateway cfg = record {
  auth_store = [];
  admitter = cfg;
  m = record {
    total = 0;
    auth_failed = 0;
    admitted = 0;
    admit_failed = 0;
    rate_limited = 0;
    routed = 0;
    streamed = 0;
    errors = 0;
  };
}
