-- ===== src/Router/Middleware.antt =====
-- services/router/internal/middleware/middleware.go: the interceptors of the router's gRPC server. A
-- handler takes a context and a request in a state, and returns or panics. The state has the
-- counters, the log, how often the clock and the random source were read, and what the handler
-- itself works on. `clock n` is the n-th reading of the clock, in nanoseconds, and `new_id n` the
-- n-th id.
pub mod Chains
mod Examples
use llm_platform.Common.{
  ℕ, ◌+◌, ◌-◌, ◌/◌, String, Bool, true, false, Option, none, some, List, [], ◌∷◌, ◌++◌, reverse,
  if◌then◌else◌, ◌==◌, add64, eqb, join,
}
use llm_platform.Common.Int.{of_bits}
use llm_platform.Common.Dict.{Dict, get}
use llm_platform.Common.Float.{Float64}

-- `codes.OK`, `codes.DeadlineExceeded` and `codes.Internal`
abbrev pub code_ok : ℕ
code_ok = 0

abbrev pub code_deadline_exceeded : ℕ
code_deadline_exceeded = 4

abbrev pub code_internal : ℕ
code_internal = 13

-- An error of `status.Errorf`, or another one.
pub data GoError : Type 0 where
  status_error : ℕ → String → GoError
  other_error : String → GoError

-- The request and trace ids that the context carries, the metadata of the call, what it passes on,
-- and whether it is done.
pub record Context : Type 0 where
  pub request_id : Option String
  pub trace_id : Option String
  pub incoming : Option (Dict (List String))
  pub outgoing : List (String × String)
  pub done : Bool

abbrev pub text_or_empty : Option String → String
text_or_empty none = ""
text_or_empty (some v) = v

-- `RequestIDFromContext` and `TraceIDFromContext`
unfoldable pub request_id_from_context : Context → String
request_id_from_context ctx = text_or_empty ctx.request_id

unfoldable pub trace_id_from_context : Context → String
trace_id_from_context ctx = text_or_empty ctx.trace_id

pub record InterceptorMetrics : Type 0 where
  pub total_calls : ℕ
  pub error_calls : ℕ
  pub total_latency_ms : ℕ

abbrev pub has_error : Option GoError → Bool
has_error none = false
has_error (some e) = true

-- `RecordCall`
unfoldable pub record_call : InterceptorMetrics → ℕ → Option GoError → InterceptorMetrics
record_call m latency_ms e = record {
  total_calls = add64 m.total_calls 1;
  total_latency_ms = add64 m.total_latency_ms latency_ms;
  error_calls = if has_error e then add64 m.error_calls 1 else m.error_calls;
}

module _ (fl : Float64) where
  -- `AvgLatencyMs` and `ErrorRate`
  unfoldable pub avg_latency_ms : InterceptorMetrics → fl.Num
  avg_latency_ms m =
      if eqb m.total_calls 0
      then fl.of_nat 0
      else fl.div (fl.of_int (of_bits m.total_latency_ms)) (fl.of_int (of_bits m.total_calls))

  unfoldable pub call_error_rate : InterceptorMetrics → fl.Num
  call_error_rate m =
      if eqb m.total_calls 0
      then fl.of_nat 0
      else fl.div (fl.of_int (of_bits m.error_calls)) (fl.of_int (of_bits m.total_calls))

abbrev pub first_or_empty : Option (List String) → String
first_or_empty none = ""
first_or_empty (some []) = ""
first_or_empty (some (v ∷ vs)) = v

-- `mdValue`; the keys that it is asked for are in lower case, as `md.Get` wants them.
unfoldable pub md_value : Context → String → String
md_value ctx key = elim ctx.incoming [ none ↦ "" | some md ↦ first_or_empty (get md key) ]

-- What `Recovery` and `Logging` log.
pub data LogLine : Type 0 where
  panic_line : String → String → LogLine
  call_line : String → ℕ → ℕ → String → String → LogLine

pub record CallState (S : Type 0) : Type 0 where
  pub metrics : InterceptorMetrics
  pub log : List LogLine
  pub readings : ℕ
  pub ids : ℕ
  pub inner : S

pub data Outcome (Resp : Type 0) : Type 0 where
  returned : Option Resp → Option GoError → Outcome Resp
  panicked : String → Outcome Resp

-- The status code that `Logging` names.
unfoldable pub code_of : Option GoError → ℕ
code_of none = code_ok
code_of (some (status_error code msg)) = code
code_of (some (other_error msg)) = code_internal

module _ (clock : ℕ → ℕ) (new_id : ℕ → String) (Req Resp S : Type 0) where
  abbrev pub Handler : Type 0
  Handler = Context → Req → CallState S → Outcome Resp × CallState S

  -- `grpc.UnaryServerInterceptor`, `info` being the full name of the method.
  abbrev pub Interceptor : Type 0
  Interceptor = Context → Req → String → Handler → CallState S → Outcome Resp × CallState S

  -- The deferred function of `Recovery`.
  unfoldable pub recovered : String → Outcome Resp × CallState S → Outcome Resp × CallState S
  recovered info (returned resp e, s) = (returned resp e, s)
  recovered info (panicked r, s) = (
    returned none (some (status_error code_internal (join "internal server error: " r))),
    record s { log = s.log ++ (panic_line info r ∷ []) },
  )

  -- `Recovery`
  unfoldable pub recovery : Interceptor
  unfolding recovered
  recovery ctx req info handler s = recovered info (handler ctx req s)

  -- The id of the metadata, or a new one.
  unfoldable pub id_or_new : String → CallState S → String × CallState S
  id_or_new v s = if v == "" then (new_id s.ids, record s { ids = s.ids + 1 }) else (v, s)

  -- `RequestID`
  unfoldable pub request_id : Interceptor
  request_id ctx req info handler s =
      let (rid, s1) = id_or_new (md_value ctx "x-request-id") s in
      let (tid, s2) = id_or_new (md_value ctx "x-trace-id") s1 in
      handler
        (record ctx {
          request_id = some rid;
          trace_id = some tid;
          outgoing = ctx.outgoing ++ (("x-request-id", rid) ∷ ("x-trace-id", tid) ∷ []);
        })
        req s2

  -- `time.Since(start).Milliseconds()`, `start` the reading before and the next one now
  abbrev pub millis_since : ℕ → CallState S → ℕ
  millis_since start s = (clock s.readings - clock start) / 1_000_000

  abbrev pub read_clock : CallState S → CallState S
  read_clock s = record s { readings = s.readings + 1 }

  -- What `Logging` does when the handler has returned; a panic passes it by.
  unfoldable pub log_call :
      Context → String → ℕ → Outcome Resp × CallState S → Outcome Resp × CallState S
  log_call ctx info start (panicked r, s) = (panicked r, s)
  log_call ctx info start (returned resp e, s) = (
    returned resp e,
    record (read_clock s) {
      log =
          s.log
          ++ (call_line info (code_of e) (millis_since start s) (request_id_from_context ctx)
                (trace_id_from_context ctx)
              ∷ []);
    },
  )

  -- `Logging`
  unfoldable pub logging : Interceptor
  unfolding log_call
  logging ctx req info handler s = log_call ctx info s.readings (handler ctx req (read_clock s))

  -- What `Metrics` does when the handler has returned; a panic passes it by.
  unfoldable pub count_call : ℕ → Outcome Resp × CallState S → Outcome Resp × CallState S
  count_call start (panicked r, s) = (panicked r, s)
  count_call start (returned resp e, s) = (
    returned resp e,
    record (read_clock s) { metrics = record_call s.metrics (millis_since start s) e },
  )

  -- `Metrics`
  unfoldable pub metrics : Interceptor
  unfolding count_call
  metrics ctx req info handler s = count_call s.readings (handler ctx req (read_clock s))

  -- `DeadlineCheck`
  unfoldable pub deadline_check : Interceptor
  deadline_check ctx req info handler s =
      if ctx.done
      then (
        returned none (
            some (
              status_error code_deadline_exceeded
                (join "request deadline already expired before reaching " info))),
        s,
      )
      else handler ctx req s

  -- The loop of `Chain`, over the interceptors from the last to the first.
  unfoldable pub build_loop : String → List Interceptor → Handler → Handler
  build_loop info [] build = build
  build_loop info (ic ∷ ics) build = build_loop info ics (λ ctx req s. ic ctx req info build s)

  -- `Chain`
  unfoldable pub chain : List Interceptor → Interceptor
  chain interceptors ctx req info handler s =
      build_loop info (reverse interceptors) handler ctx req s

  -- The interceptors that `main` of services/router/cmd/main.go gives the server.
  abbrev pub server_interceptors : List Interceptor
  server_interceptors = recovery ∷ request_id ∷ logging ∷ metrics ∷ deadline_check ∷ []
