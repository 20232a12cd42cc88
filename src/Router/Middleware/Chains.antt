-- ===== src/Router/Middleware/Chains.antt =====
-- How the interceptors of services/router/internal/middleware/middleware.go are composed, and what
-- the server's chain of them does with a call.
use llm_platform.Common.{
  ℕ, ◌+◌, ◌≡◌, refl, ap, ◌∙◌, String, Bool, true, false, Option, none, some, List, [], ◌∷◌, ◌++◌,
  reverse, if◌then◌else◌, join, add64, Bool-cases, inl, inr, ◌==◌,
}
use mathlib.Core.List.{reverse-cons}
use llm_platform.Router.Middleware.{
  Context, CallState, Outcome, returned, panicked, GoError, status_error, panic_line, call_line,
  code_deadline_exceeded, code_internal, code_of, record_call, Handler, Interceptor, recovery,
  recovered, request_id, id_or_new, md_value, logging, log_call, metrics, count_call,
  deadline_check, build_loop, chain, server_interceptors, millis_since, read_clock,
  request_id_from_context, trace_id_from_context,
}

if_false {ℓ} : {A : Type ℓ} (b : Bool) (x y : A) → b ≡ false → (if b then x else y) ≡ y
if_false b x y h = rw h refl

if_true {ℓ} : {A : Type ℓ} (b : Bool) (x y : A) → b ≡ true → (if b then x else y) ≡ x
if_true b x y h = rw h refl

module _ (clock : ℕ → ℕ) (new_id : ℕ → String) (Req Resp S : Type 0) where
  abbrev Handle : Type 0
  Handle = Handler clock new_id Req Resp S

  abbrev Intercept : Type 0
  Intercept = Interceptor clock new_id Req Resp S

  -- The first interceptor is the outermost.
  pub nested : String → List Intercept → Handle → Handle
  nested info [] handler = handler
  nested info (ic ∷ ics) handler = λ ctx req s. ic ctx req info (nested info ics handler) s

  build_loop-append :
      (info : String) (xs ys : List Intercept) (handler : Handle)
      → build_loop clock new_id Req Resp S info (xs ++ ys) handler
        ≡ build_loop clock new_id Req Resp S info ys
            (build_loop clock new_id Req Resp S info xs handler)
  unfolding build_loop
  build_loop-append info [] ys handler = refl
  build_loop-append info (x ∷ xs) ys handler = build_loop-append info xs ys _

  build_loop-reverse :
      (info : String) (ics : List Intercept) (handler : Handle)
      → build_loop clock new_id Req Resp S info (reverse ics) handler ≡ nested info ics handler
  unfolding build_loop nested
  build_loop-reverse info [] handler = refl
  build_loop-reverse info (ic ∷ ics) handler = rw (reverse-cons ic ics) (
      build_loop-append info (reverse ics) (ic ∷ []) handler
      ∙ ap (λ (b : Handle). λ ctx req s. ic ctx req info b s) (build_loop-reverse info ics handler))

  -- `Chain`, whose loop goes from the last interceptor to the first, is the nesting in which the first
  -- is the outermost, and each calls the next with the context and the request of its choice.
  pub chain-nested :
      (ics : List Intercept) (info : String) (handler : Handle) (ctx : Context) (req : Req)
      (s : CallState S)
      → chain clock new_id Req Resp S ics ctx req info handler s ≡ nested info ics handler ctx req s
  unfolding chain
  chain-nested ics info handler ctx req s =
      ap (λ (b : Handle). b ctx req s) (build_loop-reverse info ics handler)

  -- The context and the state that `RequestID` hands on.
  abbrev pub with_ids : Context → CallState S → Context × CallState S
  with_ids ctx s =
      let (rid, s1) = id_or_new clock new_id Req Resp S (md_value ctx "x-request-id") s in
      let (tid, s2) = id_or_new clock new_id Req Resp S (md_value ctx "x-trace-id") s1 in
      (
        record ctx {
          request_id = some rid;
          trace_id = some tid;
          outgoing = ctx.outgoing ++ (("x-request-id", rid) ∷ ("x-trace-id", tid) ∷ []);
        },
        s2,
      )

  -- The state in which the handler of the server's chain is called: the clock was read twice.
  abbrev pub before_handler : Context → CallState S → CallState S
  before_handler ctx s = let s2 = (with_ids ctx s).1 in record s2 { readings = s2.readings + 1 + 1 }

  -- What the server's chain makes of what the deadline check and the handler give.
  unfoldable pub concluded :
      Context → String → CallState S → Outcome Resp × CallState S → Outcome Resp × CallState S
  concluded ctx info s out =
      let (ctx', s2) = with_ids ctx s in
      recovered clock new_id Req Resp S info (
        log_call clock new_id Req Resp S ctx' info s2.readings
          (count_call clock new_id Req Resp S (s2.readings + 1) out))

  server_chain :
      (info : String) (handler : Handle) (ctx : Context) (req : Req) (s : CallState S)
      → chain clock new_id Req Resp S
          (server_interceptors clock new_id Req Resp S)
          ctx
          req
          info
          handler
          s
        ≡ concluded ctx info s (
            deadline_check clock new_id Req Resp S
              (with_ids ctx s).0
              req
              info
              handler
              (before_handler ctx s))
  unfolding nested recovery request_id logging metrics concluded
  server_chain info handler ctx req s = chain-nested _ info handler ctx req s

  abbrev pub Serve : String → Handle → Context → Req → CallState S → Outcome Resp × CallState S
  Serve info handler ctx req s =
      chain clock new_id Req Resp S (server_interceptors clock new_id Req Resp S) ctx req info
        handler s

  -- On a live context a handler that returns gives its reply: the call is counted, an error as such,
  -- and has one line in the log, with its code and the ids that the handler saw.
  pub server_returned :
      (info : String) (handler : Handle) (ctx : Context) (req : Req) (s s' : CallState S)
      (resp : Option Resp) (e : Option GoError)
      → ctx.done ≡ false
      → handler (with_ids ctx s).0 req (before_handler ctx s) ≡ (returned resp e, s')
      → ((Serve info handler ctx req s).0 ≡ returned resp e)
        × ((Serve info handler ctx req s).1.inner ≡ s'.inner)
        × ((Serve info handler ctx req s).1.metrics
            ≡ record_call s'.metrics
                (millis_since clock new_id Req Resp S ((with_ids ctx s).1.readings + 1) s')
                e)
        × ((Serve info handler ctx req s).1.log
            ≡ s'.log
              ++ (call_line info
                    (code_of e)
                    (millis_since clock new_id Req Resp S
                      (with_ids ctx s).1.readings
                      (read_clock clock new_id Req Resp S s'))
                    (request_id_from_context (with_ids ctx s).0)
                    (trace_id_from_context (with_ids ctx s).0)
                  ∷ []))
  unfolding concluded recovered log_call count_call deadline_check
  server_returned info handler ctx req s s' resp e live h =
      let all =
        server_chain info handler ctx req s
        ∙ ap (concluded ctx info s) (if_false ctx.done _ _ live ∙ h) in
      (ap (λ o. o.0) all, ap (λ o. o.1.inner) all, ap (λ o. o.1.metrics) all, ap (λ o. o.1.log) all)

  -- On a live context a handler that panics does not take the server down: the caller gets an internal
  -- error. But the call is not counted, neither as a call nor as an error, and the log has the line
  -- of the panic and none of the call.
  pub server_panicked :
      (info : String) (handler : Handle) (ctx : Context) (req : Req) (s s' : CallState S)
      (r : String)
      → ctx.done ≡ false
      → handler (with_ids ctx s).0 req (before_handler ctx s) ≡ (panicked r, s')
      → ((Serve info handler ctx req s).0
          ≡ returned none (some (status_error code_internal (join "internal server error: " r))))
        × ((Serve info handler ctx req s).1.inner ≡ s'.inner)
        × ((Serve info handler ctx req s).1.metrics ≡ s'.metrics)
        × ((Serve info handler ctx req s).1.log ≡ s'.log ++ (panic_line info r ∷ []))
  unfolding concluded recovered log_call count_call deadline_check
  server_panicked info handler ctx req s s' r live h =
      let all =
        server_chain info handler ctx req s
        ∙ ap (concluded ctx info s) (if_false ctx.done _ _ live ∙ h) in
      (ap (λ o. o.0) all, ap (λ o. o.1.inner) all, ap (λ o. o.1.metrics) all, ap (λ o. o.1.log) all)

  id_or_new-keeps :
      (v : String) (s : CallState S)
      → ((id_or_new clock new_id Req Resp S v s).1.metrics ≡ s.metrics)
        × ((id_or_new clock new_id Req Resp S v s).1.inner ≡ s.inner)
  unfolding id_or_new
  id_or_new-keeps v s = elim (Bool-cases (v == "")) [
    | inl e ↦ rw e (refl, refl)
    | inr e ↦ rw e (refl, refl)
  ]

  with_ids-keeps :
      (ctx : Context) (s : CallState S)
      → ((with_ids ctx s).1.metrics ≡ s.metrics) × ((with_ids ctx s).1.inner ≡ s.inner)
  with_ids-keeps ctx s =
      let first = id_or_new-keeps (md_value ctx "x-request-id") s in
      let s1 = (id_or_new clock new_id Req Resp S (md_value ctx "x-request-id") s).1 in
      let second = id_or_new-keeps (md_value ctx "x-trace-id") s1 in
      (second.0 ∙ first.0, second.1 ∙ first.1)

  -- A call whose context is done is refused with DeadlineExceeded: the handler is not called, so what
  -- it works on is as it was, and the call is counted, with an error.
  pub server_expired :
      (info : String) (handler : Handle) (ctx : Context) (req : Req) (s : CallState S)
      → ctx.done ≡ true
      → ((Serve info handler ctx req s).0
          ≡ returned none (
              some (
                status_error code_deadline_exceeded
                  (join "request deadline already expired before reaching " info))))
        × ((Serve info handler ctx req s).1.inner ≡ s.inner)
        × ((Serve info handler ctx req s).1.metrics.total_calls ≡ add64 s.metrics.total_calls 1)
        × ((Serve info handler ctx req s).1.metrics.error_calls ≡ add64 s.metrics.error_calls 1)
  unfolding concluded recovered log_call count_call deadline_check record_call
  server_expired info handler ctx req s expired =
      let all =
        server_chain info handler ctx req s
        ∙ ap (concluded ctx info s) (if_true ctx.done _ _ expired) in
      let (same_metrics, same_inner) = with_ids-keeps ctx s in
      (
        ap (λ o. o.0) all,
        ap (λ o. o.1.inner) all ∙ same_inner,
        ap (λ o. o.1.metrics.total_calls) all ∙ ap (λ m. add64 m.total_calls 1) same_metrics,
        ap (λ o. o.1.metrics.error_calls) all ∙ ap (λ m. add64 m.error_calls 1) same_metrics,
      )

  pub is_returned : Outcome Resp → Bool
  is_returned (returned resp e) = true
  is_returned (panicked r) = false

  recovered-returned :
      (info : String) (o : Outcome Resp × CallState S)
      → is_returned (recovered clock new_id Req Resp S info o).0 ≡ true
  unfolding recovered is_returned
  recovered-returned info (returned resp e, s) = refl
  recovered-returned info (panicked r, s) = refl

  -- A chain that starts with `Recovery` never panics, whatever the interceptors in it and the handler do.
  pub chain-recovery :
      (ics : List Intercept) (info : String) (handler : Handle) (ctx : Context) (req : Req)
      (s : CallState S)
      → is_returned
          (chain clock new_id Req Resp S
            (recovery clock new_id Req Resp S ∷ ics)
            ctx
            req
            info
            handler
            s).0
        ≡ true
  unfolding nested recovery
  chain-recovery ics info handler ctx req s =
      ap (λ o. is_returned o.0)
        (chain-nested (recovery clock new_id Req Resp S ∷ ics) info handler ctx req s)
      ∙ recovered-returned info (nested info ics handler ctx req s)
