-- ===== src/Router/Server/Accounts.antt =====
-- What `Route` of services/router/cmd/main.go counts.
use llm_platform.Common.{
  ℕ, ◌+◌, ◌%◌, ◌^◌, ◌≡◌, refl, Bool, true, false, Option, none, some, List, [], ◌∷◌, Result, ok,
  err, arith, String, subst,
}
use llm_platform.Common.Dict.{Dict}
use llm_platform.Common.Float.{Float64}
use llm_platform.Inference.{InferenceRequest, InferenceResponse}
use llm_platform.Execution.{ExecuteResponse}
use llm_platform.Router.Health.{HealthTracker}
use llm_platform.Router.Policies.{TenantPolicy}
use llm_platform.Router.Scorer.{CandidateScore}
use llm_platform.Router.Server.{
  RouterMetrics, RouterServer, World, Routed, RouteError, rate_limited, no_models, dial_failed,
  executor_error, tenant_of, tenant_policy, count_error, executor_failed, executor_answered, answer,
  dispatch, client, ask_breakers, route, LogEntry, reply_with, execute_on, limited,
  cached_or_loaded,
}

module _ (fl : Float64) (seconds : ℕ → fl.Num) (Conn Failure : Type 0) where
  abbrev pub answered : {A : Type 0} → Result (RouteError Failure) A → ℕ
  answered (ok r) = 1
  answered (err e) = 0

  -- A refusal for the rate is not counted as an error.
  abbrev pub errors : {A : Type 0} → Result (RouteError Failure) A → ℕ
  errors (ok r) = 0
  errors (err (rate_limited t)) = 0
  errors (err (no_models t)) = 1
  errors (err (dial_failed e)) = 1
  errors (err (executor_error e)) = 1

  -- The counters after a call, by those before it and the reply.
  abbrev pub IsCounted : RouterMetrics → Option (Routed fl seconds Conn Failure) → Type 0
  IsCounted m none = Unit
  IsCounted m (some r) =
      (r.server.metrics.routed % 2 ^ 64 ≡ (m.routed + answered r.reply) % 2 ^ 64)
      × (r.server.metrics.errors % 2 ^ 64 ≡ (m.errors + errors r.reply) % 2 ^ 64)
      × (r.server.metrics.fallbacks ≡ m.fallbacks)

  module _ (w : World fl seconds Conn Failure) (req : InferenceRequest) (p : TenantPolicy) where
    reply_with-IsCounted :
        (s : RouterServer fl seconds Conn Failure) (id : String) (is_canary : Bool)
        (resp : InferenceResponse fl.Num) (entry : LogEntry fl seconds Conn Failure)
        (h : Option (HealthTracker fl))
        → IsCounted s.metrics (reply_with resp entry (executor_answered s id is_canary h))
    unfolding reply_with executor_answered
    reply_with-IsCounted s id is_canary resp entry none = tt
    reply_with-IsCounted s id is_canary resp entry (some h) = (omega arith, omega arith, refl)

    answer-IsCounted :
        (weight : Option fl.Num) (s : RouterServer fl seconds Conn Failure)
        (primary : CandidateScore fl) (r : Result Failure (ExecuteResponse fl.Num))
        → IsCounted s.metrics (answer w req p weight s primary r)
    unfolding answer executor_failed count_error
    answer-IsCounted weight s primary (err e) = (omega arith, omega arith, refl)
    answer-IsCounted weight s primary (ok r) = reply_with-IsCounted s primary.model_id _ _ _ _

    execute_on-IsCounted :
        (weight : Option fl.Num) (s : RouterServer fl seconds Conn Failure)
        (primary : CandidateScore fl) (c : Result Failure Conn)
        → IsCounted s.metrics (execute_on w req p weight s primary c)
    unfolding execute_on executor_failed count_error
    execute_on-IsCounted weight s primary (err e) = (omega arith, omega arith, refl)
    execute_on-IsCounted weight s primary (ok c) = answer-IsCounted weight s primary _

    dispatch-IsCounted :
        (weights : Dict fl.Num) (s : RouterServer fl seconds Conn Failure)
        (ranked : List (CandidateScore fl))
        → IsCounted s.metrics (dispatch w req p weights s ranked)
    unfolding dispatch count_error
    dispatch-IsCounted weights s [] = (omega arith, omega arith, refl)
    dispatch-IsCounted weights s (primary ∷ ranked) =
        let dialled = client s.pool primary.executor_addr w.dial in
        execute_on-IsCounted _ (record s { pool = dialled.0 }) primary dialled.1

    limited-IsCounted :
        (s : RouterServer fl seconds Conn Failure) (allowed : Bool)
        → IsCounted s.metrics (limited w s req p allowed)
    unfolding limited ask_breakers
    limited-IsCounted s false = (omega arith, omega arith, refl)
    limited-IsCounted s true = dispatch-IsCounted _ (ask_breakers w s) _

  cached_or_loaded-metrics :
      (w : World fl seconds Conn Failure) (s : RouterServer fl seconds Conn Failure) (t : String)
      (o : Option TenantPolicy)
      → (cached_or_loaded w s t o).0.metrics ≡ s.metrics
  unfolding cached_or_loaded
  cached_or_loaded-metrics w s t none = refl
  cached_or_loaded-metrics w s t (some p) = refl

  -- The counters after a call of `Route` that does not panic: `Routed` counts the replies and `Errors`
  -- the refusals but those for the rate, modulo 2^64; `Fallbacks` never changes.
  pub route-IsCounted :
      (w : World fl seconds Conn Failure) (s : RouterServer fl seconds Conn Failure)
      (req : InferenceRequest)
      → IsCounted s.metrics (route w s req)
  unfolding route tenant_policy
  route-IsCounted w s req =
      let (s1, p) = tenant_policy w s (tenant_of req) in
      subst (λ m. IsCounted m (route w s req)) (cached_or_loaded-metrics w s (tenant_of req) _)
        (limited-IsCounted w req p _ _)
