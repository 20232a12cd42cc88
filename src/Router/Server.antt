-- ===== src/Router/Server.antt =====
-- services/router/cmd/main.go: `RouterServer` and its `Route`. One call of `Route` is one step; what it
-- asks of the rest of the world, with the readings of the clock, is the record `World`: the store, the
-- connections to executors, their answers. Where an outcome is recorded twice, for the breaker and for
-- the health tracker, both read one time. Times are nanoseconds of the monotonic clock.
pub mod Accounts
pub mod Choice
pub mod Ends
mod Examples
use llm_platform.Common.{
  ℕ, ◌+◌, ◌-◌, ◌/◌, String, Bool, true, false, ◌&&◌, Option, none, some, List, [], ◌∷◌, Result, ok,
  err, if◌then◌else◌, ◌==◌, add64,
}
use Prim.Native.String.{len}
use llm_platform.Common.Int.{ℤ, pos}
use llm_platform.Common.Dict.{Dict, get, put}
use llm_platform.Common.Float.{Float64}
use llm_platform.Inference.{
  InferenceRequest, InferenceResponse, ChatMessage, task_string, tier_small,
}
use llm_platform.Execution.{ExecuteRequest, ExecuteResponse}
use llm_platform.Router.Breaker.{Registry, record_success_at, record_failure_at}
use llm_platform.Router.Policies.{TenantPolicy, PolicyStore, get_policy, set_policy, default_policy}
use llm_platform.Router.Limiter.{RateLimiter, allow}
use llm_platform.Router.Health.{HealthTracker, health_success, health_failure}
use llm_platform.Router.Scorer.{ModelRecord, ScoringRequest, CandidateScore, noop_depth, score}
use llm_platform.Router.Candidates.{RolloutConfig, canary_weights, ask_all}

pub record RouterMetrics : Type 0 where
  pub routed : ℕ
  pub fallbacks : ℕ
  pub cb_blocked : ℕ
  pub canary : ℕ
  pub cache_hits : ℕ
  pub errors : ℕ

-- `tenantID`
unfoldable pub tenant_of : InferenceRequest → String
tenant_of req = if req.tenant_id == "" then "tenant-default" else req.tenant_id

-- `for _, m := range req.Messages { promptLen += len(m.Content) }`, from `n`
unfoldable pub content_length : ℕ → List ChatMessage → ℕ
content_length n [] = n
content_length n (m ∷ ms) = content_length (n + len m.content) ms

-- The request that `Route` sends to the executor.
unfoldable pub executor_request : InferenceRequest → String → String → ExecuteRequest
executor_request req model_id version = record {
  request_id = req.request_id;
  model_id = model_id;
  model_version = version;
  task_type = req.task_type;
  prompt = req.prompt;
  messages = req.messages;
  documents = req.documents;
  query = req.query;
  max_tokens = req.max_tokens;
  deadline_ms = pos 0;
}

-- The status codes ResourceExhausted, Unavailable (twice) and Internal.
pub data RouteError (Failure : Type 0) : Type 0 where
  rate_limited : String → RouteError Failure
  no_models : String → RouteError Failure
  dial_failed : Failure → RouteError Failure
  executor_error : Failure → RouteError Failure

abbrev pub or_default : {Failure : Type 0} → String → Result Failure TenantPolicy → TenantPolicy
or_default tenant_id (ok p) = p
or_default tenant_id (err e) = default_policy tenant_id

module _ {Conn Failure : Type 0} where
  -- `execPool.client`; both looks into the map are one.
  unfoldable pub client :
      Dict Conn → String → (String → Result Failure Conn) → Dict Conn × Result Failure Conn
  client pool addr dial = elim (get pool addr) [
    | some c ↦ (pool, ok c)
    | none ↦ elim (dial addr) [ ok c ↦ (put pool addr c, ok c) | err e ↦ (pool, err e) ]
  ]

module _ (fl : Float64) where
  open fl use {Num, of_nat, lit, lt}

  -- `weights[id] > 0 && weights[id] < 1.0`, a missing weight being 0
  unfoldable pub is_canary_weight : Option Num → Bool
  is_canary_weight none = lt (of_nat 0) (of_nat 0) && lt (of_nat 0) (lit 1 0)
  is_canary_weight (some x) = lt (of_nat 0) x && lt x (lit 1 0)

module _ {fl : Float64} where
  open fl use {Num, of_nat, of_int, lit, mul, div}

  -- The cost, by the first model of that id.
  unfoldable pub cost_usd : List (ModelRecord fl) → String → ℤ → Num
  cost_usd [] model_id tokens_output = of_nat 0
  cost_usd (m ∷ ms) model_id tokens_output =
      let rest = cost_usd ms model_id tokens_output in
      if m.model_id == model_id
      then mul (div (of_int tokens_output) (lit 1000 0)) m.cost_per_1k
      else rest

module _ (fl : Float64) (seconds : ℕ → fl.Num) (Conn Failure : Type 0) where
  open fl use {Num}

  pub record RouterServer : Type 0 where
    pub health : HealthTracker fl
    pub breakers : Registry
    pub limiter : RateLimiter fl seconds
    pub policies : PolicyStore
    pub canary : List (RolloutConfig fl)
    pub pool : Dict Conn
    pub metrics : RouterMetrics
    pub models : List (ModelRecord fl)

  pub record World : Type 0 where
    -- `s.store.LoadTenantPolicy`
    pub load_policy : String → Result Failure TenantPolicy
    -- `grpc.NewClient` and `Execute`
    pub dial : String → Result Failure Conn
    pub execute : Conn → ExecuteRequest → Result Failure (ExecuteResponse Num)
    pub trace_id : String
    pub start : ℕ
    pub policy_at : ℕ
    pub stored_at : ℕ
    pub bucket_at : ℕ
    pub limiter_at : ℕ
    pub asked_at : ℕ
    pub recorded_at : ℕ
    pub finish : ℕ

  pub record LogEntry : Type 0 where
    pub request_id : String
    pub trace_id : String
    pub tenant_id : String
    pub task_type : String
    pub model_id : String
    pub tokens_input : ℤ
    pub tokens_output : ℤ
    pub latency_ms : Num
    pub cost_usd : Num
    pub fallback_used : Bool
    pub is_canary : Bool
    pub routing_mode : String

  -- What `Route` leaves and returns, and the entry that it gives to the audit log.
  pub record Routed : Type 0 where
    pub server : RouterServer
    pub reply : Result (RouteError Failure) (InferenceResponse Num)
    pub logged : Option LogEntry

module _ {fl : Float64} {seconds : ℕ → fl.Num} {Conn Failure : Type 0} where
  open fl use {Num, of_nat, of_int}

  -- What the cache has, or the store's policy, which is cached.
  unfoldable pub cached_or_loaded :
      World fl seconds Conn Failure
      → RouterServer fl seconds Conn Failure
      → String
      → Option TenantPolicy
      → RouterServer fl seconds Conn Failure × TenantPolicy
  cached_or_loaded w s tenant_id (some p) = (s, p)
  cached_or_loaded w s tenant_id none =
      let p = or_default tenant_id (w.load_policy tenant_id) in
      (record s { policies = set_policy s.policies p w.stored_at }, p)

  unfoldable pub tenant_policy :
      World fl seconds Conn Failure
      → RouterServer fl seconds Conn Failure
      → String
      → RouterServer fl seconds Conn Failure × TenantPolicy
  unfolding cached_or_loaded
  tenant_policy w s tenant_id =
      cached_or_loaded w s tenant_id (get_policy s.policies tenant_id w.policy_at)

  unfoldable pub scoring_request :
      RouterServer fl seconds Conn Failure → InferenceRequest → TenantPolicy → ScoringRequest fl
  scoring_request s req p = record {
    task = task_string req.task_type;
    cost_budget = req.cost_budget;
    latency_target_ms = req.latency_target_ms;
    prompt_len = pos (content_length (len req.prompt) req.messages);
    tenant_mode = p.routing_mode;
    allowed_models = p.allowed_models;
    rollout_weights = canary_weights fl [] s.canary;
  }

  unfoldable pub count_error :
      RouterServer fl seconds Conn Failure → RouterServer fl seconds Conn Failure
  count_error s = record s { metrics = record s.metrics { errors = add64 s.metrics.errors 1 } }

  -- `RecordFailure` of the breaker and of the health tracker, and `Errors`.
  unfoldable pub executor_failed :
      World fl seconds Conn Failure
      → RouterServer fl seconds Conn Failure
      → String
      → RouterServer fl seconds Conn Failure
  executor_failed w s model_id = count_error (record s {
    breakers = record_failure_at s.breakers model_id w.recorded_at;
    health = health_failure fl s.health model_id w.recorded_at;
  })

  -- `float64(time.Since(start).Milliseconds())`
  abbrev pub latency_of : World fl seconds Conn Failure → Num
  latency_of w = of_int (pos ((w.finish - w.start) / 1_000_000))

  -- `RecordSuccess` of the breaker, `Routed` and `Canary`, given what `RecordSuccess` of the health
  -- tracker gives; `none` is the panic of an index out of range.
  unfoldable pub executor_answered :
      RouterServer fl seconds Conn Failure
      → String
      → Bool
      → Option (HealthTracker fl)
      → Option (RouterServer fl seconds Conn Failure)
  executor_answered s model_id is_canary none = none
  executor_answered s model_id is_canary (some h) = some (record s {
    breakers = record_success_at s.breakers model_id;
    health = h;
    metrics = record s.metrics {
      routed = add64 s.metrics.routed 1;
      canary = if is_canary then add64 s.metrics.canary 1 else s.metrics.canary;
    };
  })

  abbrev pub refused :
      RouterServer fl seconds Conn Failure
      → RouteError Failure
      → Option (Routed fl seconds Conn Failure)
  refused s e = some (record { server = s; reply = err e; logged = none })

  -- `isFallback` compares the first of the ranking with itself.
  unfoldable pub response :
      World fl seconds Conn Failure
      → InferenceRequest
      → CandidateScore fl
      → ExecuteResponse Num
      → Bool
      → Num
      → InferenceResponse Num
  response w req primary r is_canary cost = record {
    request_id = req.request_id;
    trace_id = w.trace_id;
    task_type = req.task_type;
    model_id = r.model_id;
    model_version = "";
    model_tier = tier_small;
    content = r.content;
    embedding = r.embedding;
    scores = r.scores;
    tokens_input = r.tokens_input;
    tokens_output = r.tokens_output;
    latency_ms = latency_of w;
    queue_wait_ms = of_nat 0;
    cached = false;
    fallback_used = false;
    is_canary = is_canary;
    cost_usd = cost;
    executor_id = primary.executor_addr;
  }

  unfoldable pub log_entry :
      World fl seconds Conn Failure
      → InferenceRequest
      → TenantPolicy
      → ExecuteResponse Num
      → Bool
      → Num
      → LogEntry fl seconds Conn Failure
  log_entry w req p r is_canary cost = record {
    request_id = req.request_id;
    trace_id = w.trace_id;
    tenant_id = tenant_of req;
    task_type = task_string req.task_type;
    model_id = r.model_id;
    tokens_input = r.tokens_input;
    tokens_output = r.tokens_output;
    latency_ms = latency_of w;
    cost_usd = cost;
    fallback_used = false;
    is_canary = is_canary;
    routing_mode = p.routing_mode;
  }

  -- The reply and the entry of the log, once the answer is recorded.
  unfoldable pub reply_with :
      InferenceResponse Num
      → LogEntry fl seconds Conn Failure
      → Option (RouterServer fl seconds Conn Failure)
      → Option (Routed fl seconds Conn Failure)
  reply_with resp entry none = none
  reply_with resp entry (some s) =
      some (record { server = s; reply = ok resp; logged = some entry })

  -- From the executor's answer on.
  unfoldable pub answer :
      World fl seconds Conn Failure
      → InferenceRequest
      → TenantPolicy
      → Option Num
      → RouterServer fl seconds Conn Failure
      → CandidateScore fl
      → Result Failure (ExecuteResponse Num)
      → Option (Routed fl seconds Conn Failure)
  unfolding reply_with executor_answered
  answer w req p weight s primary (err e) =
      refused (executor_failed w s primary.model_id) (executor_error e)
  answer w req p weight s primary (ok r) =
      let is_canary = is_canary_weight fl weight in
      let cost = cost_usd s.models primary.model_id r.tokens_output in
      reply_with (response w req primary r is_canary cost) (log_entry w req p r is_canary cost) (
        executor_answered s primary.model_id is_canary
          (health_success fl s.health primary.model_id (latency_of w) w.recorded_at))

  -- From the connection on.
  unfoldable pub execute_on :
      World fl seconds Conn Failure
      → InferenceRequest
      → TenantPolicy
      → Option Num
      → RouterServer fl seconds Conn Failure
      → CandidateScore fl
      → Result Failure Conn
      → Option (Routed fl seconds Conn Failure)
  execute_on w req p weight s primary (err e) =
      refused (executor_failed w s primary.model_id) (dial_failed e)
  execute_on w req p weight s primary (ok c) =
      answer w req p weight s primary
        (w.execute c (executor_request req primary.model_id primary.version))

  -- From the ranking on.
  unfoldable pub dispatch :
      World fl seconds Conn Failure
      → InferenceRequest
      → TenantPolicy
      → Dict Num
      → RouterServer fl seconds Conn Failure
      → List (CandidateScore fl)
      → Option (Routed fl seconds Conn Failure)
  dispatch w req p weights s [] = refused (count_error s) (no_models (task_string req.task_type))
  dispatch w req p weights s (primary ∷ ranked) =
      let (pool, dialled) = client s.pool primary.executor_addr w.dial in
      execute_on w req p (get weights primary.model_id) (record s { pool = pool }) primary dialled

  -- The breakers are asked, and the models that they block are counted.
  unfoldable pub ask_breakers :
      World fl seconds Conn Failure
      → RouterServer fl seconds Conn Failure
      → RouterServer fl seconds Conn Failure
  ask_breakers w s =
      let asked = ask_all fl s.breakers s.models w.asked_at in
      record s {
        breakers = asked.breakers;
        metrics = record s.metrics { cb_blocked = add64 s.metrics.cb_blocked asked.blocked };
      }

  -- The candidates and their ranking.
  unfoldable pub ranking :
      World fl seconds Conn Failure
      → RouterServer fl seconds Conn Failure
      → InferenceRequest
      → TenantPolicy
      → List (CandidateScore fl)
  ranking w s req p =
      score fl s.health noop_depth (scoring_request s req p)
        (ask_all fl s.breakers s.models w.asked_at).candidates

  -- From the limiter's answer on.
  unfoldable pub limited :
      World fl seconds Conn Failure
      → RouterServer fl seconds Conn Failure
      → InferenceRequest
      → TenantPolicy
      → Bool
      → Option (Routed fl seconds Conn Failure)
  limited w s req p false = refused s (rate_limited (tenant_of req))
  limited w s req p true =
      dispatch w req p (canary_weights fl [] s.canary) (ask_breakers w s) (ranking w s req p)

  -- `Route`
  unfoldable pub route :
      World fl seconds Conn Failure
      → RouterServer fl seconds Conn Failure
      → InferenceRequest
      → Option (Routed fl seconds Conn Failure)
  route w s req =
      let (s1, p) = tenant_policy w s (tenant_of req) in
      let (limiter, allowed) =
        allow fl seconds s1.limiter (tenant_of req) p.rate_limit p.burst_limit w.bucket_at
          w.limiter_at in
      limited w (record s1 { limiter = limiter }) req p allowed

  -- A tick of `reloadLoop`: what does not load stays as it is.
  unfoldable pub reload :
      Result Failure (List (ModelRecord fl))
      → Result Failure (List (RolloutConfig fl))
      → RouterServer fl seconds Conn Failure
      → RouterServer fl seconds Conn Failure
  reload models rollouts s =
      let s' : RouterServer fl seconds Conn Failure = elim models [
        | ok ms ↦ record s { models = ms }
        | err e ↦ s
      ] in
      elim rollouts [ ok cfgs ↦ record s' { canary = cfgs } | err e ↦ s' ]

  -- `NewRouterServer`
  unfoldable pub new_router_server :
      Result Failure (List (ModelRecord fl))
      → List (RolloutConfig fl)
      → Result Failure (RouterServer fl seconds Conn Failure)
  new_router_server (err e) rollouts = err e
  new_router_server (ok models) rollouts = ok (record {
    health = [];
    breakers = [];
    limiter = [];
    policies = [];
    canary = rollouts;
    pool = [];
    metrics = record {
      routed = 0;
      fallbacks = 0;
      cb_blocked = 0;
      canary = 0;
      cache_hits = 0;
      errors = 0;
    };
    models = models;
  })
