-- ===== src/Router/Server/Examples.antt =====
-- `Route` on a server with two models, the one whose breaker has tripped being passed over.
use llm_platform.Common.{
  ℕ, ◌/◌, Option, ◌≡◌, refl, arith, String, true, false, some, none, [], ◌∷◌, ok, err, Result,
  length,
}
use llm_platform.Common.Int.{pos}
use llm_platform.Common.Fixed.{fixed}
use llm_platform.Percentile.Decimals.{fixed-RankFits}
use llm_platform.Inference.{InferenceRequest, InferenceResponse}
use llm_platform.Execution.{ExecuteRequest, ExecuteResponse}
use llm_platform.Router.Breaker.{CircuitBreaker, open_state}
use llm_platform.Common.Dict
use llm_platform.Router.Health
use llm_platform.Router.Scorer.{ModelRecord, CandidateScore}
use llm_platform.Router.Policies.{default_policy}
use llm_platform.Router.Server.{
  RouteError, no_models, RouterServer, World, Routed, tenant_of, tenant_policy, route,
  executor_request,
}
use llm_platform.Inference.{task_string}
use llm_platform.Percentile.{nearest_rank}
use llm_platform.Sort.{insertion_sort, select, sink, sort_loop}
use llm_platform.Router.Breaker.{
  get_breaker, allow, allow_at, new_circuit_breaker, record_success, record_success_at,
}
use llm_platform.Router.Candidates.{canary_weights, ask_all}
use llm_platform.Router.Policies.{set_policy, get_policy}
use llm_platform.Router.Limiter
use llm_platform.Router.Scorer.{
  score, score_all, score_one, cost_score, describe_reason, eligible, health_score, latency_score,
  mode_weights, policy_score, queue_score, rollout_of, supports_task, any_is,
}
use llm_platform.Router.Server.{
  limited, dispatch, ranking, answer, ask_breakers, cached_or_loaded, client, content_length,
  cost_usd, execute_on, executor_answered, is_canary_weight, log_entry, reply_with, response,
  scoring_request,
}
use llm_platform.Router.Server.Choice.{IsChoice, IsFrom, route_chosen}
use llm_platform.Router.Server.Ends.{Replies, route_all, IsAccount, IsSized, route_all-accounted}

abbrev seconds : ℕ → ℕ
seconds t = t / 1_000_000

abbrev model : String → String → ModelRecord fixed
model id tier = record {
  model_id = id;
  version = "v1";
  tier = tier;
  tasks = "chat" ∷ [];
  cost_per_1k = 2;
  avg_latency_ms = pos 200;
  max_tokens = pos 4096;
  executor_addr = "e";
  enabled = true;
}

abbrev tripped : CircuitBreaker
tripped = record {
  state = open_state;
  failures = 3;
  successes = 0;
  threshold = 3;
  success_req = 2;
  timeout = 20;
  last_fail = 90;
  model_id = "small";
}

abbrev server : RouterServer fixed seconds ℕ String
server = record {
  health = [];
  breakers = ("small", tripped) ∷ [];
  limiter = [];
  policies = [];
  canary = [];
  pool = [];
  metrics = record {
    routed = 0;
    fallbacks = 0;
    cb_blocked = 0;
    canary = 0;
    cache_hits = 0;
    errors = 0;
  };
  models = model "large" "large" ∷ model "small" "small" ∷ [];
}

abbrev executed : ExecuteRequest → ExecuteResponse ℕ
executed req = record {
  request_id = req.request_id;
  model_id = req.model_id;
  content = "hi";
  embedding = [];
  scores = [];
  tokens_input = pos 1;
  tokens_output = pos 2;
  latency_ms = 5000;
}

abbrev world : World fixed seconds ℕ String
world = record {
  load_policy = λ tenant_id. err "no table";
  dial = λ addr. ok 7;
  execute = λ conn req. ok (executed req);
  trace_id = "trace";
  start = 100;
  policy_at = 100;
  stored_at = 100;
  bucket_at = 100;
  limiter_at = 100;
  asked_at = 100;
  recorded_at = 100;
  finish = 5_000_100;
}

abbrev request : InferenceRequest
request = record {
  request_id = "r1";
  idempotency_key = "";
  task_type = pos 1;
  prompt = "hello";
  messages = [];
  documents = [];
  query = "";
  max_tokens = pos 64;
  stream = false;
  priority = pos 0;
  cost_budget = "low";
  latency_target_ms = pos 0;
  tenant_id = "";
  api_key_id = "k";
  metadata = none;
  deadline_unix_ms = pos 0;
  received_at_ms = pos 0;
}

all-IsSized : IsSized fixed server.health
unfolding Health.health_of Health.new_model_health Dict.get
all-IsSized id now = refl

route_all-accounted_example :
    (s' : RouterServer fixed seconds ℕ String) × (rs : Replies fixed seconds ℕ String) × (route_all
        fixed seconds ℕ String server
        ((world, request) ∷ (world, request) ∷ [])
      ≡ some (s', rs))
    × IsAccount fixed seconds ℕ String server.metrics s'.metrics
        (length {A = World fixed seconds ℕ String × InferenceRequest}
          ((world, request) ∷ (world, request) ∷ []))
        rs
route_all-accounted_example =
    route_all-accounted fixed seconds ℕ String server ((world, request) ∷ (world, request) ∷ [])
      (λ n lo hi. fixed-RankFits n (omega arith)) all-IsSized

abbrev or_refused : Option (Routed fixed seconds ℕ String) → Routed fixed seconds ℕ String
or_refused none = record { server = server; reply = err (no_models "chat"); logged = none }
or_refused (some r) = r

abbrev no_answer : InferenceResponse ℕ
no_answer =
    response world request
      (record {
        model_id = "";
        version = "";
        executor_addr = "";
        total_score = 0;
        latency_score = 0;
        cost_score = 0;
        health_score = 0;
        queue_score = 0;
        policy_score = 0;
        rollout_pct = 0;
        reason = "";
      })
      (executed (executor_request request "" "")) false 0

abbrev or_no_answer : Result (RouteError String) (InferenceResponse ℕ) → InferenceResponse ℕ
or_no_answer (ok resp) = resp
or_no_answer (err e) = no_answer

abbrev served : Routed fixed seconds ℕ String
served = or_refused (route world server request)

-- The request is answered, by the model whose breaker has not tripped.
served_lem :
    (route world server request ≡ some served)
    × (served.reply ≡ ok (or_no_answer served.reply))
    × ((or_no_answer served.reply).model_id ≡ "large")
unfolding route tenant_policy tenant_of limited dispatch ranking answer ask_breakers
    cached_or_loaded client content_length cost_usd execute_on executor_answered executor_request
    is_canary_weight log_entry reply_with response scoring_request get_policy default_policy
    set_policy canary_weights ask_all get_breaker allow allow_at new_circuit_breaker record_success
    record_success_at score score_all score_one cost_score describe_reason eligible health_score
    latency_score mode_weights policy_score queue_score rollout_of supports_task any_is
    insertion_sort select sink sort_loop nearest_rank task_string Limiter.allow Limiter.take_token
    Limiter.new_bucket Limiter.min64 Health.error_rate Health.failures_in Health.health_of
    Health.health_success Health.new_model_health Health.note_success Health.update_p99 Dict.get
    Dict.put
served_lem = (refl, refl, refl)

route_chosen_example :
    (c : CandidateScore fixed) × IsChoice world
      (tenant_policy world server (tenant_of request)).0
      request
      (tenant_policy world server (tenant_of request)).1
      c
    × IsFrom world request (or_no_answer served.reply) c
route_chosen_example =
    route_chosen world server request served (or_no_answer served.reply) served_lem.0 served_lem.1
