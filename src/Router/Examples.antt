-- ===== src/Router/Examples.antt =====
-- Policies, the limiter, health tracking and scoring on concrete tenants and models.
use mathlib.Core.List.{Perm}
use llm_platform.Common.{
  All, ◌+◌, ℕ, ◌-◌, ◌/◌, ◌≡◌, refl, String, true, false, some, none, List, [], ◌∷◌, ◌++◌, map,
  arith, length, min, drop, replicate, ltb,
}
use llm_platform.Common.Int.{ℤ, pos}
use llm_platform.Common.Dict.{get}
use llm_platform.Common.Fixed.{fixed}
use llm_platform.Percentile.Decimals.{fixed-RankFits}
use llm_platform.Sort.{select, IsRanked}
use llm_platform.Router.Breaker.{CircuitBreaker, open_state}
use llm_platform.Router.Breaker.Recovery.{breaker_of}
use llm_platform.Router.Candidates.{Asked, ask_all}
use llm_platform.Router.Candidates.Breakers.{is_open, ask_all-closed}
use llm_platform.Router.Limiter.{new_bucket}
use llm_platform.Router.Limiter.Burst.{CountsTo, calls_at, new_bucket-burst}
use llm_platform.Router.Health.{ModelHealth, HealthTracker, failures_in, error_rate}
use llm_platform.Router.Health.Rate.{Outcome, answered, failed, codes, tell_all, error_rate-last}
use llm_platform.Router.Scorer.{ModelRecord, ScoringRequest, eligible, score_one, better, score}
use llm_platform.Router.Scorer.Ranking.{score-perm, score-IsRanked}

abbrev seconds : ℕ → ℕ
seconds t = t / 1_000_000

counts : CountsTo fixed seconds 2 (fixed.of_int (pos 5))
counts = record {
  of_pos = refl;
  less_one = λ n h. omega arith;
  one_le = λ n h. ground arith;
  not_above = λ n h. ground arith;
  no_refill = λ n h. omega arith;
}

new_bucket-burst_example :
    calls_at fixed seconds (new_bucket fixed seconds (pos 5) (pos 2) 100) (pos 5) (pos 2) 100 4
    ≡ replicate (min 4 2) true ++ replicate (4 - 2) false
new_bucket-burst_example = new_bucket-burst fixed seconds 2 100 4 (pos 5) counts

less_one_fixed : (bound x : ℕ) → ltb bound x ≡ false → ltb bound (x - 1000) ≡ false
less_one_fixed bound x h = ground arith

abbrev outcomes : List (Outcome fixed)
outcomes = answered 5000 ∷ failed ∷ answered 7000 ∷ []

no_record : get {V = ModelHealth fixed} [] "m" ≡ none
unfolding get
no_record = refl

error_rate-last_example :
    (h : HealthTracker fixed) × (tell_all fixed [] "m" outcomes 9 ≡ some h)
    × (error_rate fixed h "m"
        ≡ fixed.div
            (fixed.of_nat (failures_in fixed (drop (length outcomes - 100) (codes fixed outcomes))))
            (fixed.of_nat (min (length outcomes) 100)))
error_rate-last_example =
    error_rate-last fixed [] "m" outcomes 9 (λ n lo hi. fixed-RankFits n (omega arith)) no_record
      (omega arith)

abbrev model : String → String → ModelRecord fixed
model id tier = record {
  model_id = id;
  version = "v1";
  tier = tier;
  tasks = "chat" ∷ [];
  cost_per_1k = 2;
  avg_latency_ms = pos 200;
  max_tokens = pos 4096;
  executor_addr = "e";
  enabled = true;
}

abbrev models : List (ModelRecord fixed)
models = model "large" "large" ∷ model "small" "small" ∷ []

abbrev request : ScoringRequest fixed
request = record {
  task = "chat";
  cost_budget = "low";
  latency_target_ms = pos 0;
  prompt_len = pos 10;
  tenant_mode = "";
  allowed_models = [];
  rollout_weights = [];
}

abbrev no_queue : String → ℤ
no_queue id = pos 0

score-perm_example :
    Perm
      (score fixed [] no_queue request models)
      (map (score_one fixed [] no_queue request) (select (eligible fixed request) models))
score-perm_example = score-perm fixed [] no_queue request models

score-IsRanked_example : IsRanked (better fixed) (score fixed [] no_queue request models)
score-IsRanked_example = score-IsRanked fixed [] no_queue request models (refl, (refl, tt))

abbrev tripped : CircuitBreaker
tripped = record {
  state = open_state;
  failures = 3;
  successes = 0;
  threshold = 3;
  success_req = 2;
  timeout = 20;
  last_fail = 90;
  model_id = "large";
}

abbrev asked : Asked fixed
asked = ask_all fixed (("large", tripped) ∷ []) models 100

ask_all-closed_example :
    (length asked.candidates + asked.blocked ≡ length models)
    × All (λ m. is_open (breaker_of asked.breakers m.model_id).state ≡ false) asked.candidates
ask_all-closed_example = ask_all-closed fixed (("large", tripped) ∷ []) models 100
