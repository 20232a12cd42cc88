-- ===== src/Router/Scorer.antt =====
-- services/router/internal/scoring/scorer.go: the model record and `Scorer`. `queue_depth` is the
-- `QueueDepthReporter`; the four scores, their weights and the ranking follow the source.
pub mod Ranking
use llm_platform.Common.{
  ℕ, ◌+◌, ◌-◌, ◌%◌, ◌^◌, String, Bool, true, false, not, ◌&&◌, Option, none, some, List, [], ◌∷◌,
  length, ltb, if◌then◌else◌, ◌==◌,
}
use llm_platform.Common.Int.{ℤ, pos, negsuc, to_bits, ltb_ℤ}
use llm_platform.Common.Dict.{Dict, get}
use llm_platform.Common.Float.{Float64}
use llm_platform.Sort.{insertion_sort}
use llm_platform.Router.Health.{HealthTracker, error_rate}

-- Go's conversion `int32(n)`.
abbrev pub to_int32 : ℤ → ℤ
to_int32 n = let b = to_bits n % 2 ^ 32 in if ltb b (2 ^ 31) then pos b else negsuc (2 ^ 32 - 1 - b)

-- `noopQueue.QueueDepth`, which `NewScorer` takes when it is given no reporter
abbrev pub noop_depth : String → ℤ
noop_depth model_id = pos 0

module _ (fl : Float64) where
  open fl use {Num, of_nat, of_int, to_int, lit, add, sub, mul, div, eq, lt, fmax}

  pub record ModelRecord : Type 0 where
    pub model_id : String
    pub version : String
    pub tier : String
    pub tasks : List String
    pub cost_per_1k : Num
    pub avg_latency_ms : ℤ
    pub max_tokens : ℤ
    pub executor_addr : String
    pub enabled : Bool

  unfoldable pub any_is : String → List String → Bool
  any_is task [] = false
  any_is task (t ∷ ts) = let rest = any_is task ts in if t == task then true else rest

  unfoldable pub supports_task : ModelRecord → String → Bool
  supports_task m task = any_is task m.tasks

  pub record Weights : Type 0 where
    pub latency : Num
    pub cost : Num
    pub health : Num
    pub queue : Num
    pub policy : Num

  abbrev pub balanced : Weights
  balanced = record {
    latency = lit 25 2;
    cost = lit 25 2;
    health = lit 25 2;
    queue = lit 15 2;
    policy = lit 10 2;
  }

  -- `modeWeights[mode]`, the balanced ones for a mode that is not there, the empty one included.
  unfoldable pub mode_weights : String → Weights
  mode_weights mode =
      if mode == "latency_optimized"
      then record {
        latency = lit 50 2;
        cost = lit 10 2;
        health = lit 25 2;
        queue = lit 10 2;
        policy = lit 5 2;
      }
      else if mode == "cost_optimized"
      then record {
        latency = lit 10 2;
        cost = lit 50 2;
        health = lit 20 2;
        queue = lit 10 2;
        policy = lit 10 2;
      }
      else balanced

  pub record CandidateScore : Type 0 where
    pub model_id : String
    pub version : String
    pub executor_addr : String
    pub total_score : Num
    pub latency_score : Num
    pub cost_score : Num
    pub health_score : Num
    pub queue_score : Num
    pub policy_score : Num
    pub rollout_pct : Num
    pub reason : String

  pub record ScoringRequest : Type 0 where
    pub task : String
    pub cost_budget : String
    pub latency_target_ms : ℤ
    pub prompt_len : ℤ
    pub tenant_mode : String
    -- nil and an empty map both allow every model
    pub allowed_models : Dict Bool
    pub rollout_weights : Dict Num

  unfoldable pub latency_score : ModelRecord → ScoringRequest → Num
  latency_score m req =
      if ltb_ℤ (pos 0) req.latency_target_ms
        && ltb_ℤ req.latency_target_ms (to_int32 m.avg_latency_ms)
      then lit 0 0
      else if m.tier == "small"
      then lit 1 0
      else if m.tier == "medium"
      then lit 6 1
      else lit 3 1

  unfoldable pub cost_score : ModelRecord → ScoringRequest → Num
  cost_score m req =
      if req.cost_budget == "low"
      then (if m.tier == "small" then lit 1 0 else if m.tier == "medium" then lit 3 1 else lit 0 0)
      else if req.cost_budget == "high"
      then (if m.tier == "large" then lit 1 0 else if m.tier == "medium" then lit 7 1 else lit 3 1)
      else fmax (of_nat 0) (sub (lit 1 0) (div m.cost_per_1k (lit 2 2)))

  unfoldable pub health_score : HealthTracker fl → ModelRecord → Num
  health_score h m = fmax (of_nat 0) (sub (lit 1 0) (mul (error_rate fl h m.model_id) (of_nat 5)))

  unfoldable pub queue_score : (String → ℤ) → ModelRecord → Num
  queue_score queue_depth m =
      let depth = queue_depth m.model_id in
      if not (ltb_ℤ (pos 0) depth)
      then lit 1 0
      else fmax (of_nat 0) (sub (lit 1 0) (div (of_int depth) (lit 50 0)))

  unfoldable pub policy_score : ModelRecord → ScoringRequest → Num
  policy_score m req =
      let threshold = to_int (mul (mul (of_int m.max_tokens) (of_nat 3)) (of_nat 4)) in
      if ltb_ℤ threshold req.prompt_len then lit 2 1 else lit 1 0

  unfoldable pub describe_reason : ModelRecord → ScoringRequest → String
  describe_reason m req =
      if (req.cost_budget == "low") && (m.tier == "small")
      then "cost-budget=low→small"
      else if (req.cost_budget == "high") && (m.tier == "large")
      then "cost-budget=high→large"
      else if ltb_ℤ (pos 0) req.latency_target_ms
          && not (ltb_ℤ req.latency_target_ms (to_int32 m.avg_latency_ms))
      then "latency-target-met"
      else "balanced-score"

  -- A missing key reads as false.
  abbrev pub is_true : Option Bool → Bool
  is_true none = false
  is_true (some b) = b

  -- The hard filters, in order.
  unfoldable pub eligible : ScoringRequest → ModelRecord → Bool
  eligible req m =
      if not m.enabled
      then false
      else if not (supports_task m req.task)
      then false
      else if ltb 0 (length req.allowed_models)
      then is_true (get req.allowed_models m.model_id)
      else true

  -- `RolloutWeights[id]`, 0 for a missing key, and 1 in place of 0.
  unfoldable pub rollout_of : ScoringRequest → String → Num
  rollout_of req id =
      let rollout : Num = elim (get req.rollout_weights id) [ some w ↦ w | none ↦ of_nat 0 ] in
      if eq rollout (of_nat 0) then lit 1 0 else rollout

  unfoldable pub score_one :
      HealthTracker fl → (String → ℤ) → ScoringRequest → ModelRecord → CandidateScore
  score_one h queue_depth req m =
      let w = mode_weights req.tenant_mode in
      let ls = latency_score m req in
      let cs = cost_score m req in
      let hs = health_score h m in
      let qs = queue_score queue_depth m in
      let ps = policy_score m req in
      let rollout = rollout_of req m.model_id in
      record {
        model_id = m.model_id;
        version = m.version;
        executor_addr = m.executor_addr;
        total_score =
            mul
              (add
                (add (add (add (mul w.latency ls) (mul w.cost cs)) (mul w.health hs))
                  (mul w.queue qs))
                (mul w.policy ps))
              rollout;
        latency_score = ls;
        cost_score = cs;
        health_score = hs;
        queue_score = qs;
        policy_score = ps;
        rollout_pct = rollout;
        reason = describe_reason m req;
      }

  unfoldable pub score_all :
      HealthTracker fl → (String → ℤ) → ScoringRequest → List ModelRecord → List CandidateScore
  score_all h queue_depth req [] = []
  score_all h queue_depth req (m ∷ ms) =
      let rest = score_all h queue_depth req ms in
      if eligible req m then score_one h queue_depth req m ∷ rest else rest

  abbrev pub better : CandidateScore → CandidateScore → Bool
  better a b = lt b.total_score a.total_score

  -- `Scorer.Score`
  unfoldable pub score :
      HealthTracker fl → (String → ℤ) → ScoringRequest → List ModelRecord → List CandidateScore
  unfolding insertion_sort
  score h queue_depth req candidates =
      insertion_sort better (score_all h queue_depth req candidates)
