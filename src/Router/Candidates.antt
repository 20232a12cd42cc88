-- ===== src/Router/Candidates.antt =====
-- services/router/cmd/main.go: the loop of `Route` that asks the breaker of every model, and the
-- weights of `canaryState`. The loop's readings of the clock are one, `now`.
pub mod Breakers
use llm_platform.Common.{ℕ, ◌+◌, ◌-◌, String, Bool, true, false, not, List, [], ◌∷◌, if◌then◌else◌}
use llm_platform.Common.Dict.{Dict, put}
use llm_platform.Common.Float.{Float64}
use llm_platform.Router.Breaker.{Registry, allow_at}
use llm_platform.Router.Scorer.{ModelRecord}

module _ (fl : Float64) where
  open fl use {Num, lit, sub}

  -- `RolloutConfig` of services/router/internal/repo/store.go
  pub record RolloutConfig : Type 0 where
    pub rollout_id : String
    pub base_model_id : String
    pub canary_model_id : String
    pub canary_pct : Num
    pub auto_rollback : Bool
    pub max_p99_ratio : Num
    pub max_error_rate : Num
    pub enabled : Bool

  -- `rolloutWeights`, with the weights so far.
  unfoldable pub canary_weights : Dict Num → List RolloutConfig → Dict Num
  canary_weights weights [] = weights
  canary_weights weights (cfg ∷ cfgs) =
      let skipped = canary_weights weights cfgs in
      let added =
        canary_weights
          (put (put weights cfg.base_model_id (sub (lit 1 0) cfg.canary_pct)) cfg.canary_model_id
            cfg.canary_pct)
          cfgs in
      if not cfg.enabled then skipped else added

  -- The breakers, the candidates and the number of models blocked, after the loop.
  pub record Asked : Type 0 where
    pub breakers : Registry
    pub candidates : List (ModelRecord fl)
    pub blocked : ℕ

  unfoldable pub ask_all : Registry → List (ModelRecord fl) → ℕ → Asked
  ask_all r [] now = record { breakers = r; candidates = []; blocked = 0 }
  ask_all r (m ∷ ms) now =
      let (r', allowed) = allow_at r m.model_id now in
      let rest = ask_all r' ms now in
      if allowed
      then record rest { candidates = m ∷ rest.candidates }
      else record rest { blocked = rest.blocked + 1 }
