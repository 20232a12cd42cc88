-- ===== src/ControlPlane/Rollout/Examples.antt =====
-- Rollouts on concrete models.
use llm_platform.Common.{Bool, true, false, [], ◌∷◌}
use llm_platform.Common.Int.{pos}
use llm_platform.Common.Fixed.{fixed}
use llm_platform.ControlPlane.Rollout.{Config, Manager, rollout_weights, should_rollback}
use llm_platform.Router.Scorer.{ScoringRequest}

abbrev canary : Config fixed
canary = record {
  rollout_id = "r1";
  base_model_id = "a";
  canary_model_id = "b";
  canary_pct = 0;
  auto_rollback = true;
  max_p99_ratio = 2000;
  max_error_rate = 50;
  enabled = true;
}

abbrev other : Config fixed
other = record canary { rollout_id = "r2"; auto_rollback = false }

abbrev both : Manager fixed
both = ("r1", canary) ∷ ("r2", other) ∷ []

abbrev bad : Config fixed → Bool
bad cfg = should_rollback fixed cfg 9000 100 3000

abbrev request : ScoringRequest fixed
request = record {
  task = "chat";
  cost_budget = "";
  latency_target_ms = pos 0;
  prompt_len = pos 10;
  tenant_mode = "balanced";
  allowed_models = [];
  rollout_weights = rollout_weights fixed (("r1", canary) ∷ []);
}
