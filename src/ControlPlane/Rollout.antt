-- ===== src/ControlPlane/Rollout.antt =====
-- services/control-plane/internal/rollout/rollout.go: `Manager`, its map of configurations. What the
-- database answers is an argument; `b` of `upsert` and `rollback` says that the statement had no error.
pub mod Weights
mod Examples
use llm_platform.Common.{
  ℕ, String, Bool, true, false, not, ◌&&◌, ◌||◌, Option, none, some, List, [], ◌∷◌, if◌then◌else◌,
  ◌==◌, Result, ok, err,
}
use llm_platform.Common.Int.{ℤ, pos, eqb_ℤ}
use llm_platform.Common.Dict.{Dict, get, put}
use llm_platform.Common.Float.{Float64}

module _ (fl : Float64) where
  open fl use {Num, of_nat, of_int, lit, sub, div, lt}

  pub record Config : Type 0 where
    pub rollout_id : String
    pub base_model_id : String
    pub canary_model_id : String
    pub canary_pct : Num
    pub auto_rollback : Bool
    pub max_p99_ratio : Num
    pub max_error_rate : Num
    pub enabled : Bool

  pub record WindowMetrics : Type 0 where
    pub model_id : String
    pub window_key : String
    pub requests : ℤ
    pub errors : ℤ
    pub p99_lat_ms : Num
    pub avg_tokens : Num
    pub total_cost : Num

  unfoldable pub error_rate : WindowMetrics → Num
  error_rate m =
      if eqb_ℤ m.requests (pos 0) then of_nat 0 else div (of_int m.errors) (of_int m.requests)

  abbrev pub Manager : Type 0
  Manager = Dict Config

  pub data UpsertError : Type 0 where
    rollout_id_required base_model_id_required canary_model_id_required canary_pct_out_of_range
          database :
        UpsertError

  unfoldable pub upsert : Manager → Config → Bool → Manager × Result UpsertError (Unit {0})
  upsert m cfg b =
      if cfg.rollout_id == ""
      then (m, err rollout_id_required)
      else if cfg.base_model_id == ""
      then (m, err base_model_id_required)
      else if cfg.canary_model_id == ""
      then (m, err canary_model_id_required)
      else if lt cfg.canary_pct (of_nat 0) || lt (of_nat 1) cfg.canary_pct
      then (m, err canary_pct_out_of_range)
      else if not b
      then (m, err database)
      else (put m cfg.rollout_id cfg, ok tt)

  -- `Rollback`; the returned Boolean says that there was no error.
  unfoldable pub rollback : Manager → String → Bool → Manager × Bool
  rollback m rollout_id b = if not b then (m, false) else elim (get m rollout_id) [
    | some cfg ↦ (put m rollout_id (record cfg { enabled = false }), true)
    | none ↦ (m, true)
  ]

  -- `for _, cfg := range configs`, with the weights so far.
  unfoldable pub add_weights : Dict Num → List Config → Dict Num
  add_weights weights [] = weights
  add_weights weights (cfg ∷ cfgs) =
      let kept = add_weights weights cfgs in
      let with_cfg =
        add_weights
          (put (put weights cfg.base_model_id (sub (lit 1 0) cfg.canary_pct)) cfg.canary_model_id
            cfg.canary_pct)
          cfgs in
      if not cfg.enabled then kept else with_cfg

  -- The configurations of the map in the order of the range.
  unfoldable pub configs_of : Manager → List Config
  configs_of [] = []
  configs_of ((id, cfg) ∷ m) = cfg ∷ configs_of m

  unfoldable pub rollout_weights : Manager → Dict Num
  rollout_weights m = add_weights [] (configs_of m)

  -- `shouldRollback` on what its two queries gave: the p99 and error rate of the canary, the p99 of
  -- the base.
  unfoldable pub should_rollback : Config → Num → Num → Num → Bool
  should_rollback cfg canary_p99 canary_err base_p99 =
      if lt cfg.max_error_rate canary_err
      then true
      else if lt (of_nat 0) base_p99 && lt cfg.max_p99_ratio (div canary_p99 base_p99)
      then true
      else false

  -- `evaluateAll` on the listed configurations, no statement having an error; `bad` is `shouldRollback`
  -- with its queries.
  unfoldable pub evaluate_all : Manager → List Config → (Config → Bool) → Manager
  evaluate_all m [] bad = m
  evaluate_all m (cfg ∷ cfgs) bad =
      let skipped = evaluate_all m cfgs bad in
      let rolled = evaluate_all (rollback m cfg.rollout_id true).0 cfgs bad in
      if not cfg.enabled || not cfg.auto_rollback
      then skipped
      else if bad cfg
      then rolled
      else skipped
