-- ===== src/Router/Store.antt =====
-- services/router/internal/repo/store.go: what `LoadTenantPolicy`, `LoadModels` and `LoadRollouts`
-- make of the rows that the database gives. The rows and the decoding of JSON are arguments.
use llm_platform.Common.{
  String, Bool, true, Option, none, some, List, [], ◌∷◌, ltb, length, if◌then◌else◌, Result, ok,
  err, ◌>>=◌,
}
use llm_platform.Common.Int.{ℤ, pos, eqb_ℤ}
use llm_platform.Common.Dict.{Dict, put}
use llm_platform.Common.Float.{Float64}
use llm_platform.Router.Policies.{TenantPolicy, default_policy}
use llm_platform.Router.Scorer.{ModelRecord}
use llm_platform.Router.Candidates.{RolloutConfig}

-- What `QueryRow(…).Scan` ends in.
pub data Scanned (A : Type 0) : Type 0 where
  no_rows : Scanned A
  failed : String → Scanned A
  row : A → Scanned A

pub record TenantRow : Type 0 where
  pub tenant_id : String
  pub routing_mode : String
  pub allowed_models : String
  pub rate_limit : ℤ
  pub burst_limit : ℤ
  pub enabled : ℤ

-- `for _, m := range allowed { p.AllowedModels[m] = true }`
unfoldable pub allow_each : Dict Bool → List String → Dict Bool
allow_each p [] = p
allow_each p (m ∷ ms) = allow_each (put p m true) ms

-- `LoadTenantPolicy`; `unmarshal` is `json.Unmarshal` into a `[]string`, an error being `none`.
unfoldable pub load_tenant_policy :
    (String → Option (List String)) → String → Scanned TenantRow → Result String TenantPolicy
load_tenant_policy unmarshal tenant_id no_rows = ok (default_policy tenant_id)
load_tenant_policy unmarshal tenant_id (failed e) = err e
load_tenant_policy unmarshal tenant_id (row r) = ok (record {
  tenant_id = r.tenant_id;
  routing_mode = r.routing_mode;
  allowed_models = elim (unmarshal r.allowed_models) [
    | some allowed ↦ if ltb 0 (length allowed) then allow_each [] allowed else []
    | none ↦ []
  ];
  rate_limit = r.rate_limit;
  burst_limit = r.burst_limit;
  enabled = eqb_ℤ r.enabled (pos 1);
})

module _ (fl : Float64) where
  pub record ModelRow : Type 0 where
    pub model_id : String
    pub version : String
    pub tier : String
    pub cost_per_1k : fl.Num
    pub avg_latency_ms : ℤ
    pub max_tokens : ℤ
    pub executor_addr : String

  -- The loop of `LoadModels` over the rows, one of which may not scan; `load_tasks` is `loadTasks` and
  -- `rows_err` what `rows.Err()` says at the end.
  unfoldable pub load_models :
      (String → List String)
      → List (Result String ModelRow)
      → Result String (Unit {0})
      → Result String (List (ModelRecord fl))
  load_models load_tasks [] rows_err = rows_err >>= λ _. ok []
  load_models load_tasks (err e ∷ rows) rows_err = err e
  load_models load_tasks (ok r ∷ rows) rows_err = load_models load_tasks rows rows_err >>= λ out.
      ok (
        record {
          model_id = r.model_id;
          version = r.version;
          tier = r.tier;
          tasks = load_tasks r.model_id;
          cost_per_1k = r.cost_per_1k;
          avg_latency_ms = r.avg_latency_ms;
          max_tokens = r.max_tokens;
          executor_addr = r.executor_addr;
          enabled = true;
        }
        ∷ out)

  pub record RolloutRow : Type 0 where
    pub rollout_id : String
    pub base_model_id : String
    pub canary_model_id : String
    pub canary_pct : fl.Num
    pub auto_rollback : ℤ
    pub max_p99_ratio : fl.Num
    pub max_error_rate : fl.Num
    pub enabled : Bool

  -- The loop of `LoadRollouts`: a row's scan is not checked.
  unfoldable pub load_rollouts : List RolloutRow → List (RolloutConfig fl)
  load_rollouts [] = []
  load_rollouts (r ∷ rows) =
      record {
        rollout_id = r.rollout_id;
        base_model_id = r.base_model_id;
        canary_model_id = r.canary_model_id;
        canary_pct = r.canary_pct;
        auto_rollback = eqb_ℤ r.auto_rollback (pos 1);
        max_p99_ratio = r.max_p99_ratio;
        max_error_rate = r.max_error_rate;
        enabled = r.enabled;
      }
      ∷ load_rollouts rows
