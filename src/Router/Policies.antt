-- ===== src/Router/Policies.antt =====
-- services/router/internal/policy/policy.go: `TenantPolicy`, `PolicyStore` with its 30 s lifetime, and
-- the rejection counters. Times are nanoseconds of the monotonic clock.
use llm_platform.Common.{
  ℕ, ◌-◌, ◌*◌, ◌≡◌, refl, String, Bool, true, Option, none, some, [], Bool-cases, inl, inr, ap, ◌∙◌,
  ltb, if◌then◌else◌, ◌==◌, add64,
}
use llm_platform.Common.Int.{ℤ, pos}
use llm_platform.Common.Dict.{Dict, get, put, get-put}

pub record TenantPolicy : Type 0 where
  pub tenant_id : String
  pub routing_mode : String
  pub allowed_models : Dict Bool
  pub rate_limit : ℤ
  pub burst_limit : ℤ
  pub enabled : Bool

pub record PolicyEntry : Type 0 where
  pub policy : TenantPolicy
  pub fetched_at : ℕ

abbrev pub policy_ttl : ℕ
policy_ttl = 30 * 1_000_000_000

abbrev pub PolicyStore : Type 0
PolicyStore = Dict PolicyEntry

-- The entry that the lookup found, if it is still to be used.
abbrev pub live : Option PolicyEntry → ℕ → Option TenantPolicy
live none now = none
live (some e) now = if ltb policy_ttl (now - e.fetched_at) then none else some e.policy

-- `Get`: a miss is `none`.
unfoldable pub get_policy : PolicyStore → String → ℕ → Option TenantPolicy
get_policy s tenant_id now = live (get s tenant_id) now

unfoldable pub set_policy : PolicyStore → TenantPolicy → ℕ → PolicyStore
set_policy s p now = put s p.tenant_id (record { policy = p; fetched_at = now })

unfoldable pub default_policy : String → TenantPolicy
default_policy tenant_id = record {
  tenant_id = tenant_id;
  routing_mode = "balanced";
  allowed_models = [];
  rate_limit = pos 50;
  burst_limit = pos 100;
  enabled = true;
}

pub record RejectMetrics : Type 0 where
  pub rate_limited : ℕ
  pub cb_blocked : ℕ
  pub policy_denied : ℕ

unfoldable pub add_rate_limited : RejectMetrics → RejectMetrics
add_rate_limited m = record m { rate_limited = add64 m.rate_limited 1 }

unfoldable pub add_cb_blocked : RejectMetrics → RejectMetrics
add_cb_blocked m = record m { cb_blocked = add64 m.cb_blocked 1 }

unfoldable pub add_policy_denied : RejectMetrics → RejectMetrics
add_policy_denied m = record m { policy_denied = add64 m.policy_denied 1 }

-- A policy that was set is returned for its tenant while it is at most 30 s old and no longer; what
-- is returned for any other tenant is what was before.
pub get_policy-set_policy :
    (s : PolicyStore) (p : TenantPolicy) (set_at now : ℕ) (tenant_id : String)
    → get_policy (set_policy s p set_at) tenant_id now ≡ (
        if p.tenant_id == tenant_id
        then (if ltb policy_ttl (now - set_at) then none else some p)
        else get_policy s tenant_id now)
unfolding get_policy set_policy
get_policy-set_policy s p set_at now tenant_id =
    ap (λ e. live e now)
      (get-put s p.tenant_id tenant_id (record { policy = p; fetched_at = set_at }))
    ∙ elim (Bool-cases (p.tenant_id == tenant_id)) [ inl e ↦ rw e refl | inr e ↦ rw e refl ]
