-- ===== src/ControlPlane/Quota/Examples.antt =====
-- Quota checks on concrete tenants.
use llm_platform.Common.{ℕ, ◌+◌, ◌^◌, ◌<◌, ◌≡◌, refl, true, some, List, [], ◌∷◌, arith}
use llm_platform.Common.Int.{pos, ◌+ℤ◌, add_int64}
use llm_platform.Common.Dict.{get}
use llm_platform.Common.Fixed.{fixed}
use llm_platform.ControlPlane.Quota.{
  Config, Enforcer, counter_at, check_minute, record_usage, load_config, check, check_day,
}
use llm_platform.ControlPlane.Quota.Minute.{
  used_at, record_each, sum, recorded-counted, unchecked-lost,
}

abbrev plan : Config fixed
plan = record {
  tenant_id = "t";
  tokens_per_minute = pos 100;
  tokens_per_day = pos 1000;
  budget_usd_per_day = 50000;
  max_context_tokens = pos 8192;
}

abbrev ten : Enforcer fixed
ten = record { cache = []; minute_counts = ("t", record { used = pos 10; window = "10:00" }) ∷ [] }

ten_used : used_at fixed ten "t" "10:00" ≡ pos 10
unfolding used_at counter_at get
ten_used = refl

abbrev tokens : List ℕ
tokens = 5 ∷ 7 ∷ []

tokens_small : 10 + sum fixed tokens < 2 ^ 63
unfolding sum
tokens_small = omega arith

recorded-counted_example :
    used_at fixed
      (record_each fixed (check_minute fixed ten "t" (pos 20) plan "10:00").0 "t" "10:00" tokens)
      "t"
      "10:00"
    ≡ pos (10 + sum fixed tokens)
recorded-counted_example =
    recorded-counted fixed ten "t" "10:00" (pos 20) plan 10 tokens ten_used tokens_small

ten_entry : get ten.minute_counts "t" ≡ some (record { used = pos 10; window = "10:00" })
unfolding get
ten_entry = refl

unchecked-lost_example :
    (record_usage fixed ten "t" (pos 5) "10:01" ≡ ten) × (used_at fixed ten "t" "10:01" ≡ pos 0)
unchecked-lost_example =
    unchecked-lost fixed ten "t" "10:01" (pos 5) (record { used = pos 10; window = "10:00" })
      ten_entry refl

ten_allowed :
    (check fixed ten "t" (pos 20) (pos 100) 5 "10:00" (some plan) (pos 0, 0)).1.allowed ≡ true
unfolding check load_config check_minute counter_at check_day get add_int64 ◌+ℤ◌
ten_allowed = refl
