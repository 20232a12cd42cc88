-- ===== src/Router/Limiter.antt =====
-- services/router/internal/policy/policy.go: `RateLimiter`, a token bucket per tenant. `seconds` is
-- `time.Duration.Seconds`; times are nanoseconds of the monotonic clock.
pub mod Burst
use llm_platform.Common.{ℕ, ◌-◌, String, Bool, true, false, Option, none, some, if◌then◌else◌}
use llm_platform.Common.Int.{ℤ}
use llm_platform.Common.Dict.{Dict, get, put}
use llm_platform.Common.Float.{Float64}

module _ (fl : Float64) (seconds : ℕ → fl.Num) where
  open fl use {Num, of_nat, of_int, add, sub, mul, lt, le}

  pub record Bucket : Type 0 where
    pub tokens : Num
    pub max_burst : Num
    pub rate : Num
    pub last_fill : ℕ

  abbrev pub RateLimiter : Type 0
  RateLimiter = Dict Bucket

  unfoldable pub min64 : Num → Num → Num
  min64 a b = if lt a b then a else b

  -- `Allow` on the bucket of the tenant.
  unfoldable pub take_token : Bucket → ℤ → ℤ → ℕ → Bucket × Bool
  take_token b rate_rps burst now =
      let max_burst = of_int burst in
      let rate = of_int rate_rps in
      let elapsed = seconds (now - b.last_fill) in
      let tokens = min64 max_burst (add b.tokens (mul elapsed rate)) in
      if le (of_nat 1) tokens
      then (
        record {
          tokens = sub tokens (of_nat 1);
          max_burst = max_burst;
          rate = rate;
          last_fill = now;
        },
        true,
      )
      else (record { tokens = tokens; max_burst = max_burst; rate = rate; last_fill = now }, false)

  unfoldable pub new_bucket : ℤ → ℤ → ℕ → Bucket
  new_bucket rate_rps burst now = record {
    tokens = of_int burst;
    max_burst = of_int burst;
    rate = of_int rate_rps;
    last_fill = now;
  }

  -- `created` and `now` are the two readings of the clock.
  unfoldable pub allow : RateLimiter → String → ℤ → ℤ → ℕ → ℕ → RateLimiter × Bool
  allow rl tenant_id rate_rps burst created now =
      let b : Bucket = elim (get rl tenant_id) [
        | some b ↦ b
        | none ↦ new_bucket rate_rps burst created
      ] in
      let (b', allowed) = take_token b rate_rps burst now in (put rl tenant_id b', allowed)
