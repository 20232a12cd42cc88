-- ===== src/ControlPlane/Quota.antt =====
-- services/control-plane/internal/quota/quota.go: `Enforcer`. The database answers are arguments: the
-- row of `quotas` that a query finds (`none` for an error, no row among them), and the day's sums. A
-- minute is the text that `time.Format` makes of the clock, an argument as well.
pub mod Minute
mod Examples
use llm_platform.Common.{
  ℕ, ◌+◌, ◌-◌, ◌*◌, String, Bool, true, false, not, ◌&&◌, Option, none, some, List, [], ◌∷◌, ltb,
  if◌then◌else◌, ◌==◌,
}
use llm_platform.Common.Int.{ℤ, pos, ltb_ℤ, add_int64, ◌-ℤ◌}
use llm_platform.Common.Dict.{Dict, get, put, retain}
use llm_platform.Common.Float.{Float64}

module _ (fl : Float64) where
  open fl use {Num, of_nat, of_int, lit, add, sub, mul, div, lt}

  pub record Config : Type 0 where
    pub tenant_id : String
    pub tokens_per_minute : ℤ
    pub tokens_per_day : ℤ
    pub budget_usd_per_day : Num
    pub max_context_tokens : ℤ

  unfoldable pub default_config : String → Config
  default_config tenant_id = record {
    tenant_id = tenant_id;
    tokens_per_minute = pos 100_000;
    tokens_per_day = pos 5_000_000;
    budget_usd_per_day = lit 50 0;
    max_context_tokens = pos 8192;
  }

  pub record Usage : Type 0 where
    pub config : Config
    pub used_today : ℤ
    pub spent_today : Num
    pub used_minute : ℤ
    pub window_key : String

  -- A difference of int64 that does not overflow: the limits and sums are not negative.
  unfoldable pub tokens_remaining_day : Usage → ℤ
  tokens_remaining_day u =
      let rem = u.config.tokens_per_day -ℤ u.used_today in if ltb_ℤ rem (pos 0) then pos 0 else rem

  unfoldable pub budget_remaining_day : Usage → Num
  budget_remaining_day u =
      let rem = sub u.config.budget_usd_per_day u.spent_today in
      if lt rem (of_nat 0) then of_nat 0 else rem

  pub record CheckResult : Type 0 where
    pub allowed : Bool
    pub reason : String

  abbrev pub allowed_result : CheckResult
  allowed_result = record { allowed = true; reason = "" }

  abbrev pub denied_token_day : CheckResult
  denied_token_day = record { allowed = false; reason = "daily token quota exceeded" }

  abbrev pub denied_budget_day : CheckResult
  denied_budget_day = record { allowed = false; reason = "daily spend budget exceeded" }

  abbrev pub denied_token_minute : CheckResult
  denied_token_minute = record { allowed = false; reason = "per-minute token quota exceeded" }

  abbrev pub denied_context : CheckResult
  denied_context = record { allowed = false; reason = "context length exceeds tenant maximum" }

  pub record ConfigEntry : Type 0 where
    pub cfg : Config
    pub fetched_at : ℕ

  pub record MinuteCounter : Type 0 where
    pub used : ℤ
    pub window : String

  pub record Enforcer : Type 0 where
    pub cache : Dict ConfigEntry
    pub minute_counts : Dict MinuteCounter

  unfoldable pub new_enforcer : Enforcer
  new_enforcer = record { cache = []; minute_counts = [] }

  -- `loadConfig` with `row` for the answer to its query, which it makes on a miss only.
  unfoldable pub load_config : Enforcer → String → ℕ → Option Config → Enforcer × Option Config
  load_config e tenant_id now row =
      let hit : Option Config = elim (get e.cache tenant_id) [
        | none ↦ none
        | some entry ↦
            if ltb (now - entry.fetched_at) (60 * 1_000_000_000) then some entry.cfg else none
      ] in
      let miss : Enforcer × Option Config = elim row [
        | none ↦ (e, none)
        | some cfg ↦ (
          record e { cache = put e.cache tenant_id (record { cfg = cfg; fetched_at = now }) },
          some cfg,
        )
      ] in
      elim hit [ some cfg ↦ (e, some cfg) | none ↦ miss ]

  -- The tenant's counter, made new if there is none for this minute.
  unfoldable pub counter_at : Enforcer → String → String → MinuteCounter
  counter_at e tenant_id key =
      let new : MinuteCounter = record { used = pos 0; window = key } in
      elim (get e.minute_counts tenant_id) [
        | none ↦ new
        | some mc ↦ if mc.window == key then mc else new
      ]

  unfoldable pub check_minute : Enforcer → String → ℤ → Config → String → Enforcer × Bool
  check_minute e tenant_id estimated_tokens cfg key =
      let mc = counter_at e tenant_id key in
      (
        record e { minute_counts = put e.minute_counts tenant_id mc },
        not (ltb_ℤ cfg.tokens_per_minute (add_int64 mc.used estimated_tokens)),
      )

  abbrev pub or_default : Option Config → String → Config
  or_default none tenant_id = default_config tenant_id
  or_default (some cfg) tenant_id = cfg

  -- The day's limits, on the sums that the query of `dayUsage` gave.
  unfoldable pub check_day : Config → ℤ → ℤ × Num → CheckResult
  check_day cfg estimated_tokens usage =
      if ltb_ℤ cfg.tokens_per_day (add_int64 usage.0 estimated_tokens)
      then denied_token_day
      else if lt cfg.budget_usd_per_day
          (add usage.1 (mul (div (of_int estimated_tokens) (lit 1000 0)) (lit 1 4)))
      then denied_budget_day
      else allowed_result

  unfoldable pub check :
      Enforcer → String → ℤ → ℤ → ℕ → String → Option Config → ℤ × Num → Enforcer × CheckResult
  check e tenant_id estimated_tokens context_tokens now key row usage =
      let (e', found) = load_config e tenant_id now row in
      let cfg = or_default found tenant_id in
      let (e'', fits) = check_minute e' tenant_id estimated_tokens cfg key in
      if ltb_ℤ cfg.max_context_tokens context_tokens
      then (e', denied_context)
      else if not fits
      then (e'', denied_token_minute)
      else (e'', check_day cfg estimated_tokens usage)

  -- `Record`, its part in memory; the rows that it adds to the database are the database's.
  unfoldable pub record_usage : Enforcer → String → ℤ → String → Enforcer
  record_usage e tenant_id tokens_used minute_key = elim (get e.minute_counts tenant_id) [
    | none ↦ e
    | some mc ↦
        if mc.window == minute_key
        then record e {
          minute_counts =
              put e.minute_counts tenant_id (record mc { used = add_int64 mc.used tokens_used });
        }
        else e
  ]

  -- `UpsertConfig` after its statement has been executed without error; it changes nothing otherwise.
  unfoldable pub upsert_config : Enforcer → Config → ℕ → Enforcer
  upsert_config e cfg now = record e {
    cache = put e.cache cfg.tenant_id (record { cfg = cfg; fetched_at = now });
  }

  unfoldable pub get_usage :
      Enforcer → String → ℕ → String → Option Config → ℤ × Num → Enforcer × Usage
  get_usage e tenant_id now day_key row usage =
      let (e', found) = load_config e tenant_id now row in
      (
        e',
        record {
          config = or_default found tenant_id;
          used_today = usage.0;
          spent_today = usage.1;
          used_minute = pos 0;
          window_key = day_key;
        },
      )

  -- One turn of `flushMinuteLoop`.
  unfoldable pub flush_minute : Enforcer → String → Enforcer
  flush_minute e key = record e { minute_counts = retain (λ mc. mc.window == key) e.minute_counts }
