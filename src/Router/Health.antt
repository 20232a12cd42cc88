-- ===== src/Router/Health.antt =====
-- services/router/internal/scoring/scorer.go: `HealthTracker`, the last 100 outcomes and latencies
-- of each model. `head`, `total` and `errors` count requests and do not wrap; `now` is the clock.
pub mod Rate
use llm_platform.Common.{
  ℕ, ◌+◌, ◌%◌, min, String, Bool, Option, none, some, List, [], ◌∷◌, arith, eqb, length, replicate,
  set, take, if◌then◌else◌,
}
use llm_platform.Common.Dict.{Dict, get, put}
use llm_platform.Common.Float.{Float64}
use llm_platform.Percentile.{nearest_rank}
use llm_platform.Sort.{select}

module _ (fl : Float64) where
  open fl use {Num, of_nat, div, lt}

  pub record ModelHealth : Type 0 where
    pub outcomes : List ℕ
    pub latencies : List Num
    pub head : ℕ
    pub total : ℕ
    pub errors : ℕ
    pub p99_latency : Num
    pub last_update : ℕ

  abbrev pub HealthTracker : Type 0
  HealthTracker = Dict ModelHealth

  unfoldable pub new_model_health : ℕ → ModelHealth
  new_model_health now = record {
    outcomes = replicate 100 0;
    latencies = replicate 100 (of_nat 0);
    head = 0;
    total = 0;
    errors = 0;
    p99_latency = of_nat 0;
    last_update = now;
  }

  -- `get`; the entry that it adds is written by each caller, which puts back what it changed.
  unfoldable pub health_of : HealthTracker → String → ℕ → ModelHealth
  health_of h model_id now = elim (get h model_id) [ some r ↦ r | none ↦ new_model_health now ]

  -- `updateP99`; the outer option is the panic of an index out of range.
  unfoldable pub update_p99 : ModelHealth → Option ModelHealth
  update_p99 r =
      let lats = select (λ l. lt (of_nat 0) l) r.latencies in
      if eqb (length lats) 0 then some r else elim (nearest_rank fl lats) [
        | some v ↦ some (record r { p99_latency = v })
        | none ↦ none
      ]

  unfoldable pub note_success : ModelHealth → Num → ℕ → Option ModelHealth
  note_success r latency_ms now = update_p99 (record r {
    outcomes = set r.outcomes (r.head % 100) 1;
    latencies = set r.latencies (r.head % 100) latency_ms;
    head = r.head + 1;
    total = r.total + 1;
    last_update = now;
  })

  unfoldable pub note_failure : ModelHealth → ℕ → ModelHealth
  note_failure r now = record r {
    outcomes = set r.outcomes (r.head % 100) 0;
    latencies = set r.latencies (r.head % 100) (of_nat 0);
    head = r.head + 1;
    total = r.total + 1;
    errors = r.errors + 1;
    last_update = now;
  }

  -- `RecordSuccess` and `RecordFailure`
  unfoldable pub health_success : HealthTracker → String → Num → ℕ → Option HealthTracker
  health_success h model_id latency_ms now =
      elim (note_success (health_of h model_id now) latency_ms now) [
        | some r ↦ some (put h model_id r)
        | none ↦ none
      ]

  unfoldable pub health_failure : HealthTracker → String → ℕ → HealthTracker
  health_failure h model_id now = put h model_id (note_failure (health_of h model_id now) now)

  -- The zeros among the outcomes.
  unfoldable pub failures_in : List ℕ → ℕ
  failures_in [] = 0
  failures_in (o ∷ os) = let rest = failures_in os in if eqb o 0 then rest + 1 else rest

  unfoldable pub error_rate : HealthTracker → String → Num
  error_rate h model_id = elim (get h model_id) [
    | none ↦ of_nat 0
    | some r ↦
        let window = min r.total 100 in
        if eqb window 0
        then of_nat 0
        else div (of_nat (failures_in (take window r.outcomes))) (of_nat window)
  ]

  unfoldable pub p99_latency : HealthTracker → String → Num
  p99_latency h model_id = elim (get h model_id) [ some r ↦ r.p99_latency | none ↦ of_nat 0 ]
