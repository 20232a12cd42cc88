-- ===== src/Router/Breaker.antt =====
-- services/router/internal/policy/policy.go: `CircuitBreaker` and its `Registry`. The mutex makes each
-- method one step; `now` is what `time.Now` reads in it, in nanoseconds of the monotonic clock, so
-- `time.Since(t)` is `now - t`.
pub mod States
pub mod Recovery
mod Examples
use llm_platform.Common.{
  ℕ, suc, ◌+◌, ◌-◌, ◌*◌, ◌<◌, String, Bool, true, false, ◌||◌, Option, some, none, List, [], ltb,
  leb, if◌then◌else◌,
}
use llm_platform.Common.Dict.{Dict, get, put, map_values}

pub data State : Type 0 where
  closed open_state half_open : State

pub record CircuitBreaker : Type 0 where
  pub state : State
  pub failures : ℕ
  pub successes : ℕ
  pub threshold : ℕ
  pub success_req : ℕ
  pub timeout : ℕ
  pub last_fail : ℕ
  pub model_id : String

unfoldable pub new_circuit_breaker : String → CircuitBreaker
new_circuit_breaker model_id = record {
  state = closed;
  failures = 0;
  successes = 0;
  threshold = 3;
  success_req = 2;
  timeout = 20 * 1_000_000_000;
  last_fail = 0;
  model_id = model_id;
}

unfoldable pub allow : CircuitBreaker → ℕ → CircuitBreaker × Bool
allow cb now = elim cb.state [
  | open_state ↦
      if ltb cb.timeout (now - cb.last_fail)
      then (record cb { state = half_open; successes = 0 }, true)
      else (cb, false)
  | _ ↦ (cb, true)
]

unfoldable pub record_success : CircuitBreaker → CircuitBreaker
record_success cb = elim cb.state [
  | half_open ↦ record cb {
    failures = 0;
    successes = cb.successes + 1;
    state = if leb cb.success_req (cb.successes + 1) then closed else half_open;
  }
  | _ ↦ record cb { failures = 0 }
]

abbrev pub is_half_open : State → Bool
is_half_open half_open = true
is_half_open _ = false

unfoldable pub record_failure : CircuitBreaker → ℕ → CircuitBreaker
record_failure cb now = record cb {
  failures = cb.failures + 1;
  successes = 0;
  last_fail = now;
  state =
      if is_half_open cb.state || leb cb.threshold (cb.failures + 1) then open_state else cb.state;
}

unfoldable pub state_string : CircuitBreaker → String
state_string cb = elim cb.state [
  | open_state ↦ "open"
  | half_open ↦ "half-open"
  | closed ↦ "closed"
]

abbrev pub Registry : Type 0
Registry = Dict CircuitBreaker

-- `Registry.Get`; a breaker is shared by pointer and its entry is never replaced, so the model id
-- stands for the pointer.
unfoldable pub get_breaker : Registry → String → Registry × CircuitBreaker
get_breaker r model_id = elim (get r model_id) [
  | some cb ↦ (r, cb)
  | none ↦ let cb = new_circuit_breaker model_id in (put r model_id cb, cb)
]

unfoldable pub states : Registry → Dict String
states r = map_values state_string r

-- `r.Get(modelID).Allow()`, `.RecordSuccess()` and `.RecordFailure()`, through the pointer.
unfoldable pub allow_at : Registry → String → ℕ → Registry × Bool
allow_at r model_id now =
    let (r', cb) = get_breaker r model_id in
    let (cb', allowed) = allow cb now in (put r' model_id cb', allowed)

unfoldable pub record_success_at : Registry → String → Registry
record_success_at r model_id =
    let (r', cb) = get_breaker r model_id in put r' model_id (record_success cb)

unfoldable pub record_failure_at : Registry → String → ℕ → Registry
record_failure_at r model_id now =
    let (r', cb) = get_breaker r model_id in put r' model_id (record_failure cb now)
