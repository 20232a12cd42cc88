-- ===== src/Router/Breaker/States.antt =====
-- The breaker as a state machine: the moves that its diagram has, and what holds in each state.
use llm_platform.Common.{ℕ, ◌+◌, ◌≤◌, ◌<◌, ◌≡◌, String, List, [], ◌∷◌, arith}
use llm_platform.Router.Breaker.{
  State, closed, open_state, half_open, CircuitBreaker, new_circuit_breaker, allow, record_success,
  record_failure,
}

pub data Event : Type 0 where
  asks : ℕ → Event
  succeeds : Event
  fails : ℕ → Event

unfoldable pub after : CircuitBreaker → Event → CircuitBreaker
after cb (asks now) = (allow cb now).0
after cb succeeds = record_success cb
after cb (fails now) = record_failure cb now

unfoldable pub after_all : CircuitBreaker → List Event → CircuitBreaker
after_all cb [] = cb
after_all cb (e ∷ es) = after_all (after cb e) es

-- The diagram: a breaker opens from closed at the threshold or from half-open at once, half-opens only
-- from open when its timeout has passed, and closes only from half-open.
pub data Move (cb : CircuitBreaker) : Event → State → Type 0 where
  stay : {e : Event} {s : State} → s ≡ cb.state → Move cb e s
  trip : (now : ℕ) → cb.threshold ≤ cb.failures + 1 → Move cb (fails now) open_state
  relapse : (now : ℕ) → cb.state ≡ half_open → Move cb (fails now) open_state
  probe :
      (now : ℕ)
      → cb.state ≡ open_state
      → cb.last_fail + cb.timeout < now
      → Move cb (asks now) half_open
  heal : cb.state ≡ half_open → cb.success_req ≤ cb.successes + 1 → Move cb succeeds closed

pub record IsValid (cb : CircuitBreaker) : Type 0 where
  pub armed : 0 < cb.threshold
  pub wanted : 0 < cb.success_req
  pub below_threshold : cb.state ≡ closed → cb.failures < cb.threshold
  pub below_wanted : cb.state ≡ half_open → cb.successes < cb.success_req

pub new_circuit_breaker-IsValid : (id : String) → IsValid (new_circuit_breaker id)
unfolding new_circuit_breaker
new_circuit_breaker-IsValid id = ground arith

after-IsValid : (cb : CircuitBreaker) (e : Event) → IsValid cb → IsValid (after cb e)
unfolding after allow record_success record_failure
after-IsValid cb (asks now) v = ground arith
after-IsValid cb succeeds v = ground arith
after-IsValid cb (fails now) v = ground arith

pub after_all-IsValid :
    (cb : CircuitBreaker) (es : List Event) → IsValid cb → IsValid (after_all cb es)
unfolding after_all
after_all-IsValid cb [] v = v
after_all-IsValid cb (e ∷ es) v = after_all-IsValid (after cb e) es (after-IsValid cb e v)
