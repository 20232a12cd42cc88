-- ===== src/Router/Breaker/Examples.antt =====
-- The breaker of one model through its states.
use llm_platform.Common.{ℕ, ◌+◌, ◌≡◌, refl, List, [], ◌∷◌, arith, length, leb, if◌then◌else◌}
use llm_platform.Router.Breaker.{closed, open_state, half_open, CircuitBreaker, Registry}
use llm_platform.Router.Breaker.States.{after_all}
use llm_platform.Router.Breaker.Recovery.{failing, succeeding, failing-opens, succeeding-closes}

abbrev fresh : CircuitBreaker
fresh = record {
  state = closed;
  failures = 0;
  successes = 0;
  threshold = 3;
  success_req = 2;
  timeout = 20;
  last_fail = 0;
  model_id = "m";
}

abbrev opened : CircuitBreaker
opened = record fresh { state = open_state; failures = 3; last_fail = 7 }

abbrev probing : CircuitBreaker
probing = record fresh { state = half_open; failures = 3; last_fail = 7 }

abbrev times : List ℕ
times = 5 ∷ 6 ∷ 7 ∷ []

failing-opens_example :
    (after_all fresh (failing times)).state
    ≡ (if leb 3 (0 + length times) then open_state else closed)
failing-opens_example = failing-opens fresh times refl (omega arith)

succeeding-closes_example :
    (after_all probing (succeeding 2)).state ≡ (if leb 2 (0 + 2) then closed else half_open)
succeeding-closes_example = succeeding-closes probing 2 refl (omega arith)

abbrev one : Registry
one = ("m", opened) ∷ []
