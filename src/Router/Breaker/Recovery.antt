-- ===== src/Router/Breaker/Recovery.antt =====
-- How a breaker opens, how long it stays open, and how it closes again; and that a registry keeps
-- the breakers of different models apart.
use llm_platform.Common.{
  ℕ, zero, suc, ◌+◌, ◌≤◌, ◌<◌, ◌≡◌, ◌⊎◌, inl, inr, refl, ap, ◌∙◌, String, true, false, List, [],
  ◌∷◌, arith, Bool-cases, Option-cases, some, none, leb, if◌then◌else◌, length, ◌==◌,
}
use llm_platform.Common.Dict.{get, put, get-put}
use llm_platform.Router.Breaker.{
  closed, open_state, half_open, CircuitBreaker, new_circuit_breaker, allow, record_success,
  record_failure, Registry, get_breaker, allow_at, record_success_at, record_failure_at,
}
use llm_platform.Router.Breaker.States.{Event, succeeds, fails, after, after_all}

unfoldable pub failing : List ℕ → List Event
failing [] = []
failing (t ∷ ts) = fails t ∷ failing ts

unfoldable pub succeeding : ℕ → List Event
succeeding zero = []
succeeding (suc n) = succeeds ∷ succeeding n

opens_or_not :
    (cb : CircuitBreaker) (t : ℕ)
    → cb.state ≡ closed
    → ((cb.failures + 1 < cb.threshold) × ((record_failure cb t).state ≡ closed))
      ⊎ ((cb.threshold ≤ cb.failures + 1) × ((record_failure cb t).state ≡ open_state))
unfolding record_failure
opens_or_not cb t s = elim (Bool-cases (leb cb.threshold (cb.failures + 1))) [
  | inl e ↦ inr (ground arith, rw (s, e) refl)
  | inr e ↦ inl (ground arith, rw (s, e) refl)
]

counted :
    (cb : CircuitBreaker) (t : ℕ)
    → ((record_failure cb t).failures ≡ cb.failures + 1)
      × ((record_failure cb t).threshold ≡ cb.threshold)
unfolding record_failure
counted cb t = (refl, refl)

open-fails :
    (cb : CircuitBreaker) (t : ℕ) → cb.state ≡ open_state → (record_failure cb t).state ≡ open_state
unfolding record_failure
open-fails cb t s = ground arith

stays_open :
    (cb : CircuitBreaker) (ts : List ℕ)
    → cb.state ≡ open_state
    → (after_all cb (failing ts)).state ≡ open_state
unfolding after_all failing after
stays_open cb [] s = s
stays_open cb (t ∷ ts) s = stays_open (record_failure cb t) ts (open-fails cb t s)

-- A closed breaker that sees failures with no success between them stays closed while their number,
-- with those counted before, is below the threshold, and is open once it is not.
pub failing-opens :
    (cb : CircuitBreaker) (ts : List ℕ)
    → cb.state ≡ closed
    → cb.failures < cb.threshold
    → (after_all cb (failing ts)).state
      ≡ (if leb cb.threshold (cb.failures + length ts) then open_state else closed)
unfolding after_all failing after
failing-opens cb [] s below = ground arith
failing-opens cb (t ∷ ts) s below =
    let (n, k) = counted cb t in
    elim (opens_or_not cb t s) [
      | inl (more, c) ↦
          failing-opens (record_failure cb t) ts c (omega (arith, n, k, more))
          ∙ ground (arith, n, k)
      | inr (full, c) ↦
          let e : leb cb.threshold (cb.failures + suc (length ts)) ≡ true = ground (arith, full) in
          rw e (stays_open (record_failure cb t) ts c)
    ]

-- While a breaker is open and its timeout has not passed since the last failure, a call is refused
-- and the breaker is unchanged; at the first call after that, the call is let through and the
-- breaker is half-open, with no success counted.
pub open-allow :
    (cb : CircuitBreaker) (now : ℕ)
    → cb.state ≡ open_state
    → cb.last_fail ≤ now
    → allow cb now ≡ (
        if leb (now) (cb.last_fail + cb.timeout)
        then (cb, false)
        else (record cb { state = half_open; successes = 0 }, true))
unfolding allow
open-allow cb now s h = ground arith

half_open-succeeds :
    (cb : CircuitBreaker)
    → cb.state ≡ half_open
    → ((record_success cb).successes ≡ cb.successes + 1)
      × ((record_success cb).success_req ≡ cb.success_req)
      × ((record_success cb).state
          ≡ (if leb cb.success_req (cb.successes + 1) then closed else half_open))
unfolding record_success
half_open-succeeds cb s = ground arith

closed-succeeds : (cb : CircuitBreaker) → cb.state ≡ closed → (record_success cb).state ≡ closed
unfolding record_success
closed-succeeds cb s = ground arith

closed-succeeding :
    (cb : CircuitBreaker) (n : ℕ) → cb.state ≡ closed → (after_all cb (succeeding n)).state ≡ closed
unfolding after_all succeeding after
closed-succeeding cb zero s = s
closed-succeeding cb (suc n) s = closed-succeeding (record_success cb) n (closed-succeeds cb s)

-- A half-open breaker that sees successes only closes with the one that makes up the number it wants,
-- no sooner, and stays closed.
pub succeeding-closes :
    (cb : CircuitBreaker) (n : ℕ)
    → cb.state ≡ half_open
    → cb.successes < cb.success_req
    → (after_all cb (succeeding n)).state
      ≡ (if leb cb.success_req (cb.successes + n) then closed else half_open)
unfolding after_all succeeding after
succeeding-closes cb zero s below = ground arith
succeeding-closes cb (suc n) s below =
    let (k, r, c) = half_open-succeeds cb s in
    elim (Bool-cases (leb cb.success_req (cb.successes + 1))) [
      | inl e ↦
          let e' : leb cb.success_req (cb.successes + suc n) ≡ true = ground arith in
          rw e' (closed-succeeding (record_success cb) n (rw e at c))
      | inr e ↦
          succeeding-closes (record_success cb) n (rw e at c) (ground (arith, k, r))
          ∙ ground (arith, k, r)
    ]

-- The breaker that a model has, or the new one that it gets when it is first named.
pub breaker_of : Registry → String → CircuitBreaker
breaker_of r id = elim (get r id) [ some cb ↦ cb | none ↦ new_circuit_breaker id ]

pub breaker_of-some :
    (r : Registry) (id : String) (cb : CircuitBreaker) → get r id ≡ some cb → breaker_of r id ≡ cb
unfolding breaker_of
breaker_of-some r id cb e = rw (e, breaker_of) refl

pub breaker_of-same :
    (r s : Registry) (id : String) → get r id ≡ get s id → breaker_of r id ≡ breaker_of s id
unfolding breaker_of
breaker_of-same r s id e = ap (λ o. elim o [ some cb ↦ cb | none ↦ new_circuit_breaker id ]) e

get_breaker-of :
    (r : Registry) (id : String)
    → ((get_breaker r id).1 ≡ breaker_of r id)
      × ((v : CircuitBreaker) (other : String)
          → get (put (get_breaker r id).0 id v) other
            ≡ (if id == other then some v else get r other))
unfolding get_breaker breaker_of
get_breaker-of r id = elim (Option-cases (get r id)) [
  | inl e ↦ (
    rw (e, get_breaker, breaker_of) refl,
    λ v other. rw (e, get_breaker) (simp get-put (ground arith)),
  )
  | inr (q, e) ↦
      (rw (e, get_breaker, breaker_of) refl, λ v other. rw (e, get_breaker) (get-put r id other v))
]

-- A call through the registry does to the breaker of its model what it does to a breaker alone, a
-- new one being made if there was none, and leaves the breaker of every other model as it was.
pub calls-isolated :
    (r : Registry) (id other : String) (now : ℕ)
    → ((allow_at r id now).1 ≡ (allow (breaker_of r id) now).1)
      × (get (allow_at r id now).0 other
          ≡ (if id == other then some (allow (breaker_of r id) now).0 else get r other))
      × (get (record_success_at r id) other
          ≡ (if id == other then some (record_success (breaker_of r id)) else get r other))
      × (get (record_failure_at r id now) other
          ≡ (if id == other then some (record_failure (breaker_of r id) now) else get r other))
unfolding allow_at record_success_at record_failure_at
calls-isolated r id other now =
    let (same, others) = get_breaker-of r id in
    (
      ap (λ q. (allow q now).1) same,
      others _ other ∙ rw same refl,
      others _ other ∙ rw same refl,
      others _ other ∙ rw same refl,
    )
