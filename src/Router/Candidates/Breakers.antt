-- ===== src/Router/Candidates/Breakers.antt =====
-- Which models the breakers leave as candidates.
use llm_platform.Common.{
  ℕ, ◌+◌, ◌≡◌, refl, sym, ap, ◌∙◌, String, Bool, true, false, inl, inr, Bool-cases, some, List, [],
  ◌∷◌, All, arith, length, ◌==◌, eq_refl, eq_iff,
}
use llm_platform.Common.Dict.{get}
use llm_platform.Common.Float.{Float64}
use llm_platform.Router.Breaker.{State, open_state, CircuitBreaker, Registry, allow, allow_at}
use llm_platform.Router.Breaker.Recovery.{
  breaker_of, calls-isolated, breaker_of-some, breaker_of-same,
}
use llm_platform.Router.Scorer.{ModelRecord}
use llm_platform.Router.Candidates.{ask_all}

abbrev pub is_open : State → Bool
is_open open_state = true
is_open _ = false

allow-keeps :
    (cb : CircuitBreaker) (now : ℕ)
    → is_open cb.state ≡ false
    → is_open (allow cb now).0.state ≡ false
unfolding allow
allow-keeps cb now h = ground arith

allowed-half_open :
    (cb : CircuitBreaker) (now : ℕ)
    → (allow cb now).1 ≡ true
    → is_open (allow cb now).0.state ≡ false
unfolding allow
allowed-half_open cb now h = ground arith

-- The breaker of the model that was asked, and those of the others.
asked-breaker :
    (r : Registry) (id : String) (now : ℕ)
    → breaker_of (allow_at r id now).0 id ≡ (allow (breaker_of r id) now).0
asked-breaker r id now =
    breaker_of-some (allow_at r id now).0 id (allow (breaker_of r id) now).0
      ((calls-isolated r id id now).1 ∙ rw (eq_refl id) refl)

keeps_closed :
    (r : Registry) (id other : String) (now : ℕ)
    → is_open (breaker_of r other).state ≡ false
    → is_open (breaker_of (allow_at r id now).0 other).state ≡ false
keeps_closed r id other now h = elim (Bool-cases (id == other)) [
  | inl e ↦
      let put : get (allow_at r id now).0 other ≡ some (allow (breaker_of r id) now).0 =
        (calls-isolated r id other now).1 ∙ rw e refl in
      let same : breaker_of r id ≡ breaker_of r other = ap (breaker_of r) ((eq_iff id other).0 e) in
      ap (λ cb. is_open cb.state)
        (breaker_of-some (allow_at r id now).0 other (allow (breaker_of r id) now).0 put)
      ∙ allow-keeps (breaker_of r id) now (ap (λ cb. is_open cb.state) same ∙ h)
  | inr e ↦
      ap (λ cb. is_open cb.state)
        (breaker_of-same (allow_at r id now).0 r other
          ((calls-isolated r id other now).1 ∙ rw e refl))
      ∙ h
]

module _ (fl : Float64) where
  all_keep_closed :
      (r : Registry) (ms : List (ModelRecord fl)) (now : ℕ) (other : String)
      → is_open (breaker_of r other).state ≡ false
      → is_open (breaker_of (ask_all fl r ms now).breakers other).state ≡ false
  unfolding ask_all
  all_keep_closed r [] now other h = h
  all_keep_closed r (m ∷ ms) now other h =
      let rest =
        all_keep_closed (allow_at r m.model_id now).0 ms now other
          (keeps_closed r m.model_id other now h) in
      elim (Bool-cases (allow_at r m.model_id now).1) [ inl e ↦ rw e rest | inr e ↦ rw e rest ]

  -- Every model is a candidate or is counted as blocked, and when the loop is over the breaker of
  -- every candidate is closed or half-open, none open.
  pub ask_all-closed :
      (r : Registry) (ms : List (ModelRecord fl)) (now : ℕ)
      → (length (ask_all fl r ms now).candidates + (ask_all fl r ms now).blocked ≡ length ms)
        × All
            (λ m. is_open (breaker_of (ask_all fl r ms now).breakers m.model_id).state ≡ false)
            (ask_all fl r ms now).candidates
  unfolding ask_all
  ask_all-closed r [] now = (refl, tt)
  ask_all-closed r (m ∷ ms) now =
      let (count, closed_rest) = ask_all-closed (allow_at r m.model_id now).0 ms now in
      elim (Bool-cases (allow_at r m.model_id now).1) [
        | inl e ↦
            let now_closed : is_open (breaker_of (allow_at r m.model_id now).0 m.model_id).state
                ≡ false =
              ap (λ cb. is_open cb.state) (asked-breaker r m.model_id now)
              ∙ allowed-half_open (breaker_of r m.model_id) now
                  (sym (calls-isolated r m.model_id m.model_id now).0 ∙ e) in
            let mine = all_keep_closed (allow_at r m.model_id now).0 ms now m.model_id now_closed in
            rw e (omega (arith, count), (mine, closed_rest))
        | inr e ↦ rw e (omega (arith, count), closed_rest)
      ]
