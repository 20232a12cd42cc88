-- ===== src/Router/Health/Rate.antt =====
-- The error rate that the tracker gives is that of the last 100 requests.
use mathlib.Core.List.{Perm, foldr}
use mathlib.Core.List.Perm
use native.Mathlib.Nat.{ℕ_set}
use llm_platform.Common.{
  ℕ, suc, ◌+◌, ◌-◌, ◌%◌, ◌≤◌, ◌<◌, min, ◌≡◌, refl, sym, ap, ◌∙◌, subst, String, Bool, false, inl,
  inr, Bool-cases, Option, some, none, List, [], ◌∷◌, arith, length, eqb, length-replicate,
  length-set, replicate, set, take, drop, if◌then◌else◌,
}
use llm_platform.Common.Dict.{get, put, get-put_self}
use llm_platform.Common.Float.{Float64}
use llm_platform.Percentile.{RankFits, nearest_rank-some}
use llm_platform.Sort.{select}
use llm_platform.Ring.{writes, window-perm}
use llm_platform.Router.Health.{
  ModelHealth, HealthTracker, new_model_health, health_of, update_p99, note_success, note_failure,
  health_success, health_failure, failures_in, error_rate,
}

module _ (fl : Float64) where
  open fl use {Num, of_nat, div, lt}

  -- A request that was answered in some time, or that failed.
  pub data Outcome : Type 0 where
    answered : Num → Outcome
    failed : Outcome

  pub outcome_code : Outcome → ℕ
  outcome_code (answered latency) = 1
  outcome_code failed = 0

  pub codes : List Outcome → List ℕ
  codes [] = []
  codes (o ∷ os) = outcome_code o ∷ codes os

  -- What a request that ended so does to the tracker; `none` is a panic.
  unfoldable pub tell : HealthTracker fl → String → Outcome → ℕ → Option (HealthTracker fl)
  tell h id (answered latency) now = health_success fl h id latency now
  tell h id failed now = some (health_failure fl h id now)

  pub tell_all : HealthTracker fl → String → List Outcome → ℕ → Option (HealthTracker fl)
  tell_all h id [] now = some h
  tell_all h id (o ∷ os) now = elim (tell h id o now) [
    | some h' ↦ tell_all h' id os now
    | none ↦ none
  ]

  length-select : (test : Num → Bool) (xs : List Num) → length (select test xs) ≤ length xs
  unfolding select
  length-select test [] = omega arith
  length-select test (x ∷ xs) = ground (arith, length-select test xs)

  abbrev pub RanksFit : Type 0
  RanksFit = (n : ℕ) → 1 ≤ n → n ≤ 100 → RankFits fl n

  update_p99-some :
      (r : ModelHealth fl)
      → RanksFit
      → length r.latencies ≡ 100
      → (v : Num) × (update_p99 fl r ≡ some (record r { p99_latency = v }))
  unfolding update_p99
  update_p99-some r fits n =
      let lats = select (λ l. lt (of_nat 0) l) r.latencies in
      elim (Bool-cases (eqb (length lats) 0)) [
        | inl e ↦ (r.p99_latency, rw e refl)
        | inr e ↦
            let (v, found) = nearest_rank-some fl lats (
              fits (length lats) (ground arith)
                (omega (arith, n, length-select (λ l. lt (of_nat 0) l) r.latencies))) in
            (v, rw (e, found) refl)
      ]

  pub record Told (r r' : ModelHealth fl) (o : Outcome) : Type 0 where
    pub outcomes : r'.outcomes ≡ set r.outcomes (r.head % 100) (outcome_code o)
    pub head : r'.head ≡ r.head + 1
    pub total : r'.total ≡ r.total + 1
    pub latencies : length r'.latencies ≡ 100

  pub tell-Told :
      (h : HealthTracker fl) (id : String) (o : Outcome) (now : ℕ)
      → RanksFit
      → length (health_of fl h id now).latencies ≡ 100
      → (r' : ModelHealth fl) × (tell h id o now ≡ some (put h id r'))
        × Told (health_of fl h id now) r' o
  unfolding tell health_success health_failure note_success note_failure outcome_code
  tell-Told h id failed now fits n = (
    note_failure fl (health_of fl h id now) now,
    refl,
    record {
      outcomes = refl;
      head = refl;
      total = refl;
      latencies = length-set (health_of fl h id now).latencies _ _ ∙ n;
    },
  )
  tell-Told h id (answered latency) now fits n =
      let r = health_of fl h id now in
      let r1 : ModelHealth fl = record r {
        outcomes = set r.outcomes (r.head % 100) 1;
        latencies = set r.latencies (r.head % 100) latency;
        head = r.head + 1;
        total = r.total + 1;
        last_update = now;
      } in
      let n1 : length r1.latencies ≡ 100 = length-set r.latencies _ _ ∙ n in
      let (v, found) = update_p99-some r1 fits n1 in
      (
        record r1 { p99_latency = v },
        ap (λ u. elim u [ some q ↦ some (put h id q) | none ↦ none ]) found,
        record { outcomes = refl; head = refl; total = refl; latencies = n1 },
      )

  health_of-put :
      (h : HealthTracker fl) (id : String) (r : ModelHealth fl) (now : ℕ)
      → health_of fl (put h id r) id now ≡ r
  unfolding health_of
  health_of-put h id r now =
      ap (λ u. elim u [ some q ↦ q | none ↦ new_model_health fl now ]) (get-put_self h id r)

  tell_all-writes :
      (h : HealthTracker fl) (id : String) (os : List Outcome) (now : ℕ)
      → RanksFit
      → length (health_of fl h id now).latencies ≡ 100
      → (h' : HealthTracker fl) × (tell_all h id os now ≡ some h')
        × ((health_of fl h' id now).outcomes
            ≡ writes 100 (health_of fl h id now).outcomes (health_of fl h id now).head (codes os))
        × ((health_of fl h' id now).total ≡ (health_of fl h id now).total + length os)
  unfolding tell_all writes codes
  tell_all-writes h id [] now fits n = (h, refl, refl, omega arith)
  tell_all-writes h id (o ∷ os) now fits n =
      let (r', e, told) = tell-Told h id o now fits n in
      let back = health_of-put h id r' now in
      let (h', all, w, t) =
        tell_all-writes (put h id r') id os now fits
          (ap (λ q. length q.latencies) back ∙ told.latencies) in
      let p = ap (λ q. q.outcomes) back ∙ told.outcomes in
      let q = ap (λ q. q.head) back ∙ told.head in
      (
        h',
        ap (λ u. elim u [ some g ↦ tell_all g id os now | none ↦ none ]) e ∙ all,
        w ∙ (λ i. writes 100 (p i) (q i) (codes os)),
        omega (arith, t, ap (λ q. q.total) back, told.total),
      )

  count_zero : ℕ → ℕ → ℕ
  count_zero o n = if eqb o 0 then n + 1 else n

  failures_in-foldr : (os : List ℕ) → failures_in fl os ≡ foldr count_zero 0 os
  unfolding failures_in count_zero
  failures_in-foldr [] = refl
  failures_in-foldr (o ∷ os) = ground (arith, failures_in-foldr os)

  count_zero_comm : (a b n : ℕ) → count_zero a (count_zero b n) ≡ count_zero b (count_zero a n)
  unfolding count_zero
  count_zero_comm a b n = ground arith

  failures_in-perm : {xs ys : List ℕ} → Perm xs ys → failures_in fl xs ≡ failures_in fl ys
  failures_in-perm {xs} {ys} p =
      failures_in-foldr xs
      ∙ Perm.foldr-eq ℕ_set count_zero count_zero_comm p 0
      ∙ sym (failures_in-foldr ys)

  length-codes : (os : List Outcome) → length (codes os) ≡ length os
  unfolding codes
  length-codes [] = refl
  length-codes (o ∷ os) = ap suc (length-codes os)

  rate_of : ℕ → List ℕ → Num
  rate_of total outcomes =
      let window = min total 100 in
      if eqb window 0
      then of_nat 0
      else div (of_nat (failures_in fl (take window outcomes))) (of_nat window)

  rate_of-nonzero :
      (total : ℕ) (outcomes : List ℕ)
      → eqb (min total 100) 0 ≡ false
      → rate_of total outcomes
        ≡ div (of_nat (failures_in fl (take (min total 100) outcomes))) (of_nat (min total 100))
  unfolding rate_of
  rate_of-nonzero total outcomes e =
      ap
        (λ b.
          if b
          then of_nat 0
          else div (of_nat (failures_in fl (take (min total 100) outcomes)))
              (of_nat (min total 100)))
        e

  error_rate-health :
      (h : HealthTracker fl) (id : String) (now : ℕ)
      → error_rate fl h id ≡ rate_of (health_of fl h id now).total (health_of fl h id now).outcomes
  unfolding error_rate rate_of health_of new_model_health
  error_rate-health h id now = go (get h id)
    where
      go :
          (u : Option (ModelHealth fl))
          → Path Num
              (elim u [
                | none ↦ of_nat 0
                | some r ↦
                    let window = min r.total 100 in
                    if eqb window 0
                    then of_nat 0
                    else div (of_nat (failures_in fl (take window r.outcomes))) (of_nat window)
              ])
              (let r : ModelHealth fl = elim u [ some r ↦ r | none ↦ new_model_health fl now ] in
                rate_of r.total r.outcomes)
      go none = refl
      go (some r) = refl

  health_of-new :
      (h : HealthTracker fl) (id : String) (now : ℕ)
      → get h id ≡ none
      → health_of fl h id now ≡ new_model_health fl now
  unfolding health_of
  health_of-new h id now e = ap (λ u. elim u [ some q ↦ q | none ↦ new_model_health fl now ]) e

  length-latencies : (now : ℕ) → length (new_model_health fl now).latencies ≡ 100
  unfolding new_model_health
  length-latencies now = length-replicate 100 (of_nat 0)

  new-total : (now : ℕ) → (new_model_health fl now).total ≡ 0
  unfolding new_model_health
  new-total now = refl

  new-writes :
      (now : ℕ) (os : List ℕ)
      → writes 100 (new_model_health fl now).outcomes (new_model_health fl now).head os
        ≡ writes 100 (replicate 100 0) 0 os
  unfolding new_model_health
  new-writes now os = refl

  -- After any requests on a model that the tracker has not seen, at least one, recording never
  -- panics, and the error rate is the number of failures among the last 100 of them over their
  -- number, 100 or less; the ring has forgotten the rest. This needs that `ceil(n * 0.99)` is
  -- between 1 and n for every n up to 100.
  pub error_rate-last :
      (h : HealthTracker fl) (id : String) (os : List Outcome) (now : ℕ)
      → RanksFit
      → get h id ≡ none
      → 0 < length os
      → (h' : HealthTracker fl) × (tell_all h id os now ≡ some h')
        × (error_rate fl h' id
            ≡ div
                (of_nat (failures_in fl (drop (length os - 100) (codes os))))
                (of_nat (min (length os) 100)))
  error_rate-last h id os now fits fresh lo =
      let new = health_of-new h id now fresh in
      let n : length (health_of fl h id now).latencies ≡ 100 =
        ap (λ q. length q.latencies) new ∙ length-latencies now in
      let (h', all, w, t) = tell_all-writes h id os now fits n in
      let total : (health_of fl h' id now).total ≡ length os =
        omega (arith, t, ap (λ q. q.total) new, new-total now) in
      let outcomes : (health_of fl h' id now).outcomes ≡ writes 100 (replicate 100 0) 0 (codes os) =
        w
        ∙ (λ i. writes 100 (new i).outcomes (new i).head (codes os))
        ∙ new-writes now (codes os) in
      let nonzero : eqb (min (length os) 100) 0 ≡ false = ground (arith, lo) in
      let same = length-codes os in
      let window : Perm (take (min (length os) 100) (writes 100 (replicate 100 0) 0 (codes os)))
          (drop (length os - 100) (codes os)) =
        subst
          (λ m.
            Perm (take (min m 100) (writes 100 (replicate 100 0) 0 (codes os)))
              (drop (m - 100) (codes os)))
          same
          (window-perm 100 (replicate 100 0) (codes os) (omega arith)
            (length-replicate {A = ℕ} 100 0)) in
      (
        h',
        all,
        error_rate-health h' id now
            ∙ (λ i. rate_of (total i) (outcomes i))
            ∙ rate_of-nonzero (length os) (writes 100 (replicate 100 0) 0 (codes os)) nonzero
            ∙ ap (λ k. div (of_nat k) (of_nat (min (length os) 100))) (failures_in-perm window),
      )
