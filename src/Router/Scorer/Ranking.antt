-- ===== src/Router/Scorer/Ranking.antt =====
-- What the scorer returns: the eligible candidates, each once, best first, ties in the order given.
use mathlib.Core.List.{Perm}
use llm_platform.Common.{
  ◌≡◌, refl, ap, ◌∙◌, subst, String, Bool, true, false, not, ◌&&◌, inl, inr, Bool-cases, List, [],
  ◌∷◌, map, arith, All,
}
use llm_platform.Common.Int.{ℤ}
use llm_platform.Common.Float.{Float64}
use llm_platform.Sort.{
  insertion_sort-perm, insertion_sort-select, insertion_sort-IsRanked, select, IsRanked,
}
use llm_platform.Router.Health.{HealthTracker}
use llm_platform.Router.Scorer.{
  ModelRecord, CandidateScore, ScoringRequest, eligible, score_one, score_all, better, score,
}

module _ (fl : Float64) (h : HealthTracker fl) (queue_depth : String → ℤ)
    (req : ScoringRequest fl) where
  open fl use {Num, lt, nan, lt_irrefl, lt_trans, not_lt_trans}

  score_all-map :
      (ms : List (ModelRecord fl))
      → score_all fl h queue_depth req ms
        ≡ map (score_one fl h queue_depth req) (select (eligible fl req) ms)
  unfolding score_all select
  score_all-map [] = refl
  score_all-map (m ∷ ms) = elim (Bool-cases (eligible fl req m)) [
    | inl e ↦ rw e (ap (λ t. score_one fl h queue_depth req m ∷ t) (score_all-map ms))
    | inr e ↦ rw e (score_all-map ms)
  ]

  -- The result is, in some order, the scores of the candidates that are enabled, support the task and
  -- are allowed to the tenant: none of these is lost or repeated, and no other candidate is among them.
  pub score-perm :
      (ms : List (ModelRecord fl))
      → Perm
          (score fl h queue_depth req ms)
          (map (score_one fl h queue_depth req) (select (eligible fl req) ms))
  unfolding score
  score-perm ms =
      subst (λ t. Perm (score fl h queue_depth req ms) t) (score_all-map ms)
        (insertion_sort-perm (better fl) _)

  IsNumber : CandidateScore fl → Type 0
  IsNumber c = nan c.total_score ≡ false

  better-asym : (x y : CandidateScore fl) → better fl x y ≡ true → better fl y x ≡ false
  better-asym x y e = elim (Bool-cases (better fl y x)) [
    | inl e' ↦ cc (lt_irrefl x.total_score, lt_trans x.total_score y.total_score x.total_score e' e)
    | inr e' ↦ e'
  ]

  -- The total of a model is a number.
  abbrev pub HasTotal : ModelRecord fl → Type 0
  HasTotal m = nan (score_one fl h queue_depth req m).total_score ≡ false

  All-score_all :
      (ms : List (ModelRecord fl))
      → All HasTotal ms
      → All (λ c. nan c.total_score ≡ false) (score_all fl h queue_depth req ms)
  unfolding score_all
  All-score_all [] k = tt
  All-score_all (m ∷ ms) k = elim (Bool-cases (eligible fl req m)) [
    | inl e ↦ rw e (k.0, All-score_all ms k.1)
    | inr e ↦ rw e (All-score_all ms k.1)
  ]

  -- If the total of no candidate is NaN, the result is ranked: no candidate has a higher total than
  -- one that stands before it.
  pub score-IsRanked :
      (ms : List (ModelRecord fl))
      → All HasTotal ms
      → IsRanked (better fl) (score fl h queue_depth req ms)
  unfolding score
  score-IsRanked ms numbers =
      insertion_sort-IsRanked (better fl) (λ c. nan c.total_score ≡ false)
        (λ x y _ _ e. better-asym x y e)
        (λ x y z f p q. not_lt_trans z.total_score y.total_score x.total_score f q p) _
        (All-score_all ms numbers)

  -- The total of a candidate is neither above nor below a number.
  abbrev pub level : Num → CandidateScore fl → Bool
  level v c = not (lt c.total_score v) && not (lt v c.total_score)

  level-better :
      (v : Num)
      → nan v ≡ false
      → (x y : CandidateScore fl) → level v x ≡ true
      → level v y ≡ true
      → better fl x y ≡ false
  level-better v n x y p q = not_lt_trans y.total_score v x.total_score n (low y q) (high x p)
    where
      low : (c : CandidateScore fl) → level v c ≡ true → lt c.total_score v ≡ false
      low c e = ground arith

      high : (c : CandidateScore fl) → level v c ≡ true → lt v c.total_score ≡ false
      high c e = ground arith

  -- Candidates whose totals are level with one number stand in the order in which they were given.
  pub score-ties :
      (ms : List (ModelRecord fl)) (v : Num)
      → nan v ≡ false
      → select (level v) (score fl h queue_depth req ms)
        ≡ select (level v) (map (score_one fl h queue_depth req) (select (eligible fl req) ms))
  unfolding score
  score-ties ms v n =
      insertion_sort-select (better fl) (level v) (level-better v n) _
      ∙ ap (select (level v)) (score_all-map ms)
