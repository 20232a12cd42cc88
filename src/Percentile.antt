-- ===== src/Percentile.antt =====
-- The p99 that services/scheduler/internal/batcher/batcher.go and
-- services/router/internal/scoring/scorer.go compute alike: sort, then take the element of rank
-- ceil(n * 0.99). `none` is the panic of an index out of range.
pub mod Decimals
use mathlib.Core.List.{Perm}
use mathlib.Core.List.Perm
use llm_platform.Common.{
  ℕ, zero, suc, ◌+◌, ◌-◌, ◌≤◌, ◌<◌, ◌≡◌, refl, sym, ap, ◌∙◌, Bool, true, false, inl, inr,
  Bool-cases, Option, some, List, [], ◌∷◌, ◌++◌, arith, All, length, get_elem?, get_elem?-lt,
  if◌then◌else◌,
}
use llm_platform.Common.Int.{ℤ, pos, negsuc, ◌-ℤ◌, ltb_ℤ, pos_part}
use llm_platform.Common.Float.{Float64}
use llm_platform.Sort.{
  insertion_sort, insertion_sort-perm, length-insertion_sort, insertion_sort-IsRanked, IsRanked,
}

module _ (fl : Float64) where
  open fl use {Num, lt, nan, of_nat, lit, mul, ceil, to_int, lt_irrefl, lt_trans, not_lt_trans}

  -- `int(math.Ceil(float64(n) * 0.99))`
  pub rank : ℕ → ℤ
  rank n = to_int (ceil (mul (of_nat n) (lit 99 2)))

  -- `idx := rank - 1; if idx < 0 { idx = 0 }`
  pub index : ℕ → ℕ
  unfolding ◌-ℤ◌
  index n = let idx = rank n -ℤ pos 1 in if ltb_ℤ idx (pos 0) then 0 else pos_part idx

  unfoldable pub nearest_rank : List Num → Option Num
  unfolding insertion_sort index rank
  nearest_rank vals = get_elem? (insertion_sort lt vals) (index (length vals))

  -- What IEEE 754 gives for `ceil(n * 0.99)`: it is at least 1 and at most n.
  abbrev pub RankFits : ℕ → Type 0
  RankFits n = (r : ℕ) × (rank n ≡ pos r) × (1 ≤ r) × (r ≤ n)

  index-pred : (n r : ℕ) → rank n ≡ pos r → 1 ≤ r → index n ≡ r - 1
  unfolding index
  index-pred n r e lo = rw (e, index) (ground arith)

  -- No index is out of range, whatever the numbers are.
  pub nearest_rank-some :
      (vals : List Num) → RankFits (length vals) → (v : Num) × (nearest_rank vals ≡ some v)
  unfolding nearest_rank
  nearest_rank-some vals (r, e, lo, hi) =
      let sorted = insertion_sort lt vals in
      let i : index (length vals) ≡ r - 1 = index-pred (length vals) r e lo in
      let (v, g) =
        get_elem?-lt sorted (index (length vals))
          (omega (arith, i, lo, hi, length-insertion_sort lt vals)) in
      (v, g)

  asym : (x y : Num) → lt x y ≡ true → lt y x ≡ false
  asym x y h = elim (Bool-cases (lt y x)) [
    | inl e ↦ cc (lt_irrefl x, lt_trans x y x h e)
    | inr e ↦ e
  ]

  abbrev IsNumber : Num → Type 0
  IsNumber x = nan x ≡ false

  -- An element of a list that has as many elements below it as `front` holds.
  pub record Ranks (vals : List Num) (r : ℕ) (v : Num) : Type 0 where
    pub front : List Num
    pub back : List Num
    pub place : length front + 1 ≡ r
    pub all : Perm (front ++ v ∷ back) vals
    pub not_below : All (λ y. lt v y ≡ false) front
    pub not_above : All (λ y. lt y v ≡ false) back

  All-middle {κ} :
      (P : Num → Type κ) (front back : List Num) (v : Num) → All P (front ++ v ∷ back) → P v
  All-middle P [] back v h = h.0
  All-middle P (x ∷ front) back v h = All-middle P front back v h.1

  split_at :
      (xs : List Num) (i : ℕ)
      → i < length xs
      → IsRanked lt xs
      → (v : Num) × (front : List Num) × (back : List Num) × (get_elem? xs i ≡ some v)
        × (front ++ v ∷ back ≡ xs)
        × (length front ≡ i)
        × All (λ y. lt v y ≡ false) front
        × All (λ y. lt y v ≡ false) back
  split_at [] i h k = elim h [ ]
  split_at (x ∷ xs) zero h k = (x, [], xs, refl, refl, refl, tt, k.0)
  split_at (x ∷ xs) (suc i) h k =
      let (v, front, back, g, e, n, below, above) = split_at xs i (omega arith) k.1 in
      (
        v,
        x ∷ front,
        back,
        g,
        ap (λ t. x ∷ t) e,
        ap suc n,
        (All-middle (λ y. lt y x ≡ false) front back v (rw e k.0), below),
        above,
      )

  -- Of numbers that are not NaN, of which there is at least one, the code picks one of rank
  -- ceil(n * 0.99): as many of the others as that rank, less one, are not above it, and the rest are
  -- not below it.
  pub nearest_rank-Ranks :
      (vals : List Num) (fits : RankFits (length vals))
      → All IsNumber vals
      → (v : Num) × (nearest_rank vals ≡ some v) × Ranks vals fits.0 v
  unfolding nearest_rank
  nearest_rank-Ranks vals (r, e, lo, hi) numbers =
      let sorted = insertion_sort lt vals in
      let p = insertion_sort-perm lt vals in
      let same : length sorted ≡ length vals = length-insertion_sort lt vals in
      let i : index (length vals) ≡ r - 1 = index-pred (length vals) r e lo in
      let (v, front, back, g, whole, n, below, above) =
        split_at sorted (r - 1) (omega (arith, same, lo, hi)) (
          insertion_sort-IsRanked lt IsNumber (λ x y _ _ h. asym x y h)
            (λ x y z f. not_lt_trans x y z f) vals numbers) in
      (
        v,
        ap (get_elem? sorted) i ∙ g,
        record {
          front = front;
          back = back;
          place = omega (arith, n, lo);
          all = rw whole p;
          not_below = below;
          not_above = above;
        },
      )
