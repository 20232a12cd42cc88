-- ===== src/Scheduler/Histogram/Window.antt =====
-- The p99 of the histogram is that of the last `cap` samples.
use mathlib.Core.List.{Perm}
use mathlib.Core.List.Perm
use native.Mathlib.Nat.{zero-add}
use llm_platform.Common.{
  ℕ, suc, ◌+◌, ◌-◌, ◌%◌, ◌<◌, min, ◌≡◌, refl, ap, ◌∙◌, false, some, List, [], ◌∷◌, ◌++◌, arith, All,
  length, eqb, length-replicate, length-take, replicate, set, take, drop,
}
use llm_platform.Common.Float.{Float64}
use llm_platform.Percentile.{rank, nearest_rank, nearest_rank-Ranks, RankFits, Ranks}
use llm_platform.Ring.{writes, length-writes, writes-All, All-take, All-replicate, window-perm}
use llm_platform.Scheduler.Histogram.{LatencyHist, new_latency_hist, record_latency, p99}

module _ (fl : Float64) where
  open fl use {Num, of_nat, nan, of_nat_number}

  pub record_all : LatencyHist fl → List Num → LatencyHist fl
  record_all h [] = h
  record_all h (x ∷ xs) = record_all (record_latency fl h x) xs

  record_all-writes :
      (h : LatencyHist fl) (xs : List Num)
      → record_all h xs
        ≡ record h { samples = writes h.cap h.samples h.head xs; head = h.head + length xs }
  unfolding record_all record_latency writes
  record_all-writes h [] = ground arith
  record_all-writes h (x ∷ xs) =
      let n : head + 1 + length xs ≡ head + suc (length xs) = omega arith in
      record_all-writes (record_latency fl h x) xs
      ∙ ap
          (λ k. record h {
            samples = writes cap (set samples (head % cap) x) (head + 1) xs;
            head = k;
          })
          n
    where
      open h use {samples, head, cap}

  -- The samples that the histogram holds are, in some order, the last `cap` of those recorded.
  window_of_last :
      (cap : ℕ) (xs : List Num)
      → 0 < cap
      → let h = record_all (new_latency_hist fl cap) xs in
        Perm (take (min h.head h.cap) h.samples) (drop (length xs - cap) xs)
  unfolding new_latency_hist
  window_of_last cap xs lo =
      rw (record_all-writes (new_latency_hist fl cap) xs, zero-add (length xs))
        (window-perm cap (replicate cap (of_nat 0)) xs lo (length-replicate cap (of_nat 0)))

  length-window :
      (cap : ℕ) (xs : List Num)
      → let h = record_all (new_latency_hist fl cap) xs in
        (h.head ≡ length xs)
        × (h.cap ≡ cap)
        × (length (take (min h.head h.cap) h.samples) ≡ min (length xs) cap)
        × (All (λ x. nan x ≡ false) xs
            → All (λ x. nan x ≡ false) (take (min h.head h.cap) h.samples))
  unfolding new_latency_hist
  length-window cap xs =
      let s = replicate cap (of_nat 0) in
      rw (record_all-writes (new_latency_hist fl cap) xs, zero-add (length xs))
        (
          refl,
          refl,
          omega (
            arith,
            length-take (min (length xs) cap) (writes cap s 0 xs),
            length-writes cap s 0 xs,
            length-replicate cap (of_nat 0),
          ),
          λ k.
              All-take (λ x. nan x ≡ false) (min (length xs) cap) (writes cap s 0 xs)
                (writes-All cap (λ x. nan x ≡ false) s 0 xs
                  (All-replicate (λ x. nan x ≡ false) cap (of_nat 0) (of_nat_number 0)) k),
        )

  pub p99_empty : (cap : ℕ) → p99 fl (new_latency_hist fl cap) ≡ some (of_nat 0)
  unfolding p99 new_latency_hist
  p99_empty cap = ground arith

  p99_nonempty :
      (h : LatencyHist fl)
      → 0 < min h.head h.cap
      → p99 fl h ≡ nearest_rank fl (take (min h.head h.cap) h.samples)
  unfolding p99
  p99_nonempty h lo = let e : eqb (min h.head h.cap) 0 ≡ false = ground arith in rw e refl

  -- After any samples, none of them NaN and at least one, the p99 of a histogram of `cap` places is
  -- the sample of rank ceil(n * 0.99) among the last `cap` samples (all of them if they are fewer), n
  -- being their number; no index is out of range. Before the first sample it is 0.
  pub p99-last :
      (cap : ℕ) (xs : List Num)
      → 0 < cap
      → All (λ x. nan x ≡ false) xs
      → 0 < length xs
      → (fits : RankFits fl (min (length xs) cap))
      → (p99 fl (new_latency_hist fl cap) ≡ some (of_nat 0))
        × ((v : Num) × (p99 fl (record_all (new_latency_hist fl cap) xs) ≡ some v)
            × Ranks fl (drop (length xs - cap) xs) fits.0 v)
  p99-last cap xs lo numbers nonempty (r, e, least, most) =
      let h = record_all (new_latency_hist fl cap) xs in
      let window = take (min h.head h.cap) h.samples in
      let w = length-window cap xs in
      let (v, found, k) =
        nearest_rank-Ranks fl window (r, ap (rank fl) w.2 ∙ e, least, omega (arith, w.2, most))
          (w.3 numbers) in
      (
        p99_empty cap,
        (
          v,
          p99_nonempty h (omega (arith, w.0, w.1, lo, nonempty)) ∙ found,
          record {
            front = k.front;
            back = k.back;
            place = k.place;
            all = Perm.trans k.all (window_of_last cap xs lo);
            not_below = k.not_below;
            not_above = k.not_above;
          },
        ),
      )

  pub record_all-append :
      (h : LatencyHist fl) (xs : List Num) (x : Num)
      → record_latency fl (record_all h xs) x ≡ record_all h (xs ++ x ∷ [])
  unfolding record_all
  record_all-append h [] x = refl
  record_all-append h (y ∷ xs) x = record_all-append (record_latency fl h y) xs x

  pub record_all-nil : (h : LatencyHist fl) → record_all h [] ≡ h
  unfolding record_all
  record_all-nil h = refl
