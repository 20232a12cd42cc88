-- ===== src/Scheduler/Histogram/Examples.antt =====
-- A histogram of two places that has seen three samples.
use llm_platform.Common.{ℕ, ◌-◌, ◌≡◌, refl, some, List, [], ◌∷◌, arith, length, drop}
use llm_platform.Common.Fixed.{fixed}
use llm_platform.Percentile.{Ranks}
use llm_platform.Percentile.Decimals.{fixed-RankFits}
use llm_platform.Scheduler.Histogram.{new_latency_hist, p99}
use llm_platform.Scheduler.Histogram.Window.{record_all, p99-last}

abbrev samples : List ℕ
samples = 9000 ∷ 5000 ∷ 3000 ∷ []

p99-last_example :
    (p99 fixed (new_latency_hist fixed 2) ≡ some 0)
    × ((v : ℕ) × (p99 fixed (record_all fixed (new_latency_hist fixed 2) samples) ≡ some v)
        × Ranks fixed (drop (length samples - 2) samples) (fixed-RankFits 2 (omega arith)).0 v)
p99-last_example =
    p99-last fixed 2 samples (omega arith) (refl, (refl, (refl, tt))) (omega arith)
      (fixed-RankFits 2 (omega arith))
