-- ===== src/Percentile/Decimals.antt =====
-- The rank on decimals of three places.
use llm_platform.Common.{ℕ, ◌+◌, ◌*◌, ◌/◌, ◌<◌, ◌≡◌, ap, arith}
use llm_platform.Common.Int.{pos}
use llm_platform.Common.Fixed.{fixed}
use llm_platform.Percentile.{rank, RankFits}

rank-fixed : (n : ℕ) → rank fixed n ≡ pos ((n * 990 + 999) / 1000)
unfolding rank
rank-fixed n = ap pos (omega arith)

-- On these decimals `ceil(n * 0.99)` is between 1 and n.
pub fixed-RankFits : (n : ℕ) → 0 < n → RankFits fixed n
fixed-RankFits n lo = ((n * 990 + 999) / 1000, rank-fixed n, omega arith, omega arith)
