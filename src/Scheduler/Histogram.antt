-- ===== src/Scheduler/Histogram.antt =====
-- services/scheduler/internal/batcher/batcher.go: `latencyHist`, the ring of dispatch latencies and
-- its p99. The program makes it of 1000 places; `head` counts the samples and does not wrap.
pub mod Window
mod Examples
use llm_platform.Common.{
  ℕ, ◌+◌, ◌%◌, min, Option, some, List, [], ◌∷◌, length, replicate, set, take, eqb, if◌then◌else◌,
}
use llm_platform.Common.Float.{Float64}
use llm_platform.Percentile.{nearest_rank}

module _ (fl : Float64) where
  open fl use {Num, of_nat}

  pub record LatencyHist : Type 0 where
    pub samples : List Num
    pub head : ℕ
    pub cap : ℕ

  unfoldable pub new_latency_hist : ℕ → LatencyHist
  new_latency_hist cap = record { samples = replicate cap (of_nat 0); head = 0; cap = cap }

  unfoldable pub record_latency : LatencyHist → Num → LatencyHist
  record_latency h ms = record h { samples = set h.samples (h.head % h.cap) ms; head = h.head + 1 }

  -- `none` is the panic of an index out of range.
  unfoldable pub p99 : LatencyHist → Option Num
  p99 h =
      let n = min h.head h.cap in
      if eqb n 0 then some (of_nat 0) else nearest_rank fl (take n h.samples)
