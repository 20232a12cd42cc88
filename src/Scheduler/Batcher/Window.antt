-- ===== src/Scheduler/Batcher/Window.antt =====
-- The adaptive wait window, and that the loop never panics once a dial has succeeded.
use llm_platform.Common.{
  ℕ, suc, ◌/◌, ◌≤◌, ◌<◌, ◌≡◌, refl, sym, ap, ◌∙◌, inl, inr, true, false, Bool-cases, some, List, [],
  ◌∷◌, ◌++◌, arith, All, length, min,
}
use llm_platform.Common.Float.{Float64}
use llm_platform.Percentile.{RankFits}
use llm_platform.Scheduler.Queue.{ModelQueue, depth}
use llm_platform.Scheduler.Histogram.{LatencyHist, new_latency_hist, record_latency, p99}
use llm_platform.Scheduler.Histogram.Window.{
  record_all, p99-last, p99_empty, record_all-append, record_all-nil,
}
use llm_platform.Scheduler.Batcher.{Config, wait_window, Batcher, adaptive_wait}

module _ (fl : Float64) where
  open fl use {Num, of_nat, nan, lt, mul, lit}

  -- If the least window is at most half of the greatest, the wait is always between the two limits, a
  -- deeper queue never makes it longer, and a p99 over 1.5 times the target makes it the least.
  pub wait_window-antitone :
      (cfg : Config fl) (d e : ℕ) (v : Num)
      → cfg.min_wait_ms ≤ cfg.max_wait_ms / 2
      → d ≤ e
      → (cfg.min_wait_ms ≤ wait_window fl cfg d v)
        × (wait_window fl cfg d v ≤ cfg.max_wait_ms)
        × (wait_window fl cfg e v ≤ wait_window fl cfg d v)
        × (lt (mul cfg.p99_slo_ms (lit 15 1)) v ≡ true → wait_window fl cfg d v ≡ cfg.min_wait_ms)
  unfolding wait_window
  wait_window-antitone cfg d e v half le =
      elim (Bool-cases (lt (mul cfg.p99_slo_ms (lit 15 1)) v)) [
        | inl over ↦ rw over (ground arith, ground arith, ground arith, λ _. ground arith)
        | inr under ↦ rw under (ground arith, ground arith, ground arith, λ h. cc h)
      ]

  -- The histogram has seen numbers only.
  pub record Sampled (h : LatencyHist fl) : Type 0 where
    pub samples_seen : List Num
    pub seen : h ≡ record_all fl (new_latency_hist fl 1000) samples_seen
    pub numbers : All (λ x. nan x ≡ false) samples_seen

  abbrev pub RanksFit : Type 0
  RanksFit = (n : ℕ) → 0 < n → n ≤ 1000 → RankFits fl n

  pub Sampled-new : Sampled (new_latency_hist fl 1000)
  Sampled-new = record {
    samples_seen = [];
    seen = sym (record_all-nil fl (new_latency_hist fl 1000));
    numbers = tt;
  }

  All-snoc :
      (xs : List Num) (x : Num)
      → All (λ x. nan x ≡ false) xs
      → nan x ≡ false
      → All (λ x. nan x ≡ false) (xs ++ x ∷ [])
  All-snoc [] x h p = (p, tt)
  All-snoc (y ∷ xs) x h p = (h.0, All-snoc xs x h.1 p)

  pub Sampled-record :
      (h : LatencyHist fl) (x : Num) → Sampled h → nan x ≡ false → Sampled (record_latency fl h x)
  Sampled-record h x s p = record {
    samples_seen = s.samples_seen ++ x ∷ [];
    seen =
        ap (λ k. record_latency fl k x) s.seen
        ∙ record_all-append fl (new_latency_hist fl 1000) s.samples_seen x;
    numbers = All-snoc s.samples_seen x s.numbers p;
  }

  pub p99-Sampled : RanksFit → (h : LatencyHist fl) → Sampled h → (v : Num) × (p99 fl h ≡ some v)
  p99-Sampled fits h s = go s.samples_seen s.seen s.numbers
    where
      go :
          (xs : List Num)
          → h ≡ record_all fl (new_latency_hist fl 1000) xs
          → All (λ x. nan x ≡ false) xs
          → (v : Num) × (p99 fl h ≡ some v)
      go [] e n = (
        of_nat 0,
        ap (p99 fl) (e ∙ record_all-nil fl (new_latency_hist fl 1000)) ∙ p99_empty fl 1000,
      )
      go (x ∷ xs) e n =
          let fit = fits (min (suc (length xs)) 1000) (omega arith) (omega arith) in
          let (v, found, _) = (p99-last fl 1000 (x ∷ xs) (omega arith) n (omega arith) fit).1 in
          (v, ap (p99 fl) e ∙ found)

  pub adaptive_wait-Sampled :
      {Client Failure : Type 0} (fits : RanksFit) (b : Batcher fl Client Failure) (q : ModelQueue)
      → Sampled b.latency
      → (wait : ℕ) × (adaptive_wait fl Client Failure b q ≡ some wait)
  unfolding adaptive_wait
  adaptive_wait-Sampled fits b q s =
      let (v, e) = p99-Sampled fits b.latency s in
      (wait_window fl b.cfg (depth q) v, rw (e, adaptive_wait) refl)
