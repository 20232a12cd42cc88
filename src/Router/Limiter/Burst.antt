-- ===== src/Router/Limiter/Burst.antt =====
-- What a token bucket lets through.
use llm_platform.Common.{
  ℕ, zero, suc, ◌+◌, ◌-◌, ◌≤◌, ◌≡◌, refl, ap, ◌∙◌, inl, inr, arith, String, Bool, true, false, none,
  some, List, [], ◌∷◌, ◌++◌, if◌then◌else◌, Bool-cases, ◌==◌, leb, replicate, min,
}
use llm_platform.Common.Int.{ℤ, pos}
use llm_platform.Common.Dict.{get, get-put}
use llm_platform.Common.Float.{Float64}
use llm_platform.Router.Limiter.{Bucket, RateLimiter, min64, take_token, new_bucket, allow}

module _ (fl : Float64) (seconds : ℕ → fl.Num) where
  open fl use {Num, of_nat, of_int, add, sub, mul, lt, le, lt_irrefl}

  min64-bound : (a b : Num) → lt a (min64 fl seconds a b) ≡ false
  unfolding min64
  min64-bound a b = elim (Bool-cases (lt a b)) [ inl e ↦ rw e (lt_irrefl a) | inr e ↦ rw e e ]

  -- If taking one from a number never brings it above a bound that it was not above, then after a
  -- call the bucket holds no more than the burst of that call, whatever it held before.
  pub take_token-bound :
      (b : Bucket fl seconds) (rate_rps burst : ℤ) (now : ℕ)
      → ((bound x : Num) → lt bound x ≡ false → lt bound (sub x (of_nat 1)) ≡ false)
      → lt (of_int burst) (take_token fl seconds b rate_rps burst now).0.tokens ≡ false
  unfolding take_token
  take_token-bound b rate_rps burst now sub_one =
      let tokens =
        min64 fl seconds (of_int burst)
          (add b.tokens (mul (seconds (now - b.last_fill)) (of_int rate_rps))) in
      elim (Bool-cases (le (of_nat 1) tokens)) [
        | inl e ↦ rw e (sub_one (of_int burst) tokens (min64-bound (of_int burst) _))
        | inr e ↦ rw e (min64-bound (of_int burst) _)
      ]

  -- A call does to the bucket of its tenant what it does to a bucket alone, and leaves the bucket of
  -- every other tenant as it was.
  pub allow-isolated :
      (rl : RateLimiter fl seconds) (tenant other : String) (rate_rps burst : ℤ) (created now : ℕ)
      → get (allow fl seconds rl tenant rate_rps burst created now).0 other ≡ (
          if tenant == other
          then some
              (take_token fl seconds
                (elim (get rl tenant) [
                  | some b ↦ b
                  | none ↦ new_bucket fl seconds rate_rps burst created
                ])
                rate_rps
                burst
                now).0
          else get rl other)
  unfolding allow
  allow-isolated rl tenant other rate_rps burst created now = get-put rl tenant other _

  -- What the limiter relies on of float64: it counts exactly up to the burst, and no time is 0 seconds.
  pub record CountsTo (burst : ℕ) (rate : Num) : Type 0 where
    pub of_pos : of_int (pos burst) ≡ of_nat burst
    pub less_one : (n : ℕ) → n + 1 ≤ burst → sub (of_nat (n + 1)) (of_nat 1) ≡ of_nat n
    pub one_le : (n : ℕ) → n ≤ burst → le (of_nat 1) (of_nat n) ≡ leb 1 n
    pub not_above : (n : ℕ) → n ≤ burst → lt (of_nat burst) (of_nat n) ≡ false
    pub no_refill : (n : ℕ) → n ≤ burst → add (of_nat n) (mul (seconds 0) rate) ≡ of_nat n

  -- The answers to a number of calls at one instant.
  pub calls_at : Bucket fl seconds → ℤ → ℤ → ℕ → ℕ → List Bool
  calls_at b rate_rps burst now zero = []
  calls_at b rate_rps burst now (suc k) =
      let (b', allowed) = take_token fl seconds b rate_rps burst now in
      allowed ∷ calls_at b' rate_rps burst now k

  held : ℕ → ℤ → ℤ → ℕ → Bucket fl seconds
  held n rate_rps burst now = record {
    tokens = of_nat n;
    max_burst = of_int burst;
    rate = of_int rate_rps;
    last_fill = now;
  }

  level :
      (n burst : ℕ) (rate_rps : ℤ)
      → CountsTo burst (of_int rate_rps)
      → n ≤ burst
      → min64 fl seconds (of_int (pos burst)) (add (of_nat n) (mul (seconds 0) (of_int rate_rps)))
        ≡ of_nat n
  unfolding min64
  level n burst rate_rps c h = rw (c.no_refill n h, c.of_pos, c.not_above n h) refl

  take_held :
      (n burst now : ℕ) (rate_rps : ℤ)
      → CountsTo burst (of_int rate_rps)
      → n + 1 ≤ burst
      → take_token fl seconds (held (n + 1) rate_rps (pos burst) now) rate_rps (pos burst) now
        ≡ (held n rate_rps (pos burst) now, true)
  unfolding take_token held
  take_held n burst now rate_rps c h =
      let z : now - now ≡ 0 = omega arith in
      let o : leb 1 (n + 1) ≡ true = ground arith in
      rw (z, level (n + 1) burst rate_rps c h, c.one_le (n + 1) h, o, c.less_one n h) refl

  take_none :
      (burst now : ℕ) (rate_rps : ℤ)
      → CountsTo burst (of_int rate_rps)
      → take_token fl seconds (held 0 rate_rps (pos burst) now) rate_rps (pos burst) now
        ≡ (held 0 rate_rps (pos burst) now, false)
  unfolding take_token held
  take_none burst now rate_rps c =
      let z : now - now ≡ 0 = omega arith in
      rw (z, level 0 burst rate_rps c (omega arith), c.one_le 0 (omega arith)) refl

  held-calls :
      (k n burst now : ℕ) (rate_rps : ℤ)
      → CountsTo burst (of_int rate_rps)
      → n ≤ burst
      → calls_at (held n rate_rps (pos burst) now) rate_rps (pos burst) now k
        ≡ replicate (min k n) true ++ replicate (k - n) false
  unfolding calls_at
  held-calls zero n burst now rate_rps c h =
      let a : min 0 n ≡ 0 = omega arith in let b : 0 - n ≡ 0 = omega arith in rw (a, b) refl
  held-calls (suc k) zero burst now rate_rps c h =
      let a : min (suc k) 0 ≡ 0 = omega arith in
      let a' : min k 0 ≡ 0 = omega arith in
      let b : suc k - 0 ≡ suc k = omega arith in
      let b' : k - 0 ≡ k = omega arith in
      let rest = held-calls k zero burst now rate_rps c h in
      rw (take_none burst now rate_rps c, a, b) (ap (λ t. false ∷ t) (rw (a', b') at rest))
  held-calls (suc k) (suc n) burst now rate_rps c h =
      let a : min (suc k) (suc n) ≡ suc (min k n) = omega arith in
      let b : suc k - suc n ≡ k - n = omega arith in
      let n' : suc n ≡ n + 1 = omega arith in
      rw (a, b)
        (rw (n', take_held n burst now rate_rps c (omega arith))
          (ap (λ t. true ∷ t) (held-calls k n burst now rate_rps c (omega arith))))

  -- Of any number of calls at one instant, a new tenant has exactly `burst` let through, the first
  -- ones, if float64 counts exactly that far.
  pub new_bucket-burst :
      (burst now k : ℕ) (rate_rps : ℤ)
      → CountsTo burst (of_int rate_rps)
      → calls_at (new_bucket fl seconds rate_rps (pos burst) now) rate_rps (pos burst) now k
        ≡ replicate (min k burst) true ++ replicate (k - burst) false
  unfolding new_bucket held
  new_bucket-burst burst now k rate_rps c =
      ap
        (λ t.
          calls_at
            (record {
              tokens = t;
              max_burst = of_int (pos burst);
              rate = of_int rate_rps;
              last_fill = now;
            })
            rate_rps (pos burst) now k)
        c.of_pos
      ∙ held-calls k burst burst now rate_rps c (omega arith)
