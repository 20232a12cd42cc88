-- ===== src/ControlPlane/Quota/Minute.antt =====
-- The per-minute limit: what is counted, and what is let through.
use llm_platform.Common.{
  ℕ, ◌+◌, ◌^◌, ◌<◌, ◌≡◌, refl, ap, ◌∙◌, String, Bool, true, false, not, Option, none, some, List,
  [], ◌∷◌, arith, Option-cases, Bool-cases, inl, inr, if◌then◌else◌, ◌==◌, eq_refl,
}
use llm_platform.Common.Int.{ℤ, pos, ltb_ℤ, ◌+ℤ◌, add_int64}
use llm_platform.Common.Dict.{get, put, get-put_self}
use llm_platform.Common.Float.{Float64}
use llm_platform.ControlPlane.Quota.{
  Config, Enforcer, MinuteCounter, counter_at, check_minute, record_usage, check, check_day,
  load_config, or_default, CheckResult, denied_context, denied_token_minute, denied_token_day,
  denied_budget_day, allowed_result,
}

int64-adds : (a b : ℕ) → a + b < 2 ^ 63 → add_int64 (pos a) (pos b) ≡ pos (a + b)
unfolding add_int64 ◌+ℤ◌
int64-adds a b h = ground (arith, h)

module _ (fl : Float64) where
  -- What the tenant has used in the minute, as the enforcer sees it.
  unfoldable pub used_at : Enforcer fl → String → String → ℤ
  used_at e tenant key = (counter_at fl e tenant key).used

  counter_at-window :
      (e : Enforcer fl) (tenant key : String) → ((counter_at fl e tenant key).window == key) ≡ true
  unfolding counter_at
  counter_at-window e tenant key = elim (Option-cases (get e.minute_counts tenant)) [
    | inl g ↦ rw (g, counter_at) (eq_refl key)
    | inr (mc, g) ↦ elim (Bool-cases (mc.window == key)) [
      | inl w ↦ rw (g, w, counter_at) w
      | inr w ↦ rw (g, w, counter_at) (eq_refl key)
    ]
  ]

  counter_of : Option (MinuteCounter fl) → String → MinuteCounter fl
  counter_of none key = record { used = pos 0; window = key }
  counter_of (some mc) key = if mc.window == key then mc else record { used = pos 0; window = key }

  counter_at-get :
      (e : Enforcer fl) (tenant key : String) (o : Option (MinuteCounter fl))
      → get e.minute_counts tenant ≡ o
      → counter_at fl e tenant key ≡ counter_of o key
  unfolding counter_at counter_of
  counter_at-get e tenant key none g = rw (g, counter_at) refl
  counter_at-get e tenant key (some mc) g = rw (g, counter_at) refl

  counter_at-some :
      (e : Enforcer fl) (tenant key : String) (mc : MinuteCounter fl)
      → get e.minute_counts tenant ≡ some mc
      → (mc.window == key) ≡ true
      → counter_at fl e tenant key ≡ mc
  unfolding counter_of
  counter_at-some e tenant key mc g w = counter_at-get e tenant key (some mc) g ∙ rw w refl

  -- The records of requests that ended in one minute.
  pub record_each : Enforcer fl → String → String → List ℕ → Enforcer fl
  record_each e tenant key [] = e
  record_each e tenant key (t ∷ ts) =
      record_each (record_usage fl e tenant (pos t) key) tenant key ts

  unfoldable pub sum : List ℕ → ℕ
  sum [] = 0
  sum (t ∷ ts) = t + sum ts

  record_usage-put :
      (e : Enforcer fl) (tenant key : String) (mc : MinuteCounter fl) (t : ℤ)
      → get e.minute_counts tenant ≡ some mc
      → (mc.window == key) ≡ true
      → record_usage fl e tenant t key ≡ record e {
        minute_counts = put e.minute_counts tenant (record mc { used = add_int64 mc.used t });
      }
  unfolding record_usage
  record_usage-put e tenant key mc t g w = rw (g, record_usage) (rw (w, record_usage) refl)

  counted :
      (e : Enforcer fl) (tenant key : String) (mc : MinuteCounter fl) (u : ℕ) (ts : List ℕ)
      → get e.minute_counts tenant ≡ some mc
      → (mc.window == key) ≡ true
      → mc.used ≡ pos u
      → u + sum ts < 2 ^ 63
      → used_at (record_each e tenant key ts) tenant key ≡ pos (u + sum ts)
  unfolding record_each sum used_at
  counted e tenant key mc u [] g w n h =
      ap (λ c. c.used) (counter_at-some e tenant key mc g w) ∙ n ∙ ap pos (omega arith)
  counted e tenant key mc u (t ∷ ts) g w n h =
      let mc' : MinuteCounter fl = record mc { used = add_int64 mc.used (pos t) } in
      let e' : Enforcer fl = record e { minute_counts = put e.minute_counts tenant mc' } in
      let n' : add_int64 mc.used (pos t) ≡ pos (u + t) = rw n (int64-adds u t (omega (arith, h))) in
      ap (λ q. used_at (record_each q tenant key ts) tenant key)
        (record_usage-put e tenant key mc (pos t) g w)
      ∙ counted e' tenant key mc' (u + t) ts (get-put_self e.minute_counts tenant mc') w n'
          (omega (arith, h))
      ∙ ap pos (omega arith)

  -- Once a request has been checked in a minute, what is recorded in that minute is all counted, on
  -- top of what was counted before, as long as the sum is within int64.
  pub recorded-counted :
      (e : Enforcer fl) (tenant key : String) (estimated : ℤ) (cfg : Config fl) (u : ℕ)
      (ts : List ℕ)
      → used_at e tenant key ≡ pos u
      → u + sum ts < 2 ^ 63
      → used_at
          (record_each (check_minute fl e tenant estimated cfg key).0 tenant key ts)
          tenant
          key
        ≡ pos (u + sum ts)
  unfolding check_minute used_at
  recorded-counted e tenant key estimated cfg u ts n h =
      let mc = counter_at fl e tenant key in
      counted (record e { minute_counts = put e.minute_counts tenant mc }) tenant key mc u ts
        (get-put_self e.minute_counts tenant mc) (counter_at-window e tenant key) n h

  -- What is recorded in a minute in which the tenant has not been checked is not counted.
  pub unchecked-lost :
      (e : Enforcer fl) (tenant key : String) (t : ℤ)
      → (mc : MinuteCounter fl) → get e.minute_counts tenant ≡ some mc
      → (mc.window == key) ≡ false
      → (record_usage fl e tenant t key ≡ e) × (used_at e tenant key ≡ pos 0)
  unfolding record_usage used_at counter_of
  unchecked-lost e tenant key t mc g w =
      let new : MinuteCounter fl = record { used = pos 0; window = key } in
      let lost : counter_of (some mc) key ≡ new = rw w refl in
      (
        rw (g, record_usage) (rw (w, record_usage) refl),
        ap (λ c. c.used) (counter_at-get e tenant key (some mc) g ∙ lost),
      )

  -- The configuration that a check goes by: the cached one, the database's, or the default.
  pub config_for : Enforcer fl → String → ℕ → Option (Config fl) → Config fl
  config_for e tenant now row = or_default fl (load_config fl e tenant now row).1 tenant

  all_pass :
      (a f c d : Bool) (e1 e2 : Enforcer fl)
      → (let answer : Enforcer fl × CheckResult fl =
            if a then (e1, denied_context fl) else if not f then (e2, denied_token_minute fl) else (
              e2,
              if c
                  then denied_token_day fl
                  else if d
                  then denied_budget_day fl
                  else allowed_result fl,
            ) in
          answer.1.allowed ≡ true)
      → (a ≡ false) × (f ≡ true) × (c ≡ false) × (d ≡ false)
  all_pass true f c d e1 e2 h = absurd (cc h)
  all_pass false false c d e1 e2 h = absurd (cc h)
  all_pass false true true d e1 e2 h = absurd (cc h)
  all_pass false true false true e1 e2 h = absurd (cc h)
  all_pass false true false false e1 e2 h = (refl, refl, refl, refl)

  -- A check that allows a request has found the context within its limit, the estimate within what
  -- the minute has left, and within what the day has left in tokens and in money.
  pub check-allowed :
      (e : Enforcer fl) (tenant : String) (estimated context : ℤ) (now : ℕ) (key : String)
      (row : Option (Config fl)) (usage : ℤ × fl.Num)
      → (check fl e tenant estimated context now key row usage).1.allowed ≡ true
      → let cfg = config_for e tenant now row in
        (ltb_ℤ cfg.max_context_tokens context ≡ false)
        × ((check_minute fl (load_config fl e tenant now row).0 tenant estimated cfg key).1 ≡ true)
        × (ltb_ℤ cfg.tokens_per_day (add_int64 usage.0 estimated) ≡ false)
        × (fl.lt cfg.budget_usd_per_day
              (fl.add usage.1 (fl.mul (fl.div (fl.of_int estimated) (fl.lit 1000 0)) (fl.lit 1 4)))
            ≡ false)
  unfolding check check_day config_for
  check-allowed e tenant estimated context now key row usage h =
      let (e1, found) = load_config fl e tenant now row in
      let cfg = or_default fl found tenant in
      let (e2, fits) = check_minute fl e1 tenant estimated cfg key in
      all_pass (ltb_ℤ cfg.max_context_tokens context) fits
        (ltb_ℤ cfg.tokens_per_day (add_int64 usage.0 estimated))
        (fl.lt cfg.budget_usd_per_day
          (fl.add usage.1 (fl.mul (fl.div (fl.of_int estimated) (fl.lit 1000 0)) (fl.lit 1 4))))
        e1 e2 h
