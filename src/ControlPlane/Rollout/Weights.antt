-- ===== src/ControlPlane/Rollout/Weights.antt =====
-- Which weights a rollout gives, and what is left of it after a rollback.
use llm_platform.Common.{
  ◌≡◌, refl, sym, ap, ◌∙◌, String, Bool, true, false, not, Option-cases, Bool-cases, inl, inr,
  Option, none, some, if◌then◌else◌, ◌==◌, eq_iff,
}
use llm_platform.Common.Dict.{get, get-put}
use llm_platform.Common.Float.{Float64}
use llm_platform.ControlPlane.Rollout.{Config, Manager, rollback}

module _ (fl : Float64) where
  open fl use {Num, of_nat, lit, sub, eq}

  pub switched_off : Option (Config fl) → Option (Config fl)
  switched_off none = none
  switched_off (some cfg) = some (record cfg { enabled = false })

  -- A rollback disables the rollout, if there is one of that name, and leaves every other as it was.
  pub rollback-get :
      (m : Manager fl) (id other : String)
      → get (rollback fl m id true).0 other
        ≡ (if id == other then switched_off (get m id) else get m other)
  unfolding rollback switched_off
  rollback-get m id other = elim (Option-cases (get m id)) [
    | inl e ↦
        rw (e, rollback)
          (elim (Bool-cases (id == other)) [
            | inl same ↦ rw same (ap (get m) (sym ((eq_iff id other).0 same)) ∙ e)
            | inr e' ↦ rw e' refl
          ])
    | inr (cfg, e) ↦ rw (e, rollback) (get-put m id other (record cfg { enabled = false }))
  ]

  pub off : Option (Config fl) → Bool
  off none = true
  off (some cfg) = not cfg.enabled
