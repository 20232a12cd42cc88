-- ===== src/Gateway/Server/Accounts.antt =====
-- What the handlers of services/api-gateway/cmd/main.go count.
use llm_platform.Common.{ℕ, suc, ◌+◌, ◌≤◌, ◌≡◌, List, [], ◌∷◌}
use llm_platform.Common.Float.{Float64}
use llm_platform.Gateway.Server.{
  Gateway, GatewayMetrics, Incoming, World, Handled, handle_inference,
}

-- Of `t` requests `n` were judged, of the admitted ones `k` at least are not yet answered.
pub record IsCount (t n k : ℕ) (m : GatewayMetrics) : Type 0 where
  pub total : m.total ≡ t
  pub judged : m.auth_failed + m.admit_failed + m.admitted ≡ n
  pub answered : m.routed + m.errors + m.streamed + k ≤ m.admitted
  pub rate_limited : m.rate_limited ≡ 0

module _ (fl : Float64) where
  abbrev Counted : ℕ → Handled fl → Type 0
  Counted n h = IsCount (suc n) (suc n) 0 h.gateway.m

  -- Requests one after the other.
  unfoldable pub handle_all : Gateway → List (World fl × Incoming) → Gateway
  handle_all g [] = g
  handle_all g ((w, r) ∷ rs) = handle_all (handle_inference fl w g r).gateway rs
