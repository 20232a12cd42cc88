-- ===== src/Gateway/Auth/Examples.antt =====
-- Keys that are cached, expire and are invalidated.
use llm_platform.Common.{◌+◌, ◌≡◌, refl, none, [], ◌∷◌, ltb, if◌then◌else◌, ok}
use llm_platform.Common.Int.{pos}
use llm_platform.Common.Dict.{get}
use llm_platform.Gateway.Auth.{Principal, Store, cache_ttl, found, no_rows, cached, validate}
use llm_platform.Gateway.Auth.Cache.{answer, validate-cached}

abbrev alice : Principal
alice = record {
  key_id = "k";
  tenant_id = "t";
  routing_mode = "balanced";
  rate_limit_rps = pos 5;
  burst_limit = pos 9;
}

not_cached : cached [] "h" 3 ≡ none
unfolding cached get
not_cached = refl

validate-cached_example :
    (validate (validate [] "h" 3 4 (found alice)).0 "h" 9 9 no_rows).1
    ≡ (if ltb 9 (4 + cache_ttl) then ok alice else answer no_rows)
validate-cached_example = validate-cached [] "h" 3 4 9 alice no_rows not_cached

abbrev store : Store
store = ("h", record { principal = alice; expires_at = 50 }) ∷ []
