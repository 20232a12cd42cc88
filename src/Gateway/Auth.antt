-- ===== src/Gateway/Auth.antt =====
-- services/api-gateway/internal/auth/auth.go: `Store`, the cache of principals in front of the
-- database. The answer of the query is an argument: a row, no row, or another error. Times are
-- nanoseconds.
pub mod Cache
mod Examples
use llm_platform.Common.{
  ℕ, ◌+◌, ◌*◌, String, Bool, true, false, not, Option, none, some, ltb, if◌then◌else◌, Result, ok,
  err,
}
use llm_platform.Common.Int.{ℤ}
use llm_platform.Common.Dict.{Dict, get, put, delete, retain}

pub record Principal : Type 0 where
  pub key_id : String
  pub tenant_id : String
  pub routing_mode : String
  pub rate_limit_rps : ℤ
  pub burst_limit : ℤ

pub record CacheEntry : Type 0 where
  pub principal : Principal
  pub expires_at : ℕ

abbrev pub cache_ttl : ℕ
cache_ttl = 60 * 1_000_000_000

abbrev pub Store : Type 0
Store = Dict CacheEntry

pub data AuthError : Type 0 where
  unauthorized store_failure : AuthError

pub data Row : Type 0 where
  found : Principal → Row
  no_rows failed : Row

-- The cached principal, if its time is not over.
unfoldable pub cached : Store → String → ℕ → Option Principal
cached s key_hash now = elim (get s key_hash) [
  | none ↦ none
  | some entry ↦ if ltb now entry.expires_at then some entry.principal else none
]

-- `Validate`; `row` answers the query that a miss makes, `now` and `later` are the clock.
unfoldable pub validate : Store → String → ℕ → ℕ → Row → Store × Result AuthError Principal
validate s key_hash now later row = elim (cached s key_hash now) [
  | some p ↦ (s, ok p)
  | none ↦ elim row [
    | no_rows ↦ (s, err unauthorized)
    | failed ↦ (s, err store_failure)
    | found p ↦ (put s key_hash (record { principal = p; expires_at = later + cache_ttl }), ok p)
  ]
]

-- One turn of `cleanup`.
unfoldable pub cleanup : Store → ℕ → Store
cleanup s now = retain (λ e. not (ltb e.expires_at now)) s

unfoldable pub invalidate : Store → String → Store
invalidate s key_hash = delete s key_hash
