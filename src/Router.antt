-- ===== src/Router.antt =====
-- services/router: circuit breakers, tenant policies, the rate limiter, health tracking, scoring, and the loop over the breakers.
pub mod Breaker
pub mod Policies
pub mod Limiter
pub mod Health
pub mod Scorer
pub mod Candidates
pub mod Store
pub mod Server
pub mod Middleware
mod Examples
