-- ===== src/ControlPlane.antt =====
-- services/control-plane: token and spend quotas, the model registry, canary rollouts.
pub mod Quota
pub mod Registry
pub mod Rollout
pub mod Server
