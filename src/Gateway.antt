-- ===== src/Gateway.antt =====
-- services/api-gateway: admission of requests and authentication.
pub mod Admission
pub mod Auth
pub mod Server
