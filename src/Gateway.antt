-- ===== src/Gateway.antt =====
-- The first gateway, gateway/src.
pub mod Accept
pub mod Audit
pub mod Jwt
pub mod Metrics
pub mod Policy
pub mod Proxy
pub mod RateLimit
pub mod Server
pub mod Ssrf
pub mod Startup
pub mod Telemetry
pub mod Tls
