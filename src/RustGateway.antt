-- ===== src/RustGateway.antt =====
-- The production gateway, rust-gateway/src.
pub mod Config
pub mod Accept
pub mod Audit
pub mod Cache
pub mod CircuitBreaker
pub mod Health
pub mod Ssrf
pub mod Startup
pub mod Telemetry
pub mod Tls
pub mod RateLimit
pub mod Router
pub mod Jwt
pub mod Lifecycle
pub mod Metrics
pub mod Policy
pub mod Proxy
pub mod Server
