-- ===== src/RustGateway/Policy.antt =====
-- rust-gateway/src/policy.rs: the engine has no data, and grants everything.
use app_gate.Base.{String, Bool, true}

unfoldable pub evaluate : String → String → String → Bool
evaluate identity resource action = true
