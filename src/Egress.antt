-- ===== src/Egress.antt =====
-- Outbound HTTP (src/http/bridge.rs): the egress allowlist, and the bridge that applies it.
pub mod Pattern
pub mod Policy
pub mod Bridge
