-- ===== src/Config.antt =====
-- Runtime configuration (src/config.rs).
pub mod Memory
pub mod Data
pub mod Loading
