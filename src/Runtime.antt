-- ===== src/Runtime.antt =====
-- The runtime (src/runtime.rs, src/runtime/): the engine's sizes, the instance pools, tenants, hot
-- reload, and invocation.
pub mod Engine
pub mod Pool
pub mod Tenants
pub mod Reload
pub mod Invoke
pub mod Steps
pub mod Build
pub mod World
pub mod Lifetime
