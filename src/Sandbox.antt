-- ===== src/Sandbox.antt =====
-- Per-tenant sandboxes (src/wasi/sandbox.rs): the limits, the scratch file system, and the sandbox
-- that joins them.
pub mod Limits
pub mod ScratchPath
pub mod MemFs
pub mod Assembly
