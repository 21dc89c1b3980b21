-- ===== src/Registry.antt =====
-- Module distribution (src/registry.rs and src/registry/): digests, the content store, pins, the
-- reload policy, the OCI client and the facade that joins them.
pub mod Digest
pub mod Action
pub mod Store
pub mod Pins
pub mod Reload
pub mod Oci
pub mod Facade
