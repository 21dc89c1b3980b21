-- ===== src/Component.antt =====
-- Component artifacts (src/component/): loading and the guest contract, and the host side of a
-- guest's imports.
pub mod Loader
pub mod Linker
