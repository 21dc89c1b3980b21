-- ===== src/Tests.antt =====
-- Runs of the models on concrete inputs, one module for each part of the program.
mod Fixtures
mod SandboxTests
mod EgressTests
mod ConfigTests
mod RegistryTests
mod ComponentTests
mod RuntimeTests
mod IngressTests
mod ReloadTests
mod LoadTests
mod WorldTests
mod ProgressTests
mod LoopTests
mod BuildTests
mod StartTests
mod LifetimeTests
mod SucceedsTests
