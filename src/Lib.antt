-- ===== src/Lib.antt =====
-- Ember, an edge runtime for WebAssembly components: models of its own code, with their proofs.
--
-- The binary (src/main.rs) reads the configuration (src/config.rs), builds the runtime and serves. A
-- request comes in through the ingress (src/http/ingress.rs), which limits its body, reads the
-- tenant's name and calls the runtime. The runtime (src/runtime.rs) keeps a tenant for each name:
-- its sandbox, its egress bridge, its active component and a pool of instances. An invocation
-- (src/runtime/invoke.rs) takes an instance of the active digest from the pool or builds one, calls
-- the guest, and puts the instance back after a response. The guest reaches the host by the imports
-- of src/component/linker.rs: scratch files with a quota (src/wasi/sandbox.rs), preopened
-- directories (src/wasi.rs), and outbound HTTP under an allowlist (src/http/bridge.rs). Components
-- come from files or from an OCI registry (src/registry.rs, src/registry/oci.rs) over a store of
-- blobs named for their digests (src/registry/store.rs); src/component/loader.rs admits them. A
-- reload pass pulls each tenant's reference again and swaps the component when its digest moved.
--
-- Files, and the code that each is about:
--   Prelude, Text, Numbers      shared names; Rust's strings as lists of code points; u64, i64 and
--                               `usize` with 64 bits; durations in nanoseconds
--   Errors                      src/error.rs: `Error`, its texts and statuses, and `Result` with `?`
--   TenantId                    src/runtime.rs: `TenantId::new` and `parse`
--   Sandbox.Limits, .MemFs, .ScratchPath, .Assembly
--                               src/wasi/sandbox.rs: `SandboxLimits`, `MemFs`, paths as its keys,
--                               `Sandbox`. `MemFs::remove` is `remove_file`
--   Egress.Pattern, .Policy, .Bridge
--                               src/http/bridge.rs: `pattern_matches` and `host_matches`,
--                               `EgressPolicy`, `HttpBridge`
--   Config.Data, .Memory, .Loading
--                               src/config.rs: records and defaults, `parse_memory`, `Config::load`
--   Registry.Digest, .Store, .Pins, .Reload
--                               src/registry/store.rs, and `parse_digest` and `verify_digest` of
--                               src/registry/oci.rs
--   Registry.Oci, .Facade       src/registry/oci.rs: `OciClient`; src/registry.rs: `Registry::pull`
--   Component.Loader, .Linker   src/component/loader.rs; src/component/linker.rs
--   Wasi                        src/wasi.rs: `Wasi::new`
--   Telemetry, .Recorder, .Logging
--                               src/telemetry.rs: the samples that are recorded; the recorder and the
--                               descriptions; `init`
--   Runtime.Engine, .Pool, .Invoke
--                               src/runtime/engine.rs; src/runtime/invoke.rs: `InstancePool`,
--                               `invoke`
--   Runtime.Tenants, .Build     src/runtime.rs: `load_tenant`; `Runtime::build`
--   Runtime.Reload, .Steps      src/runtime.rs: `swap`, `poll_once` and the loop; reload passes and
--                               invocations of one tenant, as a step relation
--   Runtime.Lifetime            src/runtime.rs: a start and the turns of the loop, over one store
--   Runtime.World               src/runtime.rs and src/runtime/invoke.rs: the whole runtime as a step
--                               relation, with tenants that are shared by reference
--   Ingress, .Routes, .Server   src/http/ingress.rs: `dispatch` and `IngressError`; the routes, with
--                               the runtime as the dispatcher; the layers and `serve`
--   CommandLine                 src/main.rs
--   Tests                       runs on concrete values
--
-- State is passed on: an operation returns the state after it. A `MemFs` method holds the lock to
-- its end and is one step, and so are `acquire` and `release`. Code of the registry is an action
-- on the store's directory, whose changes stay when it fails; `put` is its system calls on a disk
-- that knows which files are not synced, each call with an answer, so that a stop of the machine is a
-- prefix of them that may tear those files. What a guest
-- makes of the shared scratch in a call is a parameter of the invocation; each import by itself is
-- in Component.Linker.
--
-- Parameters stand for what is not in the repository: SHA-256 as a function from blobs to texts,
-- the OCI client, wasm-tools, wasmtime's compiler and instances, the HTTP client, the collecting of
-- bodies, the environment, files, and clocks as readings. Nothing is assumed of them but what a
-- theorem names.
--
-- Loops are structural; only printing of decimal numbers takes fuel, one more than the number.
-- Counters wrap at 2^64 as the atomics do.
--
-- Not modelled: the parsing of arguments, the matching of paths, what the layers of tower do (their
-- order and settings are in Ingress.Server, and the one that catches panics is in Ingress.Routes),
-- the shutdown signal, and the memory, table and time limits that wasmtime itself enforces. The
-- linker's wiring is known by wasmtime's answers. A task in the background is known by its work and
-- its interval; what its work does is in Runtime.Reload and Runtime.World.
pub mod Prelude
pub mod Text
pub mod Numbers
pub mod Errors
pub mod TenantId
pub mod Sandbox
pub mod Egress
pub mod Registry
pub mod Wasi
pub mod Component
pub mod Config
pub mod Telemetry
pub mod Runtime
pub mod Ingress
pub mod CommandLine
pub mod Tests
