-- ===== src/Runtime/Build.antt =====
-- `Runtime::build` (src/runtime.rs): the engine, the linker, the registry's settings and all
-- tenants, in their order, then the tasks in the background. What the registry and the system answer
-- may differ from tenant to tenant.
pub mod Loaded
pub mod Started
pub mod Succeeds
use ember_edge.Prelude.{ℕ, ◌≡◌, Option, List, [], ◌∷◌, ◌++◌, arith}
use ember_edge.Text.Basic.{Str}
use ember_edge.Errors.{Error}
use ember_edge.Errors.Monad.{Result, map_err}
use ember_edge.Telemetry.{Sample}
use ember_edge.Component.Linker.{LinkerAnswers, build_linker}
use ember_edge.Egress.Policy.{default_policy}
use ember_edge.Egress.Bridge
use ember_edge.Egress.Bridge.{HttpBridge, ClientSettings}
use ember_edge.Registry.Facade
use ember_edge.Registry.Facade.{Registry}
use ember_edge.Registry.Action.{Action, ◌>>=◌, ◌>>◌, pure, lift}
use ember_edge.Registry.Oci.{OciClientConfig}
use ember_edge.Registry.Reload
use ember_edge.Registry.Reload.{HotReloadPolicy}
use ember_edge.Config.Data.{TenantConfig, RegistryConfig, HttpConfig, Config, pull_interval}
use ember_edge.Runtime.Engine
use ember_edge.Runtime.Engine.{
  EngineBuilder, WasmConfig, Task, polls_once, from_config, spawn_epoch_ticker,
}
use ember_edge.Runtime.Tenants.{Tenants, Host, load_tenant}

pub record Runtime (I : Type 0) : Type 0 where
  pub engine : EngineBuilder
  pub bridge : HttpBridge
  pub registry : Registry
  pub http : HttpConfig
  pub bind : Str
  pub policy : HotReloadPolicy
  pub tenants : Tenants I
  pub background : List Task

unfoldable pub client_config : RegistryConfig → OciClientConfig
client_config r = record {
  endpoint = r.endpoint;
  insecure = r.insecure;
  cache_dir = r.cache_dir;
  manifest_cache_ttl = pull_interval r;
}

unfoldable pub reload_policy : RegistryConfig → HotReloadPolicy
reload_policy r = record Reload.default_policy { poll_interval = pull_interval r }

module _ {I : Type 0} (hosts : TenantConfig → Host) (clock : TenantConfig → ℕ) where
  unfoldable pub load_tenants : List TenantConfig → Tenants I → Action (Tenants I × List Sample)
  load_tenants [] tenants = pure (tenants, [])
  load_tenants (cfg ∷ cfgs) tenants = do
    first ← load_tenant (hosts cfg) (clock cfg) cfg tenants
    rest ← load_tenants cfgs first.0
    pure (rest.0, first.1 ++ rest.1)

-- The registry's client is the one of the configuration.
abbrev pub with_client : (TenantConfig → Host) → Config → TenantConfig → Host
with_client hosts config cfg = record (hosts cfg) { client = client_config config.registry }

-- What wasmtime, reqwest and the system answer while a runtime is built.
pub record Setup : Type 0 where
  pub compile_engine : WasmConfig → Result Str (Unit {0})
  pub make_linker : LinkerAnswers
  pub build_client : ClientSettings → Result Str (Unit {0})
  pub var : Str → Option Str
  pub create_dir_all : Str → Result Str (Unit {0})

unfoldable pub spawn_reload_loop : HotReloadPolicy → Task
spawn_reload_loop policy = polls_once policy.poll_interval

unfoldable pub start_background : {I : Type 0} → Config → Runtime I → Runtime I
unfolding spawn_reload_loop
start_background config runtime = record runtime {
  background =
      runtime.background
      ++ (spawn_epoch_ticker (from_config config.engine) ∷ spawn_reload_loop runtime.policy ∷ []);
}

module _ {I : Type 0} (hosts : TenantConfig → Host) (clock : TenantConfig → ℕ) (setup : Setup) where
  unfoldable pub build : Config → Action (Runtime I × List Sample)
  unfolding start_background
  build config = do
    lift (Engine.build setup.compile_engine (from_config config.engine))
    lift (build_linker setup.make_linker)
    bridge ← lift (Bridge.new setup.build_client default_policy config.http.max_body_bytes)
    registry ← lift (
        Facade.new setup.var setup.create_dir_all (client_config config.registry)
          (reload_policy config.registry))
    loaded ← load_tenants (with_client hosts config) clock config.tenants []
    pure (
      start_background config (record {
        engine = from_config config.engine;
        bridge = bridge;
        registry = registry;
        http = config.http;
        bind = config.bind;
        policy = reload_policy config.registry;
        tenants = loaded.0;
        background = [];
      }),
      loaded.1,
    )
