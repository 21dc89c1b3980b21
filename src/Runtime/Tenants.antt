-- ===== src/Runtime/Tenants.antt =====
-- The tenants of a runtime and what loading one does (src/runtime.rs). Times are readings of the
-- monotonic clock in nanoseconds, and are arguments.
pub mod Built
use ember_edge.Prelude.{ℕ, Option, none, List, lookup, insert, length}
use ember_edge.Text.Basic.{Str, str_Eq}
use ember_edge.Errors.{Error}
use ember_edge.Errors.Monad.{Result, map_err}
use ember_edge.TenantId
use ember_edge.TenantId.{TenantId}
use ember_edge.Telemetry.{Sample, record_reload}
use ember_edge.Sandbox.Assembly
use ember_edge.Sandbox.Assembly.{Sandbox}
use ember_edge.Egress.Bridge
use ember_edge.Egress.Bridge.{HttpBridge, ClientSettings}
use ember_edge.Component.Loader.{Loaded, from_path, ensure_contract}
use ember_edge.Registry.Digest.{Blob}
use ember_edge.Registry.Action.{Action, ◌>>=◌, ◌>>◌, pure, lift}
use ember_edge.Registry.Oci.{OciClientConfig, Environment}
use ember_edge.Registry.Facade.{pull}
use ember_edge.Config.Data.{ComponentSource, TenantConfig}
use ember_edge.Runtime.Pool
use ember_edge.Runtime.Pool.{InstancePool}

pub record ActiveComponent : Type 0 where
  pub loaded : Loaded
  pub digest : Str
  pub activated_at : ℕ

-- `I` is what a pooled instance is.
pub record Tenant (I : Type 0) : Type 0 where
  pub id : TenantId
  pub sandbox : Sandbox
  pub bridge : HttpBridge
  pub source : ComponentSource
  pub active : ActiveComponent
  pub pool : InstancePool I
  pub failures : ℕ
  pub invocations : ℕ
  pub last_swap : ℕ

-- What loading relies on besides the registry: wasmtime's compiler, the HTTP client, and reading of
-- files.
pub record Host : Type 0 where
  pub env : Environment
  pub client : OciClientConfig
  pub compile : Blob → Result Str (Unit {0})
  pub build_client : ClientSettings → Result Str (Unit {0})
  pub read_file : Str → Result Str Blob

unfoldable pub fetch_source : Host → ComponentSource → Action Loaded
fetch_source host (ComponentSource.oci reference pin) = pull host.env host.client reference pin
fetch_source host (ComponentSource.file path) =
    lift (from_path host.env.tools host.env.sha256_hex host.read_file path)

abbrev pub activate : Loaded → ℕ → ActiveComponent
activate loaded now = record { loaded = loaded; digest = loaded.digest; activated_at = now }

-- The registry of tenants, by name.
abbrev pub Tenants : Type 0 → Type 0
Tenants I = List (Str × Tenant I)

module _ {I : Type 0} where
  -- `load_tenant` up to the registration.
  unfoldable pub build_tenant : Host → ℕ → TenantConfig → Action (Tenant I)
  build_tenant host now cfg = do
    id ← lift (TenantId.new cfg.name)
    sandbox ← lift (Assembly.new id cfg.limits cfg.config)
    bridge ←
        lift
          (Bridge.new host.build_client (Assembly.egress_policy sandbox) cfg.limits.max_body_bytes)
    loaded ← fetch_source host cfg.component
    lift (ensure_contract loaded)
    lift (map_err Error.wasm (host.compile loaded.bytes))
    pure (record {
      id = id;
      sandbox = sandbox;
      bridge = bridge;
      source = cfg.component;
      active = activate loaded now;
      pool = Pool.new cfg.limits.max_instances;
      failures = 0;
      invocations = 0;
      last_swap = now;
    })

  unfoldable pub load_tenant :
      Host → ℕ → TenantConfig → Tenants I → Action (Tenants I × List Sample)
  unfolding ◌>>=◌
  load_tenant host now cfg tenants = do
    tenant ← build_tenant host now cfg
    pure (
      insert tenant.id.name tenant tenants,
      record_reload tenant.id.name none tenant.active.digest,
    )

  unfoldable pub find_tenant : Tenants I → TenantId → Option (Tenant I)
  find_tenant tenants id = lookup id.name tenants

  unfoldable pub tenant_count : Tenants I → ℕ
  tenant_count tenants = length tenants
