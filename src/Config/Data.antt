-- ===== src/Config/Data.antt =====
-- The configuration's records and their defaults. The bind address is known by its text.
use ember_edge.Prelude.{ℕ, ◌*◌, Bool, false, Option, List, [], max, map}
use ember_edge.Text.Basic.{Str, text}
use ember_edge.Numbers.{from_secs}
use ember_edge.Sandbox.Limits.{SandboxLimits, clamp_to}

pub data ComponentSource : Type 0 where
  oci : (reference : Str) (pin : Option Str) → ComponentSource
  file : (path : Str) → ComponentSource

pub record TenantConfig : Type 0 where
  pub name : Str
  pub component : ComponentSource
  pub limits : SandboxLimits
  pub config : List (Str × Str)

pub record EngineConfig : Type 0 where
  pub max_memory_bytes : ℕ
  pub max_instances : ℕ
  pub threads : ℕ
  pub epoch_interval_ms : ℕ

abbrev pub default_engine : EngineConfig
default_engine = record {
  max_memory_bytes = 1024 * 1024 * 1024;
  max_instances = 64;
  threads = 4;
  epoch_interval_ms = 100;
}

unfoldable pub clamp_tenant : EngineConfig → TenantConfig → TenantConfig
clamp_tenant e t = record t { limits = clamp_to t.limits e.max_memory_bytes e.max_instances }

unfoldable pub clamp_tenants : EngineConfig → List TenantConfig → List TenantConfig
unfolding clamp_tenant
clamp_tenants e tenants = map (clamp_tenant e) tenants

pub record RegistryConfig : Type 0 where
  pub endpoint : Str
  pub insecure : Bool
  pub pull_interval_secs : ℕ
  pub cache_dir : Str

abbrev pub default_registry : RegistryConfig
default_registry = record {
  endpoint = text "ghcr.io";
  insecure = false;
  pull_interval_secs = 30;
  cache_dir = text "registry-cache";
}

unfoldable pub pull_interval : RegistryConfig → ℕ
pull_interval r = from_secs (max r.pull_interval_secs 1)

pub record HttpConfig : Type 0 where
  pub timeout_secs : ℕ
  pub concurrency : ℕ
  pub max_body_bytes : ℕ
  pub request_id_header : Str

abbrev pub default_http : HttpConfig
default_http = record {
  timeout_secs = 30;
  concurrency = 512;
  max_body_bytes = 8 * 1024 * 1024;
  request_id_header = text "x-request-id";
}

unfoldable pub timeout : HttpConfig → ℕ
timeout h = from_secs (max h.timeout_secs 1)

pub record Config : Type 0 where
  pub bind : Str
  pub tenants : List TenantConfig
  pub engine : EngineConfig
  pub registry : RegistryConfig
  pub http : HttpConfig

abbrev pub default_bind : Str
default_bind = text "127.0.0.1:8080"

abbrev pub default_config : Config
default_config = record {
  bind = default_bind;
  tenants = [];
  engine = default_engine;
  registry = default_registry;
  http = default_http;
}
