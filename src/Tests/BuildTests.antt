-- ===== src/Tests/BuildTests.antt =====
-- A runtime that is built, on concrete values.
use ember_edge.Prelude.{
  ℕ, ◌+◌, ◌*◌, ◌-◌, ◌%◌, ◌≤◌, ◌≡◌, ◌≢◌, ◌⊎◌, inl, inr, refl, max, Option, none, some, List, [], ◌∷◌,
  length, if◌then◌else◌, leb, arith, true, false, ap,
}
use ember_edge.Text.Basic.{Str, text, str_eq}
use ember_edge.Numbers.{u64_mod}
use ember_edge.Errors.Monad.{ok}
use ember_edge.TenantId.{TenantId}
use ember_edge.Component.Loader.{Loaded, ensure_contract}
use ember_edge.Registry.Action.{Dir}
use ember_edge.Registry.Facade.{pull}
use ember_edge.Registry.Oci.{Environment}
use ember_edge.Config.Data.{ComponentSource, TenantConfig}
use ember_edge.Runtime.Tenants.{
  ActiveComponent, Tenant, Tenants, Host, activate, build_tenant, find_tenant,
}
use ember_edge.Registry.Oci.{https, anonymous}
use ember_edge.Registry.Facade.{Registry}
use ember_edge.Runtime.Engine.{increments_epoch, polls_once}
use ember_edge.Runtime.Build.{Setup}
use ember_edge.Sandbox.Limits.{default_limits}
use ember_edge.Config.Data.{Config, default_config}
use ember_edge.Egress.Policy.{default_policy}
use ember_edge.Runtime.Engine.{from_config}
use ember_edge.Telemetry.{Sample, record_reload}
use ember_edge.Prelude.{All, ◌++◌}
use ember_edge.Runtime.Build.{Runtime, client_config, reload_policy, load_tenants, build}
use ember_edge.Prelude.{true}
use ember_edge.Runtime.Invoke.{Machine, elapsed}
use ember_edge.Runtime.World.Built.{LoadedWorld, configured_host, build-Represents}
use ember_edge.Tests.Fixtures.{files}
use ember_edge.Runtime.Build.Started.{IsStarted, build-IsStarted}
use ember_edge.Tests.Fixtures.{guest_digest, host, stored}
use ember_edge.Tests.LoadTests.{config, loaded_tenant}

abbrev pub configuration : Config
configuration = record default_config { tenants = config ∷ [] }

abbrev pub setup : Setup
setup = record {
  compile_engine = λ e. ok tt;
  make_linker = record { add_wasi = ok tt; add_http = ok tt; add_guest = ok tt };
  build_client = λ s. ok tt;
  var = λ name. none;
  create_dir_all = λ p. ok tt;
}

abbrev registry : Registry
registry = record {
  oci = record {
    protocol = https;
    auth = anonymous;
    store = record { root = text "registry-cache" };
    config = client_config configuration.registry;
  };
  store = record { root = text "registry-cache" };
  policy = reload_policy configuration.registry;
}

abbrev pub runtime : Runtime ℕ
runtime = record {
  engine = from_config configuration.engine;
  bridge = record {
    policy = default_policy;
    connect_timeout = 3_000_000_000;
    max_body_bytes = configuration.http.max_body_bytes;
  };
  registry = registry;
  http = configuration.http;
  bind = configuration.bind;
  policy = reload_policy configuration.registry;
  tenants = (text "acme", loaded_tenant) ∷ [];
  background = increments_epoch 100_000_000 ∷ polls_once 30_000_000_000 ∷ [];
}

abbrev pub samples : List Sample
samples = record_reload (text "acme") none guest_digest ++ []

pub assembled :
    build (λ cfg. host) (λ cfg. 5) setup configuration [] ≡ (stored, ok (runtime, samples))
unfolding ember_edge.Registry.Action.◌>>=◌ ember_edge.Registry.Store.put
    ember_edge.Registry.Store.blob_path ember_edge.Registry.Digest.sanitize_digest
    ember_edge.Text.Basic.strip_prefix text ember_edge.Registry.Digest.digest
    ember_edge.Registry.Digest.is_hex64 ember_edge.Text.Basic.bytes
    ember_edge.Text.Basic.encode_char ember_edge.Text.Ascii.is_hexdigit
    ember_edge.Registry.Store.file_exists ember_edge.Prelude.lookup
    ember_edge.Registry.Store.put_new ember_edge.Registry.Store.write_out ember_edge.Prelude.insert
    str_eq ember_edge.Registry.Store.temp_name ember_edge.Text.Decimal.decimal
    ember_edge.Prelude.remove ember_edge.Registry.Store.create_file
    ember_edge.Registry.Store.move_file ember_edge.Registry.Store.rename_file
    ember_edge.Registry.Store.sync_file ember_edge.Registry.Store.write_file
    ember_edge.Text.Ascii.is_digit ember_edge.Text.Decimal.digits_before
    ember_edge.Registry.Oci.fetch_component ember_edge.Registry.Oci.resolve
    ember_edge.Registry.Oci.pull_manifest ember_edge.Registry.Oci.fetch_layer
    ember_edge.Registry.Store.contains ember_edge.Registry.Oci.pull_layer
    ember_edge.Component.Loader.find_world ember_edge.Component.Loader.from_bytes
    ember_edge.Registry.Digest.verify_digest ember_edge.Registry.Oci.qualify
    ember_edge.Registry.Store.get ember_edge.Text.Basic.contains_char pull
    ember_edge.Registry.Facade.apply_pin build_tenant ember_edge.Runtime.Tenants.fetch_source
    ember_edge.TenantId.new ember_edge.TenantId.is_id_byte ember_edge.Sandbox.Assembly.new
    ember_edge.Sandbox.Limits.validate ember_edge.Numbers.from_secs ember_edge.Sandbox.MemFs.new
    ember_edge.Sandbox.Assembly.egress_policy ember_edge.Sandbox.Limits.egress_policy
    ensure_contract ember_edge.Component.Loader.contract_violations ember_edge.Text.Basic.is_empty
    ember_edge.Text.Ascii.is_alphanumeric ember_edge.Text.Ascii.is_lower
    ember_edge.Text.Ascii.is_upper build load_tenants ember_edge.Runtime.Tenants.load_tenant
    ember_edge.Runtime.Engine.build ember_edge.Egress.Bridge.new ember_edge.Registry.Facade.new
    ember_edge.Registry.Oci.new ember_edge.Registry.Store.open_store client_config
    ember_edge.Runtime.Engine.spawn_epoch_ticker reload_policy from_config
    ember_edge.Config.Data.pull_interval ember_edge.Numbers.from_millis
    ember_edge.Component.Linker.build_linker
assembled = refl

build-IsStarted_example : IsStarted configuration runtime
build-IsStarted_example =
    build-IsStarted (λ cfg. host) (λ cfg. 5) setup configuration [] stored runtime samples assembled

-- An instance is a number.
abbrev machine : Machine ℕ
machine = record {
  fs = files;
  header_ok = λ n v. true;
  instantiate = λ ctx epoch b. ok 1;
  call = λ i r fs. elapsed;
  scratch_after = λ i r fs. fs;
}

build-Represents_example :
    LoadedWorld
      (configured_host host machine (λ cfg. host.env) (λ cfg. 5) setup configuration)
      (λ cfg. host.env)
      (λ cfg. 5)
      machine
      configuration.tenants
      []
      stored
      runtime.tenants
build-Represents_example =
    build-Represents host machine (λ cfg. host.env) (λ cfg. 5) setup configuration [] stored runtime
      samples assembled
