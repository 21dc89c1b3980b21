-- ===== src/Tests/LoadTests.antt =====
-- Loading a tenant and what it goes through afterwards, on concrete values.
use ember_edge.Prelude.{
  ℕ, ◌+◌, ◌*◌, ◌-◌, ◌%◌, ◌≤◌, ◌≡◌, ◌≢◌, ◌⊎◌, inl, inr, refl, max, Option, none, some, List, [], ◌∷◌,
  length, if◌then◌else◌, leb, arith, true, false, ap,
}
use ember_edge.Text.Basic.{Str, text, str_eq}
use ember_edge.Numbers.{u64_mod}
use ember_edge.Errors.Monad.{ok}
use ember_edge.TenantId.{TenantId}
use ember_edge.Component.Loader.{Loaded, ensure_contract}
use ember_edge.Registry.Action.{Dir}
use ember_edge.Registry.Facade.{pull}
use ember_edge.Registry.Oci.{Environment}
use ember_edge.Config.Data.{ComponentSource, TenantConfig}
use ember_edge.Runtime.Pool.{release, new}
use ember_edge.Runtime.Tenants.{
  ActiveComponent, Tenant, Tenants, Host, activate, build_tenant, find_tenant,
}
use ember_edge.Runtime.Reload.{poll_tenant}
use ember_edge.Registry.Oci.{https, anonymous}
use ember_edge.Registry.Facade.{Registry}
use ember_edge.Sandbox.Limits.{default_limits}
use ember_edge.Runtime.Steps.{answering, Reaches, polls, here, next}
use ember_edge.Runtime.Steps
use ember_edge.Prelude.{All, ◌++◌}
use ember_edge.Tests.Fixtures.{
  policy, acme, guest, guest_digest, reference, host, gone_host, acme_sandbox, stored,
}

abbrev pub config : TenantConfig
config = record {
  name = text "acme";
  component = ComponentSource.oci reference (some guest_digest);
  limits = default_limits;
  config = [];
}

abbrev pub loaded_tenant : Tenant ℕ
loaded_tenant = record {
  id = acme;
  sandbox = record acme_sandbox { readonly_preopens = [] };
  bridge = record {
    policy = record { allow = []; default_deny = true };
    connect_timeout = 3_000_000_000;
    max_body_bytes = 8 * 1024 * 1024;
  };
  source = ComponentSource.oci reference (some guest_digest);
  active = activate guest 5;
  pool = new 8;
  failures = 0;
  invocations = 0;
  last_swap = 5;
}

pub loaded : build_tenant host 5 config [] ≡ (stored, ok loaded_tenant)
unfolding ember_edge.Registry.Action.◌>>=◌ ember_edge.Registry.Store.put
    ember_edge.Registry.Store.blob_path ember_edge.Registry.Digest.sanitize_digest
    ember_edge.Text.Basic.strip_prefix text ember_edge.Registry.Digest.digest
    ember_edge.Registry.Digest.is_hex64 ember_edge.Text.Basic.bytes
    ember_edge.Text.Basic.encode_char ember_edge.Text.Ascii.is_hexdigit
    ember_edge.Registry.Store.file_exists ember_edge.Prelude.lookup
    ember_edge.Registry.Store.put_new ember_edge.Registry.Store.write_out ember_edge.Prelude.insert
    str_eq ember_edge.Registry.Store.temp_name ember_edge.Text.Decimal.decimal
    ember_edge.Prelude.remove ember_edge.Registry.Store.create_file
    ember_edge.Registry.Store.move_file ember_edge.Registry.Store.rename_file
    ember_edge.Registry.Store.sync_file ember_edge.Registry.Store.write_file
    ember_edge.Text.Ascii.is_digit ember_edge.Text.Decimal.digits_before
    ember_edge.Registry.Oci.fetch_component ember_edge.Registry.Oci.resolve
    ember_edge.Registry.Oci.pull_manifest ember_edge.Registry.Oci.fetch_layer
    ember_edge.Registry.Store.contains ember_edge.Registry.Oci.pull_layer
    ember_edge.Component.Loader.find_world ember_edge.Component.Loader.from_bytes
    ember_edge.Registry.Digest.verify_digest ember_edge.Registry.Oci.qualify
    ember_edge.Registry.Store.get ember_edge.Text.Basic.contains_char pull
    ember_edge.Registry.Facade.apply_pin build_tenant ember_edge.Runtime.Tenants.fetch_source
    ember_edge.TenantId.new ember_edge.TenantId.is_id_byte ember_edge.Sandbox.Assembly.new
    ember_edge.Sandbox.Limits.validate ember_edge.Numbers.from_secs ember_edge.Sandbox.MemFs.new
    ember_edge.Sandbox.Assembly.egress_policy ember_edge.Sandbox.Limits.egress_policy
    ensure_contract ember_edge.Component.Loader.contract_violations ember_edge.Text.Basic.is_empty
    ember_edge.Text.Ascii.is_alphanumeric ember_edge.Text.Ascii.is_lower
    ember_edge.Text.Ascii.is_upper ember_edge.Egress.Bridge.new
loaded = refl

-- An instance is put back, and then the registry does not answer a pass.
abbrev served_tenant : Tenant ℕ
served_tenant = record loaded_tenant {
  pool = release loaded_tenant.pool (record { digest = guest_digest; store = 1 });
}

reaches :
    Reaches host loaded_tenant
      (poll_tenant (answering host gone_host.env) policy 10 (11, 12) served_tenant []).tenant
reaches =
    next (Steps.releases (record { digest = guest_digest; store = 1 }))
      (next (polls gone_host.env policy 10 (11, 12) []) here)
