-- ===== src/Tests/Fixtures.antt =====
-- Values that the tests share: an artifact, a registry that serves it, and a host.
use ember_edge.Prelude.{ℕ, zero, suc, ◌+◌, ◌*◌, ◌%◌, true, none, [], ◌∷◌, length}
use ember_edge.Text.Basic.{Str, text}
use ember_edge.Errors.Monad.{ok, err}
use ember_edge.TenantId.{TenantId}
use ember_edge.Sandbox.Limits.{default_limits}
use ember_edge.Sandbox.Assembly.{Sandbox}
use ember_edge.Egress.Bridge.{HttpBridge}
use ember_edge.Wasi.{FileSystem, WasiCtx}
use ember_edge.Text.Decimal.{decimal}
use ember_edge.Component.Loader.{Loaded, WasmTools}
use ember_edge.Registry.Digest.{Blob}
use ember_edge.Registry.Store.{SystemAnswers, moved}
use ember_edge.Registry.Oci.{Environment, default_client_config}
use ember_edge.Registry.Reload
use ember_edge.Registry.Reload.{HotReloadPolicy}
use ember_edge.Registry.Action.{Dir}
use ember_edge.Config.Data.{ComponentSource}
use ember_edge.Runtime.Tenants.{Tenant, Host, activate}

abbrev pub fill : ℕ → ℕ → Str
fill zero c = []
fill (suc n) c = c ∷ fill n c

-- In the place of SHA-256: 64 digits that go by the length.
abbrev pub hex_of : Blob → Str
hex_of b = fill 64 (b'0' + length b % 10)

abbrev pub guest_bytes : Blob
guest_bytes = 1 ∷ 2 ∷ 3 ∷ []

abbrev pub guest_digest : Str
guest_digest = b's' ∷ b'h' ∷ b'a' ∷ b'2' ∷ b'5' ∷ b'6' ∷ b':' ∷ hex_of guest_bytes

abbrev pub tools : WasmTools
tools = record { validate_all = λ b. ok tt; component_exports = λ b. ok (text "ember-guest" ∷ []) }

abbrev pub system : SystemAnswers
system = record {
  pid = 7;
  create = ok tt;
  written = 0;
  write_all = ok tt;
  sync_all = ok tt;
  rename = moved;
}

abbrev pub env : Environment
env = record {
  parse_reference = λ r. ok r;
  pull_manifest = λ r. ok (guest_digest ∷ []);
  pull_blob = λ r d. ok guest_bytes;
  sha256_hex = hex_of;
  tools = tools;
  system = system;
}

abbrev pub reference : Str
reference = text "acme/guest"

-- What a pull of the artifact returns.
abbrev pub guest : Loaded
guest = record {
  source = reference;
  bytes = guest_bytes;
  digest = guest_digest;
  size = 3;
  world_id = none;
  exports = text "ember-guest" ∷ [];
}

abbrev pub acme : TenantId
acme = record { name = text "acme" }

abbrev pub acme_sandbox : Sandbox
acme_sandbox = record {
  tenant = acme;
  limits = default_limits;
  config = [];
  readonly_preopens = (text "/data", text "/srv/acme") ∷ [];
  scratch = record { files = []; quota_bytes = 4 * 1024 * 1024; used = 0 };
}

abbrev pub acme_bridge : HttpBridge
acme_bridge = record {
  policy = record { allow = []; default_deny = true };
  connect_timeout = 3;
  max_body_bytes = 8;
}

-- All paths are directories.
abbrev pub files : FileSystem
files = record { is_dir = λ p. ok true; open_file = λ p. ok tt; preopen = λ h g. ok tt }

abbrev pub acme_wasi : WasiCtx
acme_wasi = record {
  env =
      (text "EMBER_TENANT", text "acme")
      ∷ (text "EMBER_SCRATCH_QUOTA", decimal (4 * 1024 * 1024))
      ∷ [];
  preopens = (text "/data", text "/srv/acme") ∷ [];
}

abbrev pub host : Host
host = record {
  env = env;
  client = default_client_config;
  compile = λ b. ok tt;
  build_client = λ s. ok tt;
  read_file = λ p. ok guest_bytes;
}

-- The registry is gone, or serves an artifact that exports nothing.
abbrev pub gone_host : Host
gone_host = record host { env = record env { pull_manifest = λ r. err (text "gone") } }

abbrev pub broken_host : Host
broken_host = record host {
  env = record env { tools = record tools { component_exports = λ b. ok [] } };
}

-- An artifact from before the one that the registry serves.
abbrev pub old_guest : Loaded
old_guest = record guest { bytes = 9 ∷ []; digest = text "sha256:old"; size = 1 }

-- One instance is pooled; an instance is a number here.
abbrev pub acme_tenant : Tenant ℕ
acme_tenant = record {
  id = acme;
  sandbox = acme_sandbox;
  bridge = acme_bridge;
  source = ComponentSource.oci reference none;
  active = activate old_guest 0;
  pool = record { queue = record { digest = text "sha256:old"; store = 1 } ∷ []; cap = 2 };
  failures = 0;
  invocations = 41;
  last_swap = 0;
}

-- The directory after a pull of the artifact.
abbrev pub stored : Dir
stored = (hex_of guest_bytes, guest_bytes) ∷ []

abbrev pub policy : HotReloadPolicy
policy = record Reload.default_policy { debounce = 5 }
