-- ===== src/Tests/StartTests.antt =====
-- Starts of the binary on concrete values.
use ember_edge.Prelude.{ℕ, ◌≡◌, refl, true, false, none, some, []}
use ember_edge.Text.Basic.{Str, text}
use ember_edge.Errors.Monad.{ok, err}
use ember_edge.Config.Data.{Config}
use ember_edge.Config.Loading.{load}
use ember_edge.CommandLine.{Cli, Surroundings, Platform, served, main}
use ember_edge.CommandLine.Start.{IsUp, main-check, main-IsUp}
use ember_edge.Tests.Fixtures.{host, gone_host, stored}
use ember_edge.Tests.BuildTests.{configuration, setup, runtime, samples, assembled}

-- The file holds the configuration of the tests; a handle is a number.
abbrev around : Surroundings ℕ
around = record {
  var = λ name. none;
  subscriber = record { parse_filter = λ f. ok tt; try_init = λ f json. ok tt };
  exporter = ok 3;
  parse_addr = λ s. some s;
  read = λ p. ok [];
  parse_toml = λ raw. ok configuration;
}

abbrev platform : Platform
platform = record {
  hosts = λ cfg. host;
  clock = λ cfg. 5;
  setup = setup;
  network = record { listen = λ a. ok tt; local_addr = λ a. ok a; run = λ layers a. ok tt };
}

-- Nothing answers.
abbrev dead : Platform
dead = record {
  hosts = λ cfg. gone_host;
  clock = λ cfg. 0;
  setup = record setup { create_dir_all = λ p. err (text "read-only") };
  network = record {
    listen = λ a. err (text "in use");
    local_addr = λ a. ok a;
    run = λ layers a. ok tt;
  };
}

abbrev cli : Cli
cli = record { config = some (text "ember.toml"); json = false; log_level = none; check = false }

main-check_example :
    (main {I = ℕ} around platform (record cli { check = true }) none stored
      ≡ main around dead (record cli { check = true }) none stored)
    × ((main {I = ℕ} around platform (record cli { check = true }) none stored).1 ≡ stored)
main-check_example = main-check around platform dead (record cli { check = true }) none stored refl

read : load around.var around.parse_addr around.read around.parse_toml cli.config ≡ ok configuration
unfolding load ember_edge.Config.Loading.validate ember_edge.Config.Loading.apply_env
    ember_edge.Config.Loading.check_tenants ember_edge.Config.Loading.check_tenant
    ember_edge.Sandbox.Limits.validate ember_edge.Numbers.from_secs ember_edge.TenantId.new text
    ember_edge.Text.Basic.bytes ember_edge.Text.Basic.encode_char ember_edge.TenantId.is_id_byte
    ember_edge.Registry.Digest.parse_digest ember_edge.Text.Basic.strip_prefix
    ember_edge.Registry.Digest.is_hex64 ember_edge.Text.Ascii.is_hexdigit
    ember_edge.Config.Data.clamp_tenants ember_edge.Config.Data.clamp_tenant
    ember_edge.Sandbox.Limits.clamp_to
read = refl

started : main around platform cli none [] ≡ (some 3, stored, ok (served runtime samples))
unfolding main ember_edge.Telemetry.Logging.init ember_edge.Runtime.Engine.from_config text
    ember_edge.Runtime.Build.client_config ember_edge.Runtime.Build.reload_policy
    ember_edge.Numbers.from_secs ember_edge.Runtime.Pool.new ember_edge.Telemetry.record_reload
    ember_edge.Telemetry.Recorder.install_recorder ember_edge.Numbers.from_millis
    ember_edge.Config.Data.pull_interval ember_edge.Ingress.Server.serve
started = rw read (rw assembled refl)

main-IsUp_example : IsUp around platform cli runtime
main-IsUp_example = main-IsUp around platform cli none (some 3) [] stored runtime samples started
