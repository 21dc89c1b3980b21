-- ===== src/Tests/SucceedsTests.antt =====
-- A start whose parts all answer, on concrete values.
use ember_edge.Prelude.{ℕ, ◌≡◌, refl, some, List, [], All}
use ember_edge.Errors.Monad.{ok}
use ember_edge.Telemetry.{Sample}
use ember_edge.Component.Linker.{build_linker}
use ember_edge.Registry.Action.{Dir}
use ember_edge.Registry.Store.Integrity.{IsIntact, empty-IsIntact}
use ember_edge.Config.Data.{Config, clamp_tenants}
use ember_edge.Config.Loading.{validate}
use ember_edge.Config.Loading.Validation.{IsAcceptable, validate_iff}
use ember_edge.Runtime.Build.{Runtime, with_client, build}
use ember_edge.Runtime.Build.Succeeds.{IsAnswering, IsLoadable, build-succeeds}
use ember_edge.Tests.Fixtures.{host, hex_of, reference, guest_digest}
use ember_edge.Tests.LoadTests.{config}
use ember_edge.Tests.ProgressTests.{host-IsPublished}
use ember_edge.Tests.BuildTests.{configuration, setup}

abbrev clamped : Config
clamped = record configuration {
  tenants = clamp_tenants configuration.engine configuration.tenants;
}

validated : validate configuration ≡ ok clamped
unfolding validate ember_edge.Config.Loading.check_tenants ember_edge.Config.Loading.check_tenant
    ember_edge.Sandbox.Limits.validate ember_edge.Numbers.from_secs ember_edge.TenantId.new
    ember_edge.Text.Basic.text ember_edge.Text.Basic.bytes ember_edge.Text.Basic.encode_char
    ember_edge.TenantId.is_id_byte ember_edge.Registry.Digest.parse_digest
    ember_edge.Text.Basic.strip_prefix ember_edge.Registry.Digest.is_hex64
    ember_edge.Text.Ascii.is_hexdigit
validated = refl

acceptable : All IsAcceptable configuration.tenants
acceptable = ((validate_iff configuration clamped).0 validated).1

loadable : IsLoadable hex_of (with_client (λ cfg. host) configuration config) config
loadable = record {
  acceptable = acceptable.0;
  client = refl;
  artifact = guest_digest;
  offer = record {
    reference = reference;
    pin = some guest_digest;
    same_source = refl;
    published = host-IsPublished (with_client (λ cfg. host) configuration config).client;
    permitted = refl;
    same_hash = refl;
    compiles = λ b h. refl;
  };
}

linked : build_linker setup.make_linker ≡ ok tt
unfolding build_linker
linked = refl

answering : IsAnswering setup configuration
answering = record { engine = refl; linked = linked; client = refl; cache = refl }

build-succeeds_example :
    (dir' : Dir) × (runtime : Runtime ℕ) × (samples : List Sample) × (build
        (λ cfg. host)
        (λ cfg. 5)
        setup
        configuration
        []
      ≡ (dir', ok (runtime, samples)))
    × IsIntact hex_of dir'
build-succeeds_example =
    build-succeeds hex_of (λ cfg. host) (λ cfg. 5) setup configuration [] answering (loadable, tt)
      (empty-IsIntact hex_of)
