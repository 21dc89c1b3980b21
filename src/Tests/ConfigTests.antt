-- ===== src/Tests/ConfigTests.antt =====
-- Configurations, sizes and tenant names on concrete values.
use ember_edge.Prelude.{◌*◌, ◌≡◌, ◌↔◌, refl, inr, [], ◌∷◌, ◌++◌, All}
use ember_edge.Text.Basic.{Str, text}
use ember_edge.Text.Decimal.{decimal}
use ember_edge.Errors.Monad.{ok, value_of}
use ember_edge.TenantId
use ember_edge.TenantId.{TenantId}
use ember_edge.TenantId.Grammar.{IsTenantName, new-grammar}
use ember_edge.Sandbox.Limits.{default_limits}
use ember_edge.Config.Data.{ComponentSource, TenantConfig, Config, default_config, clamp_tenants}
use ember_edge.Config.Memory.{parse_memory}
use ember_edge.Config.Memory.Sizes.{mega, factor, in_range, parse_memory-decimal}
use ember_edge.Config.Loading.{validate}
use ember_edge.Config.Loading.Validation.{HasBudget, IsAcceptable, validate_iff}

parse_memory-decimal_example :
    value_of (parse_memory (decimal 12 ++ text "MiB")) ≡ in_range (12 * factor mega)
unfolding text ember_edge.Text.Ascii.to_lowercase
parse_memory-decimal_example = parse_memory-decimal 12 mega (text "MiB") (inr (inr refl))

abbrev acme : TenantId
acme = record { name = text "Acme-1" }

new-grammar_example :
    (TenantId.new (text "Acme-1") ≡ ok acme)
    ↔ (IsTenantName (text "Acme-1") × (acme.name ≡ text "Acme-1"))
new-grammar_example = new-grammar (text "Acme-1") acme

-- A tenant that asks for more instances than the engine has.
abbrev tenant : TenantConfig
tenant = record {
  name = text "acme";
  component = ComponentSource.file (text "guest.wasm");
  limits = record default_limits { max_instances = 100 };
  config = [];
}

abbrev config : Config
config = record default_config { tenants = tenant ∷ [] }

abbrev clamped : Config
clamped = record config {
  tenants = record tenant { limits = record default_limits { max_instances = 64 } } ∷ [];
}

validated : validate config ≡ ok clamped
unfolding validate ember_edge.Config.Loading.check_tenants ember_edge.Config.Loading.check_tenant
    ember_edge.Sandbox.Limits.validate ember_edge.Numbers.from_secs TenantId.new text
    ember_edge.Text.Basic.bytes ember_edge.Text.Basic.encode_char TenantId.is_id_byte clamp_tenants
    ember_edge.Sandbox.Limits.clamp_to
validated = refl

validate_iff_example : (validate config ≡ ok clamped) ↔ (
    HasBudget config.engine
    × All IsAcceptable config.tenants
    × (clamped ≡ record config { tenants = clamp_tenants config.engine config.tenants }))
validate_iff_example = validate_iff config clamped
