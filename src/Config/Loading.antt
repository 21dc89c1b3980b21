-- ===== src/Config/Loading.antt =====
-- `Config::load`: file or defaults, then the environment, then `validate`, which ends by clamping
-- the tenants' limits. The environment, the file system, the TOML parser and the parser of socket
-- addresses are parameters.
pub mod Validation
use ember_edge.Prelude.{
  ℕ, zero, suc, ◌≡◌, refl, Bool, not, ◌&&◌, ◌||◌, Option, none, some, List, [], ◌∷◌, ◌++◌, arith,
  ltb, ◌==◌, if◌then◌else◌, all,
}
use ember_edge.Text.Basic.{Str, text, is_empty}
use ember_edge.Text.Ascii.{is_digit}
use ember_edge.Text.Decimal.{digits_value}
use ember_edge.Numbers.{u64_mod}
use ember_edge.Errors.{Error, display}
use ember_edge.Errors.Monad.{Result, ok, err, ◌>>=◌, ◌>>◌, refuse_if, map_err}
use ember_edge.TenantId
use ember_edge.Sandbox.Limits
use ember_edge.Registry.Digest.{parse_digest}
use ember_edge.Config.Data.{
  ComponentSource, TenantConfig, RegistryConfig, Config, default_config, clamp_tenants,
}

-- `str::parse::<u64>`: an optional `+`, then digits.
unfoldable pub parse_digits_u64 : Str → Option ℕ
unfolding is_empty is_digit
parse_digits_u64 s =
    if is_empty s || not (all is_digit s)
    then none
    else if ltb (digits_value s) u64_mod
    then some (digits_value s)
    else none

unfoldable pub parse_u64 : Str → Option ℕ
unfolding parse_digits_u64
parse_u64 [] = none
parse_u64 (c ∷ s) = if c == b'+' then parse_digits_u64 s else parse_digits_u64 (c ∷ s)

unfoldable pub set_bind : Option Str → Config → Config
set_bind none c = c
set_bind (some addr) c = record c { bind = addr }

unfoldable pub set_endpoint : Option Str → Config → Config
set_endpoint none c = c
set_endpoint (some endpoint) c = record c { registry = record c.registry { endpoint = endpoint } }

unfoldable pub set_interval : Option ℕ → Config → Config
set_interval none c = c
set_interval (some v) c = record c { registry = record c.registry { pull_interval_secs = v } }

abbrev pub and_then {ℓ κ} : {A : Type ℓ} {B : Type κ} → Option A → (A → Option B) → Option B
and_then none f = none
and_then (some a) f = f a

-- `var` is `std::env::var`, with its errors as `none`; `parse_addr` gives the address it reads.
unfoldable pub apply_env : (Str → Option Str) → (Str → Option Str) → Config → Config
unfolding set_bind set_endpoint set_interval
apply_env var parse_addr c =
    set_interval (and_then (var (text "EMBER_PULL_INTERVAL_SECS")) parse_u64) (
      set_endpoint (var (text "EMBER_REGISTRY_ENDPOINT"))
        (set_bind (and_then (var (text "EMBER_BIND")) parse_addr) c))

abbrev pub in_tenant : Str → Str → Error
in_tenant name what = Error.config (text "tenant `" ++ (name ++ (text "`: " ++ what)))

unfoldable pub check_source : Str → ComponentSource → Result Error (Unit {0})
unfolding is_empty
check_source name (ComponentSource.oci reference none) =
    refuse_if (is_empty reference) (in_tenant name (text "empty oci reference"))
check_source name (ComponentSource.oci reference (some pin)) = do
  refuse_if (is_empty reference) (in_tenant name (text "empty oci reference"))
  map_err (λ e. in_tenant name (text "bad pin: " ++ display e)) (parse_digest pin)
check_source name (ComponentSource.file path) =
    refuse_if (is_empty path) (in_tenant name (text "empty file path"))

unfoldable pub check_tenant : TenantConfig → Result Error (Unit {0})
unfolding check_source
check_tenant t = do
  Limits.validate t.limits
  id ← map_err (λ e. in_tenant t.name (display e)) (TenantId.new t.name)
  check_source t.name t.component

unfoldable pub check_tenants : List TenantConfig → Result Error (Unit {0})
check_tenants [] = ok tt
check_tenants (t ∷ ts) = check_tenant t >>= λ _. check_tenants ts

unfoldable pub validate : Config → Result Error Config
validate c = do
  refuse_if (c.engine.max_memory_bytes == 0)
      (Error.config (text "engine.max_memory_bytes must be > 0"))
  refuse_if (c.engine.max_instances == 0) (Error.config (text "engine.max_instances must be > 0"))
  check_tenants c.tenants
  ok (record c { tenants = clamp_tenants c.engine c.tenants })

-- `read` reads a file, `parse_toml` makes a configuration of its text.
module _ (var : Str → Option Str) (parse_addr : Str → Option Str) (read : Str → Result Str Str)
    (parse_toml : Str → Result Str Config) where
  unfoldable pub from_file : Option Str → Result Error Config
  from_file none = ok default_config
  from_file (some p) = do
    raw ← map_err (λ e. Error.config (text "cannot read " ++ (p ++ (text ": " ++ e)))) (read p)
    map_err (λ e. Error.config (text "invalid TOML in " ++ (p ++ (text ": " ++ e))))
        (parse_toml raw)

  unfoldable pub load : Option Str → Result Error Config
  unfolding from_file
  load path = do config ← from_file path; validate (apply_env var parse_addr config)
