-- ===== src/Tests/ReloadTests.antt =====
-- The reload loop on concrete values.
use ember_edge.Prelude.{
  ℕ, ◌+◌, ◌*◌, ◌-◌, ◌%◌, ◌≤◌, ◌≡◌, ◌≢◌, ◌⊎◌, inl, inr, refl, max, Option, none, some, List, [], ◌∷◌,
  length, if◌then◌else◌, leb, arith, true, false, ap,
}
use ember_edge.Text.Basic.{Str, text, str_eq}
use ember_edge.Errors.{Error}
use ember_edge.Errors.Monad.{ok, err}
use ember_edge.Component.Loader.{Loaded, ensure_contract}
use ember_edge.Registry.Action.{Dir}
use ember_edge.Registry.Facade.{pull}
use ember_edge.Registry.Oci.{Environment}
use ember_edge.Runtime.Tenants.{Tenant}
use ember_edge.Runtime.Reload.{poll_tenant, poll_once}
use ember_edge.Runtime.Reload.Active.{IsLive, poll_tenant-IsLive}
use ember_edge.Runtime.Reload.Budget.{SwappedOrNot, poll_tenant-rate}
use ember_edge.Runtime.Reload.Isolation.{IsStopped, poll_once-stops}
use ember_edge.Config.Data.{ComponentSource}
use ember_edge.Tests.Fixtures.{
  policy, guest, reference, host, gone_host, broken_host, acme_tenant, stored,
}

abbrev cold_tenant : Tenant ℕ
cold_tenant = record acme_tenant { pool = record { queue = []; cap = 2 } }

acme-IsLive : IsLive host acme_tenant.source acme_tenant.active
unfolding ensure_contract ember_edge.Component.Loader.contract_violations str_eq text
acme-IsLive = record { contract = refl; compiles = refl; recorded = refl; pinned = tt }

poll_tenant-IsLive_example :
    IsLive host acme_tenant.source
      (poll_tenant host policy 10 (11, 12) acme_tenant []).tenant.active
poll_tenant-IsLive_example = poll_tenant-IsLive host policy 10 (11, 12) acme_tenant [] acme-IsLive

poll_tenant-rate_example :
    SwappedOrNot host policy 10
      (11, 12)
      acme_tenant
      (poll_tenant host policy 10 (11, 12) acme_tenant []).tenant
poll_tenant-rate_example = poll_tenant-rate host policy 10 (11, 12) acme_tenant [] (omega arith)

abbrev gone : Error
gone = Error.oci (text "pull manifest `acme/guest`: gone")

registry_gone : pull gone_host.env gone_host.client reference none [] ≡ ([], err gone)
unfolding pull ember_edge.Registry.Oci.fetch_component ember_edge.Registry.Oci.resolve
    ember_edge.Registry.Oci.pull_manifest text ember_edge.Registry.Oci.qualify
    ember_edge.Text.Basic.contains_char
registry_gone = refl

abbrev bare_guest : Loaded
bare_guest = record guest { exports = [] }

pulled_bare : pull broken_host.env broken_host.client reference none [] ≡ (stored, ok bare_guest)
unfolding ember_edge.Registry.Action.◌>>=◌ ember_edge.Registry.Store.put
    ember_edge.Registry.Store.blob_path ember_edge.Registry.Digest.sanitize_digest
    ember_edge.Text.Basic.strip_prefix text ember_edge.Registry.Digest.digest
    ember_edge.Registry.Digest.is_hex64 ember_edge.Text.Basic.bytes
    ember_edge.Text.Basic.encode_char ember_edge.Text.Ascii.is_hexdigit
    ember_edge.Registry.Store.file_exists ember_edge.Prelude.lookup
    ember_edge.Registry.Store.put_new ember_edge.Registry.Store.write_out ember_edge.Prelude.insert
    str_eq ember_edge.Registry.Store.temp_name ember_edge.Text.Decimal.decimal
    ember_edge.Prelude.remove ember_edge.Registry.Store.create_file
    ember_edge.Registry.Store.move_file ember_edge.Registry.Store.rename_file
    ember_edge.Registry.Store.sync_file ember_edge.Registry.Store.write_file
    ember_edge.Text.Ascii.is_digit ember_edge.Text.Decimal.digits_before
    ember_edge.Registry.Oci.fetch_component ember_edge.Registry.Oci.resolve
    ember_edge.Registry.Oci.pull_manifest ember_edge.Registry.Oci.fetch_layer
    ember_edge.Registry.Store.contains ember_edge.Registry.Oci.pull_layer
    ember_edge.Component.Loader.find_world ember_edge.Component.Loader.from_bytes
    ember_edge.Registry.Digest.verify_digest ember_edge.Registry.Oci.qualify
    ember_edge.Registry.Store.get ember_edge.Text.Basic.contains_char pull
    ember_edge.Registry.Facade.apply_pin
pulled_bare = refl

abbrev violation : Error
violation = Error.contract (
    text
      "artifact exports no exports at all; expected interface `ember-handler` or world `ember-guest`")

bare_refused : ensure_contract bare_guest ≡ err violation
unfolding ensure_contract ember_edge.Component.Loader.contract_violations text
    ember_edge.Component.Loader.seen_exports
bare_refused = refl

-- The first tenant runs a file, the artifact of the second is refused, the third is not reached.
abbrev three : List (Tenant ℕ)
three =
    record acme_tenant { source = ComponentSource.file (text "g") } ∷ acme_tenant ∷ cold_tenant ∷ []

stopped : (poll_once (λ t. broken_host) policy 10 (λ t. (11, 12)) three []).outcome ≡ err violation
unfolding poll_once poll_tenant ember_edge.Runtime.Reload.poll_source
    ember_edge.Runtime.Reload.after_pull ember_edge.Runtime.Reload.pulled
    ember_edge.Registry.Action.◌>>=◌ ember_edge.Registry.Store.put
    ember_edge.Registry.Store.blob_path ember_edge.Registry.Digest.sanitize_digest
    ember_edge.Text.Basic.strip_prefix text ember_edge.Registry.Digest.digest
    ember_edge.Registry.Digest.is_hex64 ember_edge.Text.Basic.bytes
    ember_edge.Text.Basic.encode_char ember_edge.Text.Ascii.is_hexdigit
    ember_edge.Registry.Store.file_exists ember_edge.Prelude.lookup
    ember_edge.Registry.Store.put_new ember_edge.Registry.Store.write_out ember_edge.Prelude.insert
    str_eq ember_edge.Registry.Store.temp_name ember_edge.Text.Decimal.decimal
    ember_edge.Prelude.remove ember_edge.Registry.Store.create_file
    ember_edge.Registry.Store.move_file ember_edge.Registry.Store.rename_file
    ember_edge.Registry.Store.sync_file ember_edge.Registry.Store.write_file
    ember_edge.Text.Ascii.is_digit ember_edge.Text.Decimal.digits_before
    ember_edge.Registry.Oci.fetch_component ember_edge.Registry.Oci.resolve
    ember_edge.Registry.Oci.pull_manifest ember_edge.Registry.Oci.fetch_layer
    ember_edge.Registry.Store.contains ember_edge.Registry.Oci.pull_layer
    ember_edge.Component.Loader.find_world ember_edge.Component.Loader.from_bytes
    ember_edge.Registry.Digest.verify_digest ember_edge.Registry.Oci.qualify
    ember_edge.Registry.Store.get ember_edge.Text.Basic.contains_char pull
    ember_edge.Registry.Facade.apply_pin ensure_contract
    ember_edge.Component.Loader.contract_violations ember_edge.Component.Loader.seen_exports
stopped = refl

poll_once-stops_example : IsStopped (λ t. broken_host) policy 10 (λ t. (11, 12)) three [] violation
poll_once-stops_example =
    poll_once-stops (λ t. broken_host) policy 10 (λ t. (11, 12)) three [] violation stopped
