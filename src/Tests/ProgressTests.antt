-- ===== src/Tests/ProgressTests.antt =====
-- A pull and a reload pass where the registry answers, on concrete values.
use ember_edge.Prelude.{ℕ, ◌≡◌, refl, none, some, List, [], ◌∷◌, All, arith}
use ember_edge.Text.Basic.{Str, text, str_eq}
use ember_edge.Errors.Monad.{ok}
use ember_edge.Component.Loader.{Loaded, contract_violations, ensure_contract}
use ember_edge.Registry.Digest.{Blob, digest}
use ember_edge.Registry.Action.{Dir}
use ember_edge.Registry.Store.Integrity.{IsIntact, empty-IsIntact}
use ember_edge.Registry.Oci.{OciClientConfig}
use ember_edge.Registry.Oci.Published.{IsPublished}
use ember_edge.Registry.Facade.{pull}
use ember_edge.Registry.Facade.Published.{pull-published}
use ember_edge.Runtime.Tenants.{Tenant}
use ember_edge.Runtime.Reload.{poll_once}
use ember_edge.Runtime.Reload.Converges.{IsOffered}
use ember_edge.Runtime.Reload.Passes.{IsReady, rests, offered, AllFollow, poll_once-converges}
use ember_edge.Tests.Fixtures.{
  policy, host, hex_of, reference, guest_bytes, guest_digest, acme_tenant,
}
use ember_edge.Config.Data.{ComponentSource}

resolved :
    (client : OciClientConfig)
    → ember_edge.Registry.Oci.resolve host.env client reference ≡ ok reference
unfolding ember_edge.Registry.Oci.resolve ember_edge.Registry.Oci.qualify text
    ember_edge.Text.Basic.contains_char
resolved client = refl

hashed : digest hex_of guest_bytes ≡ guest_digest
unfolding digest text
hashed = refl

named : ember_edge.Registry.Store.blob_path guest_digest ≡ ok (hex_of guest_bytes)
unfolding ember_edge.Registry.Store.blob_path ember_edge.Registry.Digest.sanitize_digest
    ember_edge.Text.Basic.strip_prefix text ember_edge.Registry.Digest.is_hex64
    ember_edge.Text.Basic.bytes ember_edge.Text.Basic.encode_char ember_edge.Text.Ascii.is_hexdigit
named = refl

meets : contract_violations (text "ember-guest" ∷ []) ≡ none
unfolding contract_violations text str_eq
meets = refl

pub host-IsPublished :
    (client : OciClientConfig) → IsPublished host.env client reference guest_digest
host-IsPublished client = record {
  resolved = reference;
  resolves = resolved client;
  others = [];
  lists = refl;
  blob = guest_bytes;
  sends = refl;
  hashes = hashed;
  name = hex_of guest_bytes;
  well_formed = named;
  writing = record { creates = refl; writes = refl; syncs = refl; renames = refl };
  exports = text "ember-guest" ∷ [];
  admissible = λ b h. record { validates = refl; parses = refl; meets = meets };
}

published : IsPublished host.env host.client reference guest_digest
published = host-IsPublished host.client

pull-published_example :
    (dir' : Dir) × (loaded : Loaded) × (pull host.env host.client reference (some guest_digest) []
      ≡ (dir', ok loaded))
    × (loaded.digest ≡ guest_digest)
    × (digest hex_of loaded.bytes ≡ guest_digest)
    × (ensure_contract loaded ≡ ok tt)
    × IsIntact hex_of dir'
pull-published_example =
    pull-published host.env host.client reference guest_digest published (some guest_digest) [] refl
      (empty-IsIntact hex_of)

-- A tenant with an old component, and one that runs a file.
abbrev from_file : Tenant ℕ
from_file = record acme_tenant { source = ComponentSource.file (text "guest.wasm") }

abbrev tenants : List (Tenant ℕ)
tenants = acme_tenant ∷ from_file ∷ []

pub offer : IsOffered hex_of host acme_tenant.source guest_digest
offer = record {
  reference = reference;
  pin = none;
  same_source = refl;
  published = published;
  permitted = tt;
  same_hash = refl;
  compiles = λ b h. refl;
}

ready : All (IsReady hex_of (λ t. host) policy 10 (λ t. (11, 12))) tenants
ready = (offered guest_digest (omega arith) offer, (rests tt, tt))

poll_once-converges_example :
    AllFollow hex_of
      (λ t. host)
      policy
      10
      (λ t. (11, 12))
      tenants
      (poll_once (λ t. host) policy 10 (λ t. (11, 12)) tenants []).tenants
      ready
    × ((poll_once (λ t. host) policy 10 (λ t. (11, 12)) tenants []).outcome ≡ ok tt)
    × IsIntact hex_of (poll_once (λ t. host) policy 10 (λ t. (11, 12)) tenants []).dir
poll_once-converges_example =
    poll_once-converges hex_of (λ t. host) policy 10 (λ t. (11, 12)) tenants ready []
      (empty-IsIntact hex_of)
