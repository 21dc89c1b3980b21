-- ===== src/Tests/RegistryTests.antt =====
-- Digests, the store, pins and pulls on concrete values.
use ember_edge.Prelude.{
  ℕ, ◌≡◌, ◌≢◌, ◌↔◌, refl, ap, subst, Bool, true, false, ◌&&◌, Option, none, some, List, [], ◌∷◌,
  ◌++◌, lookup, if◌then◌else◌, arith, length,
}
use ember_edge.Text.Basic.{Str, text, str_eq}
use ember_edge.Errors.{Error}
use ember_edge.Errors.Monad.{Result, ok, is_ok}
use ember_edge.Component.Loader.{Loaded}
use ember_edge.Registry.Digest.{Blob, digest, parse_digest, sanitize_digest}
use ember_edge.Registry.Digest.Form.{IsHex64, digest_forms}
use ember_edge.Registry.Action.{Dir}
use ember_edge.Registry.Store.{
  SystemAnswers, temp_name, create_file, write_file, Renamed, moved, already_exists, put, get,
  contains,
}
use ember_edge.Registry.Store.Integrity.{IsIntact, empty-IsIntact}
use ember_edge.Registry.Store.Crash.{put-IsIntact}
use ember_edge.Registry.Store.Contents.{get-put}
use ember_edge.Registry.Oci.{default_client_config, fetch_component}
use ember_edge.Registry.Oci.Verified.{fetch_component-digest}
use ember_edge.Registry.Facade.{pull}
use ember_edge.Registry.Facade.Pinned.{pull-pinned}
use ember_edge.Tests.Fixtures.{hex_of, guest_bytes, guest_digest, system, env, reference, guest}

digest_forms_example :
    ((sanitize_digest guest_digest ≡ ok (hex_of guest_bytes))
      ↔ ((guest_digest ≡ text "sha256:" ++ hex_of guest_bytes) × IsHex64 (hex_of guest_bytes)))
    × (is_ok (parse_digest guest_digest) ≡ is_ok (sanitize_digest guest_digest))
digest_forms_example = digest_forms guest_digest (hex_of guest_bytes)

-- The machine stops after the second system call, and the file that was written is torn.
abbrev torn : Dir
torn = (temp_name system.pid, 7 ∷ []) ∷ []

abbrev stored : Dir
stored = (hex_of guest_bytes, guest_bytes) ∷ []

stored_lem : put hex_of system guest_bytes [] ≡ (stored, ok guest_digest)
unfolding ember_edge.Registry.Action.◌>>=◌ put ember_edge.Registry.Store.blob_path sanitize_digest
    ember_edge.Text.Basic.strip_prefix text digest ember_edge.Registry.Digest.is_hex64
    ember_edge.Text.Basic.bytes ember_edge.Text.Basic.encode_char ember_edge.Text.Ascii.is_hexdigit
    ember_edge.Registry.Store.file_exists ember_edge.Prelude.lookup
    ember_edge.Registry.Store.put_new ember_edge.Registry.Store.write_out ember_edge.Prelude.insert
    str_eq ember_edge.Registry.Store.temp_name ember_edge.Text.Decimal.decimal
    ember_edge.Prelude.remove ember_edge.Registry.Store.create_file
    ember_edge.Registry.Store.move_file ember_edge.Registry.Store.rename_file
    ember_edge.Registry.Store.sync_file ember_edge.Registry.Store.write_file
    ember_edge.Text.Ascii.is_digit ember_edge.Text.Decimal.digits_before
stored_lem = refl

stored-IsIntact : IsIntact hex_of stored
stored-IsIntact =
    subst (λ d. IsIntact hex_of d) (ap (λ (r : Dir × Result Error Str). r.0) stored_lem)
      (put-IsIntact hex_of system guest_bytes [] (empty-IsIntact hex_of))

get-put_example :
    (guest_digest ≡ digest hex_of guest_bytes) × (get guest_digest stored ≡ ok guest_bytes)
unfolding contains ember_edge.Registry.Store.blob_path sanitize_digest
    ember_edge.Text.Basic.strip_prefix text digest ember_edge.Registry.Digest.is_hex64
    ember_edge.Text.Basic.bytes ember_edge.Text.Basic.encode_char ember_edge.Text.Ascii.is_hexdigit
    ember_edge.Registry.Store.file_exists ember_edge.Prelude.lookup
get-put_example = get-put hex_of system guest_bytes [] stored guest_digest (λ h. cc) refl stored_lem

got : get guest_digest stored ≡ ok guest_bytes
unfolding get sanitize_digest ember_edge.Text.Basic.strip_prefix text
    ember_edge.Registry.Digest.is_hex64 ember_edge.Text.Basic.bytes
    ember_edge.Text.Basic.encode_char ember_edge.Text.Ascii.is_hexdigit ember_edge.Prelude.lookup
    str_eq
got = refl

fetched : fetch_component env default_client_config reference [] ≡ (stored, ok guest)
unfolding ember_edge.Registry.Action.◌>>=◌ put ember_edge.Registry.Store.blob_path sanitize_digest
    ember_edge.Text.Basic.strip_prefix text digest ember_edge.Registry.Digest.is_hex64
    ember_edge.Text.Basic.bytes ember_edge.Text.Basic.encode_char ember_edge.Text.Ascii.is_hexdigit
    ember_edge.Registry.Store.file_exists ember_edge.Prelude.lookup
    ember_edge.Registry.Store.put_new ember_edge.Registry.Store.write_out ember_edge.Prelude.insert
    str_eq ember_edge.Registry.Store.temp_name ember_edge.Text.Decimal.decimal
    ember_edge.Prelude.remove ember_edge.Registry.Store.create_file
    ember_edge.Registry.Store.move_file ember_edge.Registry.Store.rename_file
    ember_edge.Registry.Store.sync_file ember_edge.Registry.Store.write_file
    ember_edge.Text.Ascii.is_digit ember_edge.Text.Decimal.digits_before fetch_component
    ember_edge.Registry.Oci.resolve ember_edge.Registry.Oci.pull_manifest
    ember_edge.Registry.Oci.fetch_layer contains ember_edge.Registry.Oci.pull_layer
    ember_edge.Component.Loader.find_world ember_edge.Component.Loader.from_bytes
    ember_edge.Registry.Digest.verify_digest ember_edge.Registry.Oci.qualify get
    ember_edge.Text.Basic.contains_char
fetched = refl

fetch_component-digest_example : guest.digest ≡ digest hex_of guest.bytes
fetch_component-digest_example =
    fetch_component-digest env default_client_config reference [] stored guest
      (empty-IsIntact hex_of) fetched

pulled_pinned : pull env default_client_config reference (some guest_digest) [] ≡ (stored, ok guest)
unfolding ember_edge.Registry.Action.◌>>=◌ put ember_edge.Registry.Store.blob_path sanitize_digest
    ember_edge.Text.Basic.strip_prefix text digest ember_edge.Registry.Digest.is_hex64
    ember_edge.Text.Basic.bytes ember_edge.Text.Basic.encode_char ember_edge.Text.Ascii.is_hexdigit
    ember_edge.Registry.Store.file_exists ember_edge.Prelude.lookup
    ember_edge.Registry.Store.put_new ember_edge.Registry.Store.write_out ember_edge.Prelude.insert
    str_eq ember_edge.Registry.Store.temp_name ember_edge.Text.Decimal.decimal
    ember_edge.Prelude.remove ember_edge.Registry.Store.create_file
    ember_edge.Registry.Store.move_file ember_edge.Registry.Store.rename_file
    ember_edge.Registry.Store.sync_file ember_edge.Registry.Store.write_file
    ember_edge.Text.Ascii.is_digit ember_edge.Text.Decimal.digits_before fetch_component
    ember_edge.Registry.Oci.resolve ember_edge.Registry.Oci.pull_manifest
    ember_edge.Registry.Oci.fetch_layer contains ember_edge.Registry.Oci.pull_layer
    ember_edge.Component.Loader.find_world ember_edge.Component.Loader.from_bytes
    ember_edge.Registry.Digest.verify_digest ember_edge.Registry.Oci.qualify get
    ember_edge.Text.Basic.contains_char pull ember_edge.Registry.Facade.apply_pin
pulled_pinned = refl

pull-pinned_example : (guest.digest ≡ guest_digest) × (digest hex_of guest.bytes ≡ guest_digest)
pull-pinned_example =
    pull-pinned env default_client_config reference guest_digest [] stored guest pulled_pinned

abbrev other_pin : Str
other_pin = text "sha256:00"

other_bytes : digest hex_of guest.bytes ≢ other_pin
unfolding digest text str_eq
other_bytes h = let e : false ≡ true = ap (λ s. str_eq s other_pin) h in ground arith
