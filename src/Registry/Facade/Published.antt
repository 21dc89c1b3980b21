-- ===== src/Registry/Facade/Published.antt =====
-- A pull of a published reference.
use ember_edge.Prelude.{◌≡◌, refl, Option, none, some}
use ember_edge.Text.Basic.{Str, str_eq_iff}
use ember_edge.Errors.Monad.{ok}
use ember_edge.Component.Loader.{Loaded, ensure_contract}
use ember_edge.Registry.Digest.{Blob, digest, verify_digest}
use ember_edge.Registry.Action.{Dir}
use ember_edge.Registry.Store.Integrity.{IsIntact}
use ember_edge.Registry.Oci.{OciClientConfig, Environment}
use ember_edge.Registry.Oci.Published.{IsPublished, as_loaded, fetch_component-published}
use ember_edge.Registry.Facade.{apply_pin, pull}

-- There is no pin, or the digest is the pin.
abbrev pub Permits : Option Str → Str → Type 0
Permits none d = Unit
Permits (some pin) d = pin ≡ d

module _ (env : Environment) (config : OciClientConfig) (reference d : Str)
    (s : IsPublished env config reference d) where
  apply_pin-Permits :
      (pin : Option Str) (b : Blob) (dir : Dir)
      → Permits pin d
      → digest env.sha256_hex b ≡ d
      → apply_pin env pin (as_loaded env config reference d s b) dir
        ≡ (dir, ok (as_loaded env config reference d s b))
  unfolding apply_pin verify_digest ember_edge.Registry.Action.◌>>=◌
  apply_pin-Permits none b dir p h = refl
  apply_pin-Permits (some pin) b dir p h = rw (p, h, (str_eq_iff d d).1 refl)

  as_loaded-contract :
      (b : Blob)
      → digest env.sha256_hex b ≡ d
      → ensure_contract (as_loaded env config reference d s b) ≡ ok tt
  unfolding ensure_contract
  as_loaded-contract b h = rw ((s.admissible b h).meets, ensure_contract) refl

  -- Where the reference resolves, its manifest has a well-formed digest first, and the registry sends
  -- bytes of that digest; where all bytes of that digest validate and have the same exports, which
  -- meet the contract; where the disk creates, writes, syncs and renames as it is asked to; and where
  -- there is no pin or the digest is the pin: a pull from an intact store succeeds with an artifact
  -- whose bytes have that digest and which meets the contract, and leaves an intact store.
  pub pull-published :
      (pin : Option Str) (dir : Dir)
      → Permits pin d
      → IsIntact env.sha256_hex dir
      → (dir' : Dir) × (loaded : Loaded) × (pull env config reference pin dir ≡ (dir', ok loaded))
        × (loaded.digest ≡ d)
        × (digest env.sha256_hex loaded.bytes ≡ d)
        × (ensure_contract loaded ≡ ok tt)
        × IsIntact env.sha256_hex dir'
  unfolding pull ember_edge.Registry.Action.◌>>=◌
  pull-published pin dir p intact =
      let (dir', b, fetched, hashed, kept) =
        fetch_component-published env config reference d s dir intact in
      (
        dir',
        as_loaded env config reference d s b,
        rw (fetched, pull) (apply_pin-Permits pin b dir' p hashed),
        refl,
        hashed,
        as_loaded-contract b hashed,
        kept,
      )
