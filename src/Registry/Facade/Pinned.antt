-- ===== src/Registry/Facade/Pinned.antt =====
-- What a pin guarantees, and what it does not do.
use ember_edge.Prelude.{◌≡◌, some, arith}
use ember_edge.Text.Basic.{Str, str_eq_iff}
use ember_edge.Errors.{Error}
use ember_edge.Errors.Monad.{Result, ok, err}
use ember_edge.Component.Loader.{Loaded}
use ember_edge.Registry.Digest.{digest, verify_digest}
use ember_edge.Registry.Action.{Dir, continue}
use ember_edge.Registry.Oci.{OciClientConfig, Environment, fetch_component}
use ember_edge.Registry.Facade.{apply_pin, pull}

module _ (env : Environment) (config : OciClientConfig) (reference pin : Str) (dir dir' : Dir)
    (loaded : Loaded) where
  -- A pinned pull that succeeds returns bytes whose digest is the pin, recorded under the pin.
  pub pull-pinned :
      pull env config reference (some pin) dir ≡ (dir', ok loaded)
      → (loaded.digest ≡ pin) × (digest env.sha256_hex loaded.bytes ≡ pin)
  unfolding pull apply_pin verify_digest
  pull-pinned h = go (fetch_component env config reference dir) h
    where
      go :
          (r : Dir × Result Error Loaded)
          → continue r (apply_pin env (some pin)) ≡ (dir', ok loaded)
          → (loaded.digest ≡ pin) × (digest env.sha256_hex loaded.bytes ≡ pin)
      go (d, ok l) e = ground (arith, str_eq_iff (digest env.sha256_hex l.bytes) pin)
      go (d, err f) e = cc
